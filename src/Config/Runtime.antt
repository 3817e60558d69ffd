-- ===== src/Config/Runtime.antt =====
-- mesa.go, New: the clients of a runtime, and what an error releases. Which clients can be made is the
-- argument `Clients`; the server of HTTP port and the micro server are among the caller's own servers.
pub mod Releasing
mod Examples
use wego.Prelude.{
  ◌≡◌, All, ℕ, zero, suc, ◌+◌, ◌-◌, ◌*◌, ◌/◌, ◌%◌, ◌^◌, ◌≤◌, ◌<◌, refl, ap, ◌∙◌, sym, subst, Bool,
  true, false, Option, none, some, List, [], ◌∷◌, ◌++◌, map, Text, codes, Unicode, is_empty, ltb,
  leb, ℤ, pos, negsuc, is_pos, if◌then◌else◌, ◌&&◌, ◌||◌, not, arith, append_assoc, append_nil,
}
use wego.Action.{Result, ok, err}
use wego.Config.Components.{is_set}
use wego.Mesa.{Mesa, Server}
use wego.Config.Options.{Options}
use wego.Config.Validation.{DefaultError, register_default_components, has_endpoints, connected}

-- The errors of telemetry.New, newDB, newRedis and etcd.NewCtl.
pub record Clients : Type 0 where
  pub telemetry : Option Text
  pub postgres : Option Text
  pub redis : Option Text
  pub etcd : Option Text

pub data NewError : Type 0 where
  telemetry_failed postgres_failed redis_failed etcd_failed : Text → NewError
  etcd_not_configured : NewError
  components_failed : DefaultError → NewError

-- The clients that are open.
pub record Held : Type 0 where
  pub has_telemetry : Bool
  pub has_postgres : Bool
  pub has_redis : Bool
  pub has_etcd : Bool

abbrev pub nothing : Held
nothing = record {
  has_telemetry = false;
  has_postgres = false;
  has_redis = false;
  has_etcd = false;
}

-- m.closeResources()
abbrev pub close_resources_of : Held → Held
close_resources_of h = record h { has_etcd = false; has_redis = false; has_postgres = false }

-- m.Telemetry.Shutdown
abbrev pub shutdown_telemetry : Held → Held
shutdown_telemetry h = record h { has_telemetry = false }

-- The error of a client that is made only where it is configured.
abbrev pub error_if : (configured : Bool) → Option Text → Option Text
error_if true e = e
error_if false e = none

-- The end of New, with the result of registerDefaultComponents.
abbrev pub on_components : Option DefaultError × Mesa → Held → Result NewError Mesa × Held
on_components (some e, m) h = (err (components_failed e), shutdown_telemetry (close_resources_of h))
on_components (none, m) h = (ok m, h)

module _ (own : List Server) (o : Options) where
  abbrev pub on_etcd : Option Text → Held → Result NewError Mesa × Held
  on_etcd (some e) h = (
    err (etcd_failed e),
    shutdown_telemetry (record h { has_redis = false; has_postgres = false }),
  )
  on_etcd none h =
      let held = record h { has_etcd = has_endpoints o.etcd.endpoints } in
      let done = on_components (register_default_components o (connected own o)) held in
      if is_set o.service_scheme && not (has_endpoints o.etcd.endpoints)
      then (err etcd_not_configured, shutdown_telemetry (close_resources_of held))
      else done

  abbrev pub on_redis : (etcd redis : Option Text) → Held → Result NewError Mesa × Held
  on_redis etcd (some e) h =
      (err (redis_failed e), shutdown_telemetry (record h { has_postgres = false }))
  on_redis etcd none h =
      on_etcd (error_if (has_endpoints o.etcd.endpoints) etcd)
        (record h { has_redis = is_set o.redis.addr })

  abbrev pub on_postgres : (etcd redis postgres : Option Text) → Held → Result NewError Mesa × Held
  on_postgres etcd redis (some e) h = (err (postgres_failed e), shutdown_telemetry h)
  on_postgres etcd redis none h =
      on_redis etcd (error_if (is_set o.redis.addr) redis)
        (record h { has_postgres = is_set o.dsn })

  abbrev pub on_telemetry :
      (etcd redis postgres telemetry : Option Text) → Result NewError Mesa × Held
  on_telemetry etcd redis postgres (some e) = (err (telemetry_failed e), nothing)
  on_telemetry etcd redis postgres none =
      on_postgres etcd redis (error_if (is_set o.dsn) postgres)
        (record nothing { has_telemetry = true })

  -- New, of options that are applied
  unfoldable pub new_runtime : Clients → Result NewError Mesa × Held
  unfolding register_default_components connected
  new_runtime c = on_telemetry c.etcd c.redis c.postgres c.telemetry
