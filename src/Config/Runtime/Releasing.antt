-- ===== src/Config/Runtime/Releasing.antt =====
-- mesa.go, New: what is open when it returns.
use wego.Prelude.{
  ◌≡◌, refl, Bool, true, false, Option, none, some, List, Text, if◌then◌else◌, ◌&&◌, not,
}
use wego.Action.{Result, ok, err}
use wego.Config.Components.{is_set}
use wego.Mesa.{Mesa, Server}
use wego.Config.Options.{Options}
use wego.Config.Validation.{DefaultError, register_default_components, has_endpoints, connected}
use wego.Config.Runtime.{
  Clients, NewError, Held, nothing, error_if, on_components, on_etcd, on_redis, on_postgres,
  on_telemetry, new_runtime, close_resources_of, shutdown_telemetry, etcd_not_configured,
}

-- The clients that the options configure.
abbrev pub configured : Options → Held
configured o = record {
  has_telemetry = true;
  has_postgres = is_set o.dsn;
  has_redis = is_set o.redis.addr;
  has_etcd = has_endpoints o.etcd.endpoints;
}

module _ (own : List Server) (o : Options) where
  -- A result holds the configured clients, and an error none.
  unfoldable pub Holds : Result NewError Mesa × Held → Type 0
  Holds (err e, h) = h ≡ nothing
  Holds (ok m, h) =
      (h ≡ configured o) × (register_default_components o (connected own o) ≡ (none, m))

  on_components-Holds :
      (r : Option DefaultError × Mesa)
      → register_default_components o (connected own o) ≡ r
      → Holds (on_components r (configured o))
  unfolding Holds
  on_components-Holds (some e, m) h = refl
  on_components-Holds (none, m) h = (refl, h)

  on_etcd-Holds :
      (e : Option Text) → Holds (on_etcd own o e (record (configured o) { has_etcd = false }))
  unfolding Holds
  on_etcd-Holds (some e) = refl
  on_etcd-Holds none = by_scheme (is_set o.service_scheme && not (has_endpoints o.etcd.endpoints))
    where
      by_scheme :
          (b : Bool)
          → Holds (
              let done =
                on_components (register_default_components o (connected own o)) (configured o) in
              if b
              then (err etcd_not_configured, shutdown_telemetry (close_resources_of (configured o)))
              else done)
      by_scheme true = refl
      by_scheme false = on_components-Holds _ refl

  on_redis-Holds :
      (etcd e : Option Text)
      → Holds
          (on_redis own o etcd e (record (configured o) { has_redis = false; has_etcd = false }))
  unfolding Holds
  on_redis-Holds etcd (some e) = refl
  on_redis-Holds etcd none = on_etcd-Holds (error_if (has_endpoints o.etcd.endpoints) etcd)

  on_postgres-Holds :
      (etcd redis e : Option Text)
      → Holds (on_postgres own o etcd redis e (record nothing { has_telemetry = true }))
  unfolding Holds
  on_postgres-Holds etcd redis (some e) = refl
  on_postgres-Holds etcd redis none = on_redis-Holds etcd (error_if (is_set o.redis.addr) redis)

  on_telemetry-Holds :
      (etcd redis postgres e : Option Text) → Holds (on_telemetry own o etcd redis postgres e)
  unfolding Holds
  on_telemetry-Holds etcd redis postgres (some e) = refl
  on_telemetry-Holds etcd redis postgres none =
      on_postgres-Holds etcd redis (error_if (is_set o.dsn) postgres)

  -- New, whichever of its clients cannot be made and whether or not the components can be registered,
  -- either returns an error and has closed every client that it had made, or returns the runtime with
  -- its default components registered, and holds the telemetry and exactly the clients that are
  -- configured.
  pub new_runtime-Holds : (c : Clients) → Holds (new_runtime own o c)
  unfolding new_runtime
  new_runtime-Holds c = on_telemetry-Holds c.etcd c.redis c.postgres c.telemetry
