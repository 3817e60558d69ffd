-- ===== src/Config/Telemetry.antt =====
-- telemetry/runtime.go, New: the checks of a configuration, before the exporter is made; and the name
-- that mesa.go gives to a service without one.
use wego.Prelude.{
  is_neg, pos_part, trim_space-trim_space, ◌≡◌, is_blank, trim_space, ℕ, refl, ap, ◌∙◌, subst, Bool,
  true, false, Option, none, some, List, [], ◌++◌, Text, is_empty, ltb, if◌then◌else◌, ◌&&◌, ◌||◌,
  not, arith,
}
use wego.Action.{ok}
use wego.Config.Options.{Options, TelemetryConfig, apply_all, Opt}
use wego.Config.Validation.{
  otlp_endpoint, service_name, Config, invalid_if, invalid_telemetry, invalid_settings,
  invalid_http, invalid_redis, invalid_endpoints, half_auth, etcd_auth, invalid_components,
  out_of_unit, validate, options, options_of, named_telemetry, trace_sample_ratio, http_port,
}
use wego.Config.Validation.Clients.{append-nil, invalid_if-nil, accept-ok}
use wego.Config.Validation.Accepted.{zero_options, accept-options}

pub data TelemetryError : Type 0 where
  name_required endpoint_required ratio_out_of_range : TelemetryError

-- telemetry.New up to the making of the exporter: its error, if it has one
unfoldable pub check_telemetry : TelemetryConfig → Option TelemetryError
check_telemetry t =
    if not t.enabled
    then none
    else if is_blank t.service_name
    then some name_required
    else if is_blank t.otlp_endpoint
    then some endpoint_required
    else if out_of_unit t.trace_sample_ratio
    then some ratio_out_of_range
    else none

-- The telemetry configuration that New (mesa.go) hands to telemetry.New.
unfoldable pub telemetry_of : Options → TelemetryConfig
telemetry_of o =
    if o.telemetry.enabled && is_blank o.telemetry.service_name
    then record o.telemetry { service_name = trim_space o.profile }
    else o.telemetry

-- A configuration that passes the checks: where it is enabled, it has a name and an endpoint.
record IsUsable (t : TelemetryConfig) : Type 0 where
  has_name : t.enabled ≡ true → is_blank t.service_name ≡ false
  has_endpoint : t.enabled ≡ true → is_blank t.otlp_endpoint ≡ false
  in_unit : out_of_unit t.trace_sample_ratio ≡ false

check_telemetry-none : (t : TelemetryConfig) → IsUsable t → check_telemetry t ≡ none
unfolding check_telemetry
check_telemetry-none t h =
    checked t.enabled (is_blank t.service_name) (is_blank t.otlp_endpoint)
      (out_of_unit t.trace_sample_ratio) h.has_name h.has_endpoint h.in_unit
  where
    checked :
        (a b c d : Bool)
        → (a ≡ true → b ≡ false)
        → (a ≡ true → c ≡ false)
        → d ≡ false
        → (if not a
            then none
            else if b
            then some name_required
            else if c
            then some endpoint_required
            else if d
            then some ratio_out_of_range
            else none)
          ≡ none
    checked false b c d hb hc hd = refl
    checked true b c d hb hc hd = rw (hb refl, hc refl, hd) refl

-- New (mesa.go) leaves it as it is.
telemetry_of-same : (o : Options) → IsUsable o.telemetry → telemetry_of o ≡ o.telemetry
unfolding telemetry_of
telemetry_of-same o h = named o.telemetry.enabled (is_blank o.telemetry.service_name) h.has_name
  where
    named :
        (a b : Bool)
        → (a ≡ true → b ≡ false)
        → (if a && b
            then record o.telemetry { service_name = trim_space o.profile }
            else o.telemetry)
          ≡ o.telemetry
    named false b h = refl
    named true b h = rw (h refl) refl

named_telemetry-IsUsable :
    (profile : Text) (t : TelemetryConfig)
    → invalid_telemetry profile t ≡ []
    → out_of_unit t.trace_sample_ratio ≡ false
    → IsUsable (named_telemetry profile t)
named_telemetry-IsUsable profile t valid ratio =
    by_name (is_blank t.service_name) refl (valid_fields t.enabled valid)
  where
    valid_fields :
        (a : Bool)
        → (if a
            then invalid_if (is_blank t.service_name && is_blank profile) service_name
              ++ invalid_if (is_blank t.otlp_endpoint) otlp_endpoint
            else [])
          ≡ []
        → a ≡ true
        → ((is_blank t.service_name && is_blank profile) ≡ false)
          × (is_blank t.otlp_endpoint ≡ false)
    valid_fields false h e = cc
    valid_fields true h e =
        let parts =
          append-nil (invalid_if (is_blank t.service_name && is_blank profile) service_name)
            (invalid_if (is_blank t.otlp_endpoint) otlp_endpoint) h in
        (invalid_if-nil _ service_name (parts.0), invalid_if-nil _ otlp_endpoint (parts.1))

    by_name :
        (b : Bool)
        → is_blank t.service_name ≡ b
        → (t.enabled ≡ true
            → ((is_blank t.service_name && is_blank profile) ≡ false)
              × (is_blank t.otlp_endpoint ≡ false))
        → IsUsable (if b then record t { service_name = trim_space profile } else t)
    by_name true e fields = record {
      has_name =
          λ on. ap is_empty (trim_space-trim_space profile) ∙ ground (arith, e, (fields on).0);
      has_endpoint = λ on. (fields on).1;
      in_unit = ratio;
    }
    by_name false e fields = record {
      has_name = λ on. e;
      has_endpoint = λ on. (fields on).1;
      in_unit = ratio;
    }

second_and_third :
    {A : Type 0} (xs ys zs ws : List A) → xs ++ (ys ++ (zs ++ ws)) ≡ [] → (ys ≡ []) × (zs ≡ [])
second_and_third xs ys zs ws h =
    let rest = (append-nil xs (ys ++ (zs ++ ws)) h).1 in
    ((append-nil ys (zs ++ ws) rest).0, (append-nil zs ws ((append-nil ys (zs ++ ws) rest).1)).0)

accepted-IsUsable :
    (is_host_port : Text → Bool) (c : Config)
    → validate is_host_port c ≡ []
    → IsUsable (named_telemetry c.profile c.telemetry)
unfolding validate
accepted-IsUsable is_host_port c h =
    named_telemetry-IsUsable c.profile c.telemetry (others.1)
      (invalid_if-nil (out_of_unit c.telemetry.trace_sample_ratio) trace_sample_ratio (others.0))
  where
    others :
        (invalid_if (out_of_unit c.telemetry.trace_sample_ratio) trace_sample_ratio ≡ [])
        × (invalid_telemetry c.profile c.telemetry ≡ [])
    others =
        second_and_third
          (invalid_if (is_neg c.http.port || ltb 65535 (pos_part c.http.port)) http_port)
          (invalid_if (out_of_unit c.telemetry.trace_sample_ratio) trace_sample_ratio)
          (invalid_telemetry c.profile c.telemetry)
          (invalid_http c.http
            ++ (invalid_redis is_host_port c.redis
                ++ (invalid_endpoints 0 c.etcd.endpoints
                    ++ invalid_if (half_auth c.etcd) etcd_auth)))
          ((append-nil (invalid_settings is_host_port c) (invalid_components c) h).0)

-- A runtime whose options come from a configuration that Config.Options accepts is never refused by
-- the checks of telemetry.New: enabled telemetry has a service name, its own or the profile's, and an
-- endpoint, and the ratio of traces is in its range; and New hands on the configuration as the
-- options have it.
pub options-check_telemetry :
    (is_host_port : Text → Bool) (parse_level : Text → ℕ) (c : Config) (opts : List Opt)
    → options is_host_port parse_level c ≡ ok opts
    → (let o = apply_all opts zero_options in
        (check_telemetry (telemetry_of o) ≡ none) × (telemetry_of o ≡ o.telemetry))
unfolding options zero_options apply_all
options-check_telemetry is_host_port parse_level c opts h =
    subst
      (λ os.
        (let o = apply_all os zero_options in
          (check_telemetry (telemetry_of o) ≡ none) × (telemetry_of o ≡ o.telemetry)))
      (accept-options (validate is_host_port c) (options_of parse_level c) opts h)
      (ap check_telemetry same ∙ check_telemetry-none made.telemetry usable, same)
  where
    made : Options
    made = apply_all (options_of parse_level c) zero_options

    usable : IsUsable made.telemetry
    usable = accepted-IsUsable is_host_port c (accept-ok _ _ h)

    same : telemetry_of made ≡ made.telemetry
    same = telemetry_of-same made usable
