-- ===== src/Middleware/Cors.antt =====
-- middleware/production.go, CORS and SecurityHeaders. The division of a duration by a second, and
-- the digits of an integer, are the argument `max_age_text`.
use wego.Prelude.{
  text_key, ◌≡◌, text_beq, trim_space, any, GoMap, lookup, refl, Bool, true, false, Option, none,
  some, List, [], ◌∷◌, ◌++◌, Text, codes, is_empty, ℤ, is_pos, if◌then◌else◌, ◌&&◌, not,
}
use wego.Middleware.{Request, Outcome, next, abort}

pub record CorsConfig : Type 0 where
  pub allowed_origins : List Text
  pub allowed_methods : List Text
  pub allowed_headers : List Text
  pub max_age : ℤ

-- strings.Join
unfoldable pub join : (separator : Text) → List Text → Text
join separator [] = []
join separator (s ∷ []) = s
join separator (s ∷ t ∷ ss) = s ++ separator ++ join separator (t ∷ ss)

-- `if s == "" { s = … }`
abbrev pub or_text : Text → Text → Text
or_text [] d = d
or_text (c ∷ s) d = c ∷ s

-- Is the origin in the map of the trimmed origins?
unfoldable pub allows : CorsConfig → Text → Bool
allows cfg origin =
    not (is_empty origin) && any (λ o. text_beq (trim_space o) origin) cfg.allowed_origins

-- The headers of an origin that is allowed.
unfoldable pub cors_headers : (max_age_text : ℤ → Text) → CorsConfig → Text → GoMap Text Text
unfolding join
cors_headers max_age_text cfg origin =
    (codes "Access-Control-Allow-Origin", origin)
    ∷ (codes "Vary", codes "Origin")
    ∷ (
      codes "Access-Control-Allow-Methods",
      or_text (join (codes ", ") cfg.allowed_methods) (codes "GET, POST, PUT, DELETE, OPTIONS"),
    )
    ∷ (
      codes "Access-Control-Allow-Headers",
      or_text (join (codes ", ") cfg.allowed_headers)
          (codes "Authorization, Content-Type, X-Request-ID"),
    )
    ∷ (if is_pos cfg.max_age
        then (codes "Access-Control-Max-Age", max_age_text cfg.max_age) ∷ []
        else [])

-- CORS: the headers that are added, and whether the request goes on.
unfoldable pub cors :
    (max_age_text : ℤ → Text) → CorsConfig → Request → GoMap Text Text × Outcome Unit
unfolding allows cors_headers
cors max_age_text cfg r =
    let origin = r.header (codes "Origin") in
    (
      (if allows cfg origin then cors_headers max_age_text cfg origin else []),
      if text_beq r.method (codes "OPTIONS") then abort 204 [] else next tt,
    )

abbrev pub security_headers : GoMap Text Text
security_headers =
    (codes "X-Content-Type-Options", codes "nosniff")
    ∷ (codes "X-Frame-Options", codes "DENY")
    ∷ (codes "Referrer-Policy", codes "no-referrer")
    ∷ (codes "Content-Security-Policy", codes "default-src 'none'; frame-ancestors 'none'")
    ∷ []

-- The origin that an answer allows, if it allows one.
abbrev pub allowed_origin : GoMap Text Text → Option Text
allowed_origin headers = lookup (codes "Access-Control-Allow-Origin") headers

-- An answer allows an origin just if the request names it in its Origin header and it is one of the
-- configured origins, up to the white space around these; and no other origin, nor all of them.
pub cors-allows :
    (max_age_text : ℤ → Text) (cfg : CorsConfig) (r : Request)
    → allowed_origin ((cors max_age_text cfg r).0) ≡ (
        if not (is_empty (r.header (codes "Origin")))
          && any (λ o. text_beq (trim_space o) (r.header (codes "Origin"))) cfg.allowed_origins
        then some (r.header (codes "Origin"))
        else none)
unfolding cors allows cors_headers lookup
cors-allows max_age_text cfg r = by_test (allows cfg (r.header (codes "Origin")))
  where
    by_test :
        (b : Bool)
        → allowed_origin
            (if b then cors_headers max_age_text cfg (r.header (codes "Origin")) else [])
          ≡ (if b then some (r.header (codes "Origin")) else none)
    by_test true = refl
    by_test false = refl
