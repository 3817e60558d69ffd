-- ===== src/Middleware/Auth.antt =====
-- middleware/auth.go. The authenticator and the cache of tokens are the caller's.
use wego.Prelude.{
  nat_beq, ◌≡◌, text_beq, text_beq_sound, is_blank, trim_space, any, GoMap, refl, ap, ◌∙◌, sym,
  Bool, true, false, Option, none, some, List, [], ◌∷◌, Text, codes, is_empty, if◌then◌else◌, ◌||◌,
  not,
}
use wego.Action.{Result, ok, err}
use wego.Middleware.{Request, Outcome, next, abort}

pub record Principal : Type 0 where
  pub subject : Text
  pub attributes : GoMap Text Text

-- strings.CutPrefix(s, prefix)
unfoldable pub after_prefix : (prefix s : Text) → Option Text
after_prefix [] s = some s
after_prefix (c ∷ p) [] = none
after_prefix (c ∷ p) (d ∷ s) = let rest = after_prefix p s in if nat_beq c d then rest else none

-- A text that is not empty.
abbrev pub unless_empty : Text → Option Text
unless_empty [] = none
unless_empty (c ∷ s) = some (c ∷ s)

-- bearerCredential, none where it is not ok
unfoldable pub bearer_credential : Text → Option Text
unfolding after_prefix
bearer_credential header = elim (after_prefix (codes "Bearer ") header) [
  | none ↦ none
  | some rest ↦ unless_empty (trim_space rest)
]

-- slices.Contains(paths, path)
abbrev pub contains : List Text → Text → Bool
contains paths path = any (λ p. text_beq p path) paths

-- abortUnauthorized
abbrev pub unauthorized : {A : Type 0} → Text → Outcome A
unauthorized message = abort 401 message

-- What the authenticator returned.
abbrev pub after_authentication : Result Text Principal → Outcome (Option Principal)
after_authentication (err e) = unauthorized (codes "invalid credentials")
after_authentication (ok principal) =
    if is_blank principal.subject
    then unauthorized (codes "invalid credentials")
    else next (some principal)

abbrev pub with_authenticator :
    Option (Text → Result Text Principal) → Option Text → Outcome (Option Principal)
with_authenticator none credential = unauthorized (codes "authentication is not configured")
with_authenticator (some f) none = unauthorized (codes "invalid authorization header")
with_authenticator (some f) (some credential) = after_authentication (f credential)

-- Authenticate, with the principal that the request's context then has
unfoldable pub authenticate :
    Option (Text → Result Text Principal)
    → (exclude_paths : List Text) → Request
    → Outcome (Option Principal)
unfolding bearer_credential
authenticate authenticator exclude_paths r =
    if contains exclude_paths r.full_path
    then next none
    else with_authenticator authenticator (bearer_credential (r.header (codes "Authorization")))

-- `id == "" || cachedToken == "" || cachedToken != token`
abbrev pub check_token : (id cached token : Text) → Outcome Unit
check_token id cached token =
    if is_empty id || is_empty cached || not (text_beq cached token)
    then unauthorized (codes "invalid token")
    else next tt

abbrev pub with_cache : Option (Text → Text) → (id : Text) → Option Text → Outcome Unit
with_cache none id token = unauthorized (codes "invalid authorization header")
with_cache (some f) id none = unauthorized (codes "invalid authorization header")
with_cache (some f) id (some token) = check_token id (f id) token

-- AuthMiddleware
unfoldable pub auth_middleware :
    (id_key : Text) → Option (Text → Text) → (exclude_paths : List Text) → Request → Outcome Unit
unfolding bearer_credential
auth_middleware id_key get_cache_token exclude_paths r =
    if contains exclude_paths r.full_path
    then next tt
    else with_cache get_cache_token (trim_space (r.header id_key))
        (bearer_credential (r.header (codes "Authorization")))

module _ (exclude_paths : List Text) (r : Request) where
  abbrev credential_of : Option Text
  credential_of = bearer_credential (r.header (codes "Authorization"))

  -- What a request that Authenticate hands on has shown.
  pub data Authenticated (authenticator : Option (Text → Result Text Principal))
      : Option Principal → Type 0 where
    excluded : contains exclude_paths r.full_path ≡ true → Authenticated authenticator none
    shown :
        (f : Text → Result Text Principal) (credential : Text) (p : Principal)
        → authenticator ≡ some f
        → bearer_credential (r.header (codes "Authorization")) ≡ some credential
        → f credential ≡ ok p
        → is_blank p.subject ≡ false
        → Authenticated authenticator (some p)

  unfoldable pub AdmitsOnly :
      (authenticator : Option (Text → Result Text Principal)) → Outcome (Option Principal) → Type 0
  AdmitsOnly authenticator (next p) = Authenticated authenticator p
  AdmitsOnly authenticator (abort status message) = status ≡ 401

  -- Authenticate hands a request on only if its path is excluded, and then without a principal, or if
  -- an authenticator is configured and has accepted the bearer credential of the Authorization
  -- header, and then with the principal that it returned, whose subject is not blank; every other
  -- request ends with the status 401.
  pub authenticate-AdmitsOnly :
      (authenticator : Option (Text → Result Text Principal))
      → AdmitsOnly authenticator (authenticate authenticator exclude_paths r)
  unfolding authenticate AdmitsOnly
  authenticate-AdmitsOnly authenticator =
      by_path (contains exclude_paths r.full_path) authenticator credential_of refl refl refl
    where
      by_subject :
          (b : Bool) (f : Text → Result Text Principal) (c : Text) (p : Principal)
          → authenticator ≡ some f
          → credential_of ≡ some c
          → f c ≡ ok p
          → is_blank p.subject ≡ b
          → AdmitsOnly authenticator
              (if b then unauthorized (codes "invalid credentials") else next (some p))
      by_subject true f c p ef ec ep eb = refl
      by_subject false f c p ef ec ep eb = shown f c p ef ec ep eb

      by_answer :
          (f : Text → Result Text Principal) (c : Text) (x : Result Text Principal)
          → authenticator ≡ some f
          → credential_of ≡ some c
          → f c ≡ x
          → AdmitsOnly authenticator (after_authentication x)
      by_answer f c (err e) ef ec ex = refl
      by_answer f c (ok p) ef ec ex = by_subject (is_blank p.subject) f c p ef ec ex refl

      by_path :
          (b : Bool) (a : Option (Text → Result Text Principal)) (c : Option Text)
          → contains exclude_paths r.full_path ≡ b
          → authenticator ≡ a
          → credential_of ≡ c
          → AdmitsOnly authenticator (if b then next none else with_authenticator a c)
      by_path true a c eb ea ec = excluded eb
      by_path false none c eb ea ec = refl
      by_path false (some f) none eb ea ec = refl
      by_path false (some f) (some c) eb ea ec = by_answer f c (f c) ea ec refl

  -- What a request that AuthMiddleware hands on has shown.
  pub data HasToken (id : Text) (get_cache_token : Option (Text → Text)) : Type 0 where
    excluded : contains exclude_paths r.full_path ≡ true → HasToken id get_cache_token
    has_token :
        (f : Text → Text)
        → get_cache_token ≡ some f
        → is_empty id ≡ false
        → is_empty (f id) ≡ false
        → bearer_credential (r.header (codes "Authorization")) ≡ some (f id)
        → HasToken id get_cache_token

  unfoldable pub AdmitsTokens : (id : Text) → Option (Text → Text) → Outcome Unit → Type 0
  AdmitsTokens id get_cache_token (next p) = HasToken id get_cache_token
  AdmitsTokens id get_cache_token (abort status message) = status ≡ 401

  -- AuthMiddleware hands a request on only if its path is excluded, or if the request names an id that
  -- is not blank, for which a token is cached that is not empty, and has this token as its bearer
  -- credential; every other request ends with the status 401.
  pub auth_middleware-AdmitsTokens :
      (id_key : Text) (get_cache_token : Option (Text → Text))
      → AdmitsTokens
          (trim_space (r.header id_key))
          get_cache_token
          (auth_middleware id_key get_cache_token exclude_paths r)
  unfolding auth_middleware AdmitsTokens
  auth_middleware-AdmitsTokens id_key get_cache_token =
      by_path (contains exclude_paths r.full_path) get_cache_token credential_of refl refl refl
    where
      id : Text
      id = trim_space (r.header id_key)

      by_token :
          (no_id no_token same : Bool) (f : Text → Text) (c : Text)
          → get_cache_token ≡ some f
          → credential_of ≡ some c
          → is_empty id ≡ no_id
          → is_empty (f id) ≡ no_token
          → text_beq (f id) c ≡ same
          → AdmitsTokens id get_cache_token (
              if no_id || no_token || not same
              then unauthorized (codes "invalid token")
              else next tt)
      by_token true b c f t ef ec ei et es = refl
      by_token false true c f t ef ec ei et es = refl
      by_token false false false f t ef ec ei et es = refl
      by_token false false true f t ef ec ei et es =
          has_token f ef ei et (ec ∙ ap some (sym (text_beq_sound (f id) t es)))

      by_path :
          (b : Bool) (a : Option (Text → Text)) (c : Option Text)
          → contains exclude_paths r.full_path ≡ b
          → get_cache_token ≡ a
          → credential_of ≡ c
          → AdmitsTokens id get_cache_token (if b then next tt else with_cache a id c)
      by_path true a c eb ea ec = excluded eb
      by_path false none c eb ea ec = refl
      by_path false (some f) none eb ea ec = refl
      by_path false (some f) (some c) eb ea ec =
          by_token (is_empty id) (is_empty (f id)) (text_beq (f id) c) f c ea ec refl refl refl
