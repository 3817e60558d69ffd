-- ===== src/Middleware/Examples.antt =====
-- A request with a token, and the instants of four requests.
use wego.Prelude.{trim_space, some, [], ◌∷◌, Text, codes}
use wego.Action.{ok, Result}
use wego.Middleware.{Request}
use wego.Middleware.Auth.{
  Principal, authenticate, auth_middleware, AdmitsOnly, authenticate-AdmitsOnly, AdmitsTokens,
  auth_middleware-AdmitsTokens,
}

abbrev request : Request
request = record {
  method = codes "GET";
  full_path = codes "/orders";
  header = λ name. codes "Bearer abc";
}

abbrev known : Text → Result Text Principal
known credential = ok (record { subject = credential; attributes = [] })

authenticate-AdmitsOnly_example :
    AdmitsOnly
      (codes "/login" ∷ [])
      request
      (some known)
      (authenticate (some known) (codes "/login" ∷ []) request)
authenticate-AdmitsOnly_example = authenticate-AdmitsOnly (codes "/login" ∷ []) request (some known)

auth_middleware-AdmitsTokens_example :
    AdmitsTokens
      (codes "/login" ∷ [])
      request
      (trim_space (request.header (codes "X-Id")))
      (some (λ id. codes "abc"))
      (auth_middleware (codes "X-Id") (some (λ id. codes "abc")) (codes "/login" ∷ []) request)
auth_middleware-AdmitsTokens_example =
    auth_middleware-AdmitsTokens (codes "/login" ∷ []) request (codes "X-Id")
      (some (λ id. codes "abc"))
