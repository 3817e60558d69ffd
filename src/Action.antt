-- ===== src/Action.antt =====
-- Fallible methods on a mutable state. A Go method `(T, error)` on a state S is an action: it takes
-- the state and returns its result beside the new state, on the error paths too.
use wego.Prelude.{ap, ◌≡◌, refl, Bool, true, false}

pub data Result {ℓ} (E : Type ℓ) (A : Type ℓ) : Type ℓ where
  ok : A → Result E A
  err : E → Result E A

abbrev pub Action {ℓ} : Type ℓ → Type ℓ → Type ℓ → Type ℓ
Action S E A = S → Result E A × S

module _ {ℓ} {S E A : Type ℓ} where
  abbrev pub pure : A → Action S E A
  pure a s = (ok a, s)

  -- `return …, err`
  abbrev pub raise : E → Action S E A
  raise e s = (err e, s)

  abbrev pub lift : Result E A → Action S E A
  lift r s = (r, s)

module _ {ℓ} {S E A B : Type ℓ} where
  abbrev pub continue : Result E A → (A → Action S E B) → Action S E B
  continue (ok a) f s = f a s
  continue (err e) f s = (err e, s)

  infixl 5 ◌>>=◌ ◌>>◌
  unfoldable pub ◌>>=◌ : Action S E A → (A → Action S E B) → Action S E B
  ◌>>=◌ m f s = continue (m s).0 f (m s).1

  abbrev pub ◌>>◌ : Action S E A → Action S E B → Action S E B
  m >> n = m >>= λ _. n

module _ {ℓ} {E F A : Type ℓ} where
  -- `if err != nil { return …, wrap(err) }`
  abbrev pub map_err : (E → F) → Result E A → Result F A
  map_err f (ok a) = ok a
  map_err f (err e) = err (f e)

module _ {ℓ} {S E : Type ℓ} where
  -- `if test { return …, err }`
  unfoldable pub refuse_if : {A : Type ℓ} → Bool → E → Action S E A → Action S E A
  refuse_if true e m s = (err e, s)
  refuse_if false e m s = m s

-- Inversion: a block that returns has run each of its parts.
module _ {ℓ} {S E A B : Type ℓ} where
  pub >>=-ok :
      (m : Action S E A) (f : A → Action S E B) (s : S) {b : B}
      → ((m >>= f) s).0 ≡ ok b
      → (a : A) × ((m s).0 ≡ ok a) × ((f a (m s).1).0 ≡ ok b) × ((m >>= f) s ≡ f a (m s).1)
  unfolding ◌>>=◌
  >>=-ok m f s {b} h = continued (m s).0 (m s).1 h
    where
      continued :
          (r : Result E A) (t : S)
          → (continue r f t).0 ≡ ok b
          → (a : A) × (r ≡ ok a) × ((f a t).0 ≡ ok b) × (continue r f t ≡ f a t)
      continued (ok a) t e = (a, refl, e, refl)
      continued (err x) t e = cc

module _ {ℓ} {S E A : Type ℓ} where
  pub refuse_if-ok :
      (b : Bool) (e : E) (m : Action S E A) (s : S) {a : A}
      → (refuse_if b e m s).0 ≡ ok a
      → (b ≡ false) × (refuse_if b e m s ≡ m s)
  unfolding refuse_if
  refuse_if-ok true e m s h = cc
  refuse_if-ok false e m s h = (refl, refl)

  pub refuse_if-false : (e : E) (m : Action S E A) (s : S) → refuse_if false e m s ≡ m s
  unfolding refuse_if
  refuse_if-false e m s = refl

module _ {ℓ} {E F A : Type ℓ} where
  pub map_err-ok : (f : E → F) (r : Result E A) {a : A} → map_err f r ≡ ok a → r ≡ ok a
  map_err-ok f (ok a) h = cc
  map_err-ok f (err e) h = cc

module _ {ℓ} {E A : Type ℓ} where
  from_ok : A → Result E A → A
  from_ok d (ok a) = a
  from_ok d (err e) = d

  pub ok_injective : {a b : A} → (let r : Result E A = ok a in r) ≡ ok b → a ≡ b
  unfolding from_ok
  ok_injective {a} h = ap (from_ok a) h
