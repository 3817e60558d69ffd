-- ===== src/Reminder/Service/Delays.antt =====
-- The retry delays of reminder/service.go.
use wego.Prelude.{
  ℕ, zero, suc, ◌≤◌, ◌<◌, Bool, true, false, List, [], ◌∷◌, ◌≡◌, refl, ℤ, pos, negsuc, is_pos,
  length, get_or, get_last_or, All, if◌then◌else◌, arith,
}
use wego.Reminder.Model.{Time}
use wego.Reminder.Options.{Opt, default_options, apply_all, options-IsUsable}
use wego.Reminder.Service.{retry_delay, add_duration}

module _ (P : ℤ → Type 0) where
  All-get_last_or : (d : ℤ) (ds : List ℤ) → P d → All P ds → P (get_last_or d ds)
  All-get_last_or d [] p h = p
  All-get_last_or d (e ∷ ds) p (q, h) = All-get_last_or e ds q h

  All-get_or : (d : ℤ) (ds : List ℤ) (n : ℕ) → P d → All P ds → P (get_or d ds n)
  All-get_or d [] n p h = p
  All-get_or d (e ∷ ds) zero p (q, h) = q
  All-get_or d (e ∷ ds) (suc n) p (q, h) = All-get_or d ds n p h

  if-P : (b : Bool) (x y : ℤ) → P x → P y → P (if b then x else y)
  if-P true x y p q = p
  if-P false x y p q = q

  -- A delay is a minute or one of the list.
  retry_delay-All :
      (ds : List ℤ) (attempt : ℤ)
      → P (retry_delay [] (pos 0))
      → All P ds
      → P (retry_delay ds attempt)
  unfolding retry_delay
  retry_delay-All ds (negsuc n) m h = m
  retry_delay-All ds (pos zero) m h = m
  retry_delay-All [] (pos (suc n)) m h = m
  retry_delay-All (d ∷ ds) (pos (suc n)) m (p, h) =
      if-P _ _ _ (All-get_last_or d ds p h) (All-get_or d (d ∷ ds) n p (p, h))

-- With the settings that a service runs with, whatever its options, every retry is scheduled
-- after the instant at which the notification failed.
pub retry_later :
    (opts : List Opt) (attempt : ℤ) (at : Time)
    → at < add_duration at (retry_delay (apply_all opts default_options).retry_delays attempt)
retry_later opts attempt at =
    later _
      (retry_delay-All (λ d. is_pos d ≡ true) _ attempt minute_pos (options-IsUsable opts).waits)
  where
    minute_pos : is_pos (retry_delay [] (pos 0)) ≡ true
    minute_pos = unfold retry_delay in refl

    later : (d : ℤ) → is_pos d ≡ true → at < add_duration at d
    later (pos n) h = ground arith
    later (negsuc n) h = ground arith

-- The k-th failed attempt waits for the k-th delay.
pub retry_delay-get_or :
    (d : ℤ) (ds : List ℤ) (n : ℕ)
    → n < length (d ∷ ds)
    → retry_delay (d ∷ ds) (pos (suc n)) ≡ get_or d (d ∷ ds) n
unfolding retry_delay
retry_delay-get_or d ds n h = ground arith

-- Later attempts wait for the last one.
pub retry_delay-get_last_or :
    (d : ℤ) (ds : List ℤ) (n : ℕ)
    → length (d ∷ ds) ≤ n
    → retry_delay (d ∷ ds) (pos (suc n)) ≡ get_last_or d ds
unfolding retry_delay
retry_delay-get_last_or d ds n h = ground arith
