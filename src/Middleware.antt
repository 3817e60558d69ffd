-- ===== src/Middleware.antt =====
-- middleware/: the handlers that stand before a route. A request is what they read of it, and a
-- handler either aborts with a status and a message or goes on.
pub mod Auth
pub mod Cors
mod Examples
use wego.Prelude.{
  Text, All, ℕ, zero, suc, ◌+◌, ◌-◌, ◌*◌, ◌/◌, ◌%◌, ◌^◌, ◌≤◌, ◌<◌, ◌≡◌, refl, ap, ◌∙◌, sym, subst,
  Bool, true, false, Option, none, some, List, [], ◌∷◌, ◌++◌, map, codes, Unicode, is_empty, ltb,
  leb, ℤ, pos, negsuc, is_pos, if◌then◌else◌, ◌&&◌, ◌||◌, not, arith, append_assoc, append_nil,
}

pub record Request : Type 0 where
  pub method : Text
  -- c.FullPath(), empty where no route matches
  pub full_path : Text
  -- c.GetHeader(name)
  pub header : Text → Text

-- What a handler does with a request: `next` hands it on, with what the handler has put into its
-- context.
pub data Outcome (A : Type 0) : Type 0 where
  next : A → Outcome A
  abort : (status : ℕ) → (message : Text) → Outcome A
