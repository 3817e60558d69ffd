-- ===== src/Prelude/Ascii.antt =====
-- The lower-case table of ASCII, which meets what `Unicode` asks for.
use Prim.Native.Nat.{ℕ, ◌+◌}
use mathlib.Core.Path.{◌≡◌}
use mathlib.Core.Bool.{◌&&◌}
use native.Mathlib.Omega.{arith}
use wego.Prelude.Tests.{leb, if◌then◌else◌}
use wego.Prelude.Strings.{Unicode, is_space}

abbrev pub lower_ascii : ℕ → ℕ
lower_ascii c = if leb 65 c && leb c 90 then c + 32 else c

pub lower_ascii_idem : (c : ℕ) → lower_ascii (lower_ascii c) ≡ lower_ascii c
lower_ascii_idem c = ground arith

pub is_space-lower_ascii : (c : ℕ) → is_space (lower_ascii c) ≡ is_space c
unfolding is_space
is_space-lower_ascii c = ground arith

abbrev pub ascii : Unicode
ascii = record {
  lower = lower_ascii;
  lower-lower = lower_ascii_idem;
  is_space-lower = is_space-lower_ascii;
}
