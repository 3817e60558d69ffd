-- ===== src/Micro/Hash.antt =====
-- The bytes of a Go string, and the 64-bit FNV-1a hash of hash/fnv.
use Prim.Native.Nat.{bit_xor}
use wego.Prelude.{ℕ, ◌+◌, ◌*◌, ◌/◌, ◌%◌, ◌^◌, List, [], ◌∷◌, ◌++◌, Text, ltb, if◌then◌else◌}

-- The UTF-8 encoding of a code point.
abbrev pub encode_rune : ℕ → List ℕ
encode_rune c =
    if ltb c 0x80
    then c ∷ []
    else if ltb c 0x800
    then (0xc0 + c / 0x40) ∷ (0x80 + c % 0x40) ∷ []
    else if ltb c 0x10000
    then (0xe0 + c / 0x1000) ∷ (0x80 + c / 0x40 % 0x40) ∷ (0x80 + c % 0x40) ∷ []
    else (0xf0 + c / 0x40000)
      ∷ (0x80 + c / 0x1000 % 0x40)
      ∷ (0x80 + c / 0x40 % 0x40)
      ∷ (0x80 + c % 0x40)
      ∷ []

-- []byte(s)
unfoldable pub bytes : Text → List ℕ
bytes [] = []
bytes (c ∷ s) = encode_rune c ++ bytes s

abbrev fnv_offset : ℕ
fnv_offset = 14_695_981_039_346_656_037

abbrev fnv_prime : ℕ
fnv_prime = 1_099_511_628_211

-- One byte of the hash.
unfoldable pub fnv_byte : ℕ → ℕ → ℕ
fnv_byte h b = bit_xor h b * fnv_prime % 2 ^ 64

-- h.Write, of an initial value
unfoldable pub fnv_write : ℕ → List ℕ → ℕ
unfolding fnv_byte
fnv_write h [] = h
fnv_write h (b ∷ bs) = fnv_write (fnv_byte h b) bs

-- fnv.New64a, a write, and Sum64
unfoldable pub fnv64a : List ℕ → ℕ
unfolding fnv_write
fnv64a bs = fnv_write fnv_offset bs
