-- ===== src/Common/Words.antt =====
-- Unsigned words of 8, 16, 32 and 64 bits as native numbers with the wrap written out, and the
-- bytes of a word in the order of a little-endian host (the opaque network-order values of the
-- code are only copied, compared and hashed).
use Prim.Native.Nat.{ℕ, ◌+◌, ◌-◌, ◌*◌, ◌/◌, ◌%◌, ◌^◌, ◌<◌}
use mathlib.Core.Path.{◌≡◌}
use mathlib.Core.List.{List, [], ◌∷◌}
use native.Mathlib.Omega.{arith}
use l4_maglev_lb.Common.Lists.{get_or, All}

abbrev pub u8 : ℕ → ℕ
u8 x = x % 2 ^ 8

abbrev pub u16 : ℕ → ℕ
u16 x = x % 2 ^ 16

abbrev pub u32 : ℕ → ℕ
u32 x = x % 2 ^ 32

abbrev pub u64 : ℕ → ℕ
u64 x = x % 2 ^ 64

abbrev pub uint32_max : ℕ
uint32_max = 2 ^ 32 - 1

-- `(x >> 8) & 0xff` and `x & 0xff` of a 16-bit word, and the word that they make.
abbrev pub hi8 : ℕ → ℕ
hi8 x = x / 2 ^ 8 % 2 ^ 8

abbrev pub lo8 : ℕ → ℕ
lo8 x = x % 2 ^ 8

abbrev pub be16 : ℕ → ℕ → ℕ
be16 hi lo = hi * 2 ^ 8 + lo

abbrev pub byte_at : List ℕ → ℕ → ℕ
byte_at buf i = get_or buf i 0

-- `memcpy(&x, buf + off, 2)` and `memcpy(&x, buf + off, 4)`.
unfoldable pub load16 : List ℕ → ℕ → ℕ
load16 buf off = byte_at buf off + byte_at buf (off + 1) * 2 ^ 8

unfoldable pub load32 : List ℕ → ℕ → ℕ
load32 buf off =
    byte_at buf off
    + byte_at buf (off + 1) * 2 ^ 8
    + byte_at buf (off + 2) * 2 ^ 16
    + byte_at buf (off + 3) * 2 ^ 24

-- The bytes that `memcpy(out, &x, 2)` and `memcpy(out, &x, 4)` write.
unfoldable pub bytes16 : ℕ → List ℕ
bytes16 x = x % 2 ^ 8 ∷ x / 2 ^ 8 % 2 ^ 8 ∷ []

unfoldable pub bytes32 : ℕ → List ℕ
bytes32 x = x % 2 ^ 8 ∷ x / 2 ^ 8 % 2 ^ 8 ∷ x / 2 ^ 16 % 2 ^ 8 ∷ x / 2 ^ 24 % 2 ^ 8 ∷ []

pub be16-hi8-lo8 : (x : ℕ) → x < 2 ^ 16 → be16 (hi8 x) (lo8 x) ≡ x
be16-hi8-lo8 x h = omega arith

abbrev pub AreBytes : List ℕ → Type 0
AreBytes = All (λ b. b < 2 ^ 8)
