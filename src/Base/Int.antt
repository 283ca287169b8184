-- ===== src/Base/Int.antt =====
-- Signed integers over the native numbers.
use Prim.Native.Nat.{ℕ, suc, ◌+◌, ◌-◌, ◌*◌, ◌%◌, ◌^◌, ◌≤◌, ◌<◌}
use mathlib.Core.Path.{◌≡◌}
use native.Mathlib.Omega.{arith}
use native.Mathlib.Nat.{mod-eq_of_lt}
use mathlib.Core.Bool.{Bool}
use package.a_curl_library.Base.Tests.{ltb, leb, if◌then◌else◌}

-- `negsuc n` is -(n + 1).
pub data ℤ : Type 0 where
  pos : ℕ → ℤ
  negsuc : ℕ → ℤ

abbrev pub pos_part : ℤ → ℕ
pos_part (pos n) = n
pos_part (negsuc n) = 0

abbrev pub neg_part : ℤ → ℕ
neg_part (pos n) = 0
neg_part (negsuc n) = suc n

abbrev pub sub_ℕ : ℕ → ℕ → ℤ
sub_ℕ a b = if leb b a then pos (a - b) else negsuc (b - a - 1)

infixl 65 ◌+ℤ◌ ◌-ℤ◌
abbrev pub ◌+ℤ◌ : ℤ → ℤ → ℤ
a +ℤ b = sub_ℕ (pos_part a + pos_part b) (neg_part a + neg_part b)

abbrev pub ◌-ℤ◌ : ℤ → ℤ → ℤ
a -ℤ b = sub_ℕ (pos_part a + neg_part b) (neg_part a + pos_part b)

infix 50 ◌≤ℤ◌
abbrev pub ◌≤ℤ◌ : ℤ → ℤ → Type 0
a ≤ℤ b = pos_part a + neg_part b ≤ pos_part b + neg_part a

abbrev pub ltb_ℤ : ℤ → ℤ → Bool
ltb_ℤ a b = ltb (pos_part a + neg_part b) (pos_part b + neg_part a)

-- A value in a signed integer of w + 1 bits, which wraps around.
unfoldable pub wrap_int : ℕ → ℤ → ℤ
wrap_int w (pos n) =
    let m = n % (2 * 2 ^ w) in if ltb m (2 ^ w) then pos m else negsuc (2 * 2 ^ w - 1 - m)
wrap_int w (negsuc n) =
    let m = n % (2 * 2 ^ w) in if ltb m (2 ^ w) then negsuc m else pos (2 * 2 ^ w - 1 - m)

small_mod : (n m : ℕ) → n < m → n % (2 * m) ≡ n
small_mod n m h = mod-eq_of_lt (omega (arith, h))

pub wrap_int-small : (w n : ℕ) → n < 2 ^ w → wrap_int w (pos n) ≡ pos n
unfolding wrap_int
wrap_int-small w n h = rw (small_mod n (2 ^ w) h) (ground (arith, h))
