-- ===== src/Prelude/Int.antt =====
-- Go's `int` of 64 bits: signed integers over the native numbers, under the library's names (its ℤ
-- stands on the unary ℕ), and the wrap-around of the machine's arithmetic.
use sadbox.Prelude.{
  ℕ, suc, ◌+◌, ◌-◌, ◌*◌, ◌/◌, ◌%◌, ◌^◌, ◌≤◌, ◌<◌, ◌≡◌, Bool, arith, ltb, leb, ◌==◌, if◌then◌else◌,
}

-- `negsuc n` is -(n + 1).
pub data ℤ : Type 0 where
  pos : ℕ → ℤ
  negsuc : ℕ → ℤ

abbrev pub pos_part : ℤ → ℕ
pos_part (pos n) = n
pos_part (negsuc n) = 0

abbrev pub neg_part : ℤ → ℕ
neg_part (pos n) = 0
neg_part (negsuc n) = suc n

-- a - b, as an integer.
abbrev pub sub_ℕ : ℕ → ℕ → ℤ
sub_ℕ a b = if leb b a then pos (a - b) else negsuc (b - a - 1)

abbrev pub neg : ℤ → ℤ
neg a = sub_ℕ (neg_part a) (pos_part a)

-- The comparisons.
abbrev pub lt_int : ℤ → ℤ → Bool
lt_int a b = ltb (pos_part a + neg_part b) (pos_part b + neg_part a)

abbrev pub le_int : ℤ → ℤ → Bool
le_int a b = leb (pos_part a + neg_part b) (pos_part b + neg_part a)

abbrev pub eq_int : ℤ → ℤ → Bool
eq_int a b = pos_part a + neg_part b == pos_part b + neg_part a

-- The modulus, and the integer that the low 64 bits of `a` stand for.
abbrev pub int_mod : ℕ
int_mod = 2 ^ 64

abbrev pub int_half : ℕ
int_half = 2 ^ 63

pub low_word : ℤ → ℕ
low_word (pos n) = n % int_mod
low_word (negsuc n) = int_mod - 1 - n % int_mod

pub of_word : ℕ → ℤ
of_word w = if ltb w int_half then pos w else negsuc (int_mod - 1 - w)

pub wrap : ℤ → ℤ
unfolding low_word of_word
wrap a = of_word (low_word a)

-- The values of an `int`.
abbrev pub FitsInt : ℤ → Type 0
FitsInt a = (pos_part a < int_half) × (neg_part a ≤ int_half)

pub wrap_fits : (a : ℤ) → FitsInt (wrap a)
unfolding wrap
wrap_fits (pos n) = ground arith
wrap_fits (negsuc n) = ground arith

pub wrap_id : (a : ℤ) → FitsInt a → wrap a ≡ a
unfolding wrap
wrap_id (pos n) h = ground arith
wrap_id (negsuc n) h = ground arith

-- The operators of `int`: each result wraps.
unfoldable pub add_int : ℤ → ℤ → ℤ
add_int a b = wrap (sub_ℕ (pos_part a + pos_part b) (neg_part a + neg_part b))

unfoldable pub sub_int : ℤ → ℤ → ℤ
sub_int a b = wrap (sub_ℕ (pos_part a + neg_part b) (neg_part a + pos_part b))

unfoldable pub mul_int : ℤ → ℤ → ℤ
mul_int a b = wrap (
    sub_ℕ (pos_part a * pos_part b + neg_part a * neg_part b)
      (pos_part a * neg_part b + neg_part a * pos_part b))

-- Division and remainder truncate towards zero; the divisor is not zero.
abbrev magnitude : ℤ → ℕ
magnitude a = pos_part a + neg_part a

unfoldable pub div_int : ℤ → ℤ → ℤ
div_int a b =
    let q = magnitude a / magnitude b in
    wrap (
      if lt_int a (pos 0)
      then (if lt_int b (pos 0) then pos q else sub_ℕ 0 q)
      else if lt_int b (pos 0)
      then sub_ℕ 0 q
      else pos q)

unfoldable pub rem_int : ℤ → ℤ → ℤ
rem_int a b = let r = magnitude a % magnitude b in if lt_int a (pos 0) then sub_ℕ 0 r else pos r
