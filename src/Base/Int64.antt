-- ===== src/Base/Int64.antt =====
-- Go's int64: an integer whose arithmetic wraps, with two's complement.
use hiero_sdk_go.Base.{
  ℕ, suc, ◌+◌, ◌-◌, ◌/◌, ◌%◌, ◌^◌, ◌≤◌, ◌<◌, ◌≡◌, sym, ap, ◌∙◌, arith, ltb, if◌then◌else◌,
}
use hiero_sdk_go.Base.Int.{ℤ, pos, negsuc, pos_part, neg_part, ◌+ℤ◌}

abbrev pub IsInt64 : ℤ → Type 0
IsInt64 z = (pos_part z < 2 ^ 63) × (neg_part z ≤ 2 ^ 63)

-- The value of a pattern of 64 bits.
abbrev pub of_bits : ℕ → ℤ
of_bits r = if ltb r (2 ^ 63) then pos r else negsuc (2 ^ 64 - 1 - r)

-- The 64 lowest bits of an integer.
abbrev pub bits : ℤ → ℕ
bits (pos n) = n % 2 ^ 64
bits (negsuc n) = 2 ^ 64 - 1 - n % 2 ^ 64

unfoldable pub wrap : ℤ → ℤ
wrap z = of_bits (bits z)

pub wrap-IsInt64 : (z : ℤ) → IsInt64 (wrap z)
unfolding wrap
wrap-IsInt64 z = ground arith

-- What fits is left alone.
pub wrap_self : (z : ℤ) → IsInt64 z → wrap z ≡ z
unfolding wrap
wrap_self z h = ground arith

infixl 65 ◌+₆₄◌
unfoldable pub ◌+₆₄◌ : ℤ → ℤ → ℤ
a +₆₄ b = wrap (a +ℤ b)

-- A sum that fits is the sum.
pub +₆₄_fits : (a b : ℤ) → IsInt64 (a +ℤ b) → a +₆₄ b ≡ a +ℤ b
unfolding ◌+₆₄◌
+₆₄_fits a b h = wrap_self (a +ℤ b) h

-- Congruence of integers modulo 2 ^ 64, by the 64 lowest bits.
pub bits-wrap : (z : ℤ) → bits (wrap z) ≡ bits z
unfolding wrap
bits-wrap z = ground arith

-- Division by two truncates towards zero.
unfoldable pub half : ℤ → ℤ
half (pos n) = pos (n / 2)
half (negsuc n) = if ltb 0 (suc n / 2) then negsuc (suc n / 2 - 1) else pos 0

pub half_parts :
    (z : ℤ) → (pos_part (half z) ≡ pos_part z / 2) × (neg_part (half z) ≡ neg_part z / 2)
unfolding half
half_parts (pos n) = omega arith
half_parts (negsuc n) = ground arith

unfoldable pub double : ℤ → ℤ
double z = z +₆₄ z

pub bits-+ℤ : (a b : ℤ) → bits (a +ℤ b) ≡ (bits a + bits b) % 2 ^ 64
unfolding ◌+ℤ◌
bits-+ℤ a b = ground arith

pub bits-+₆₄ : (a b : ℤ) → bits (a +₆₄ b) ≡ (bits a + bits b) % 2 ^ 64
unfolding ◌+₆₄◌
bits-+₆₄ a b = bits-wrap (a +ℤ b) ∙ bits-+ℤ a b

-- A wrapped sum is known by its bits.
of_sum : (a b : ℤ) → a +₆₄ b ≡ of_bits ((bits a + bits b) % 2 ^ 64)
unfolding ◌+₆₄◌ wrap
of_sum a b = ap of_bits (bits-+ℤ a b)

pub +₆₄_comm : (a b : ℤ) → a +₆₄ b ≡ b +₆₄ a
+₆₄_comm a b = rw (of_sum a b, of_sum b a) (ap of_bits (omega arith))

pub +₆₄_assoc : (a b c : ℤ) → a +₆₄ b +₆₄ c ≡ a +₆₄ (b +₆₄ c)
+₆₄_assoc a b c =
    of_sum (a +₆₄ b) c
    ∙ ap of_bits (omega (arith, bits-+₆₄ a b, bits-+₆₄ b c))
    ∙ sym (of_sum a (b +₆₄ c))
