-- ===== src/Shared/Int.antt =====
-- Go's `int`: an unbounded integer, `negsuc n` being -(n + 1), and its wrap-around at 64 bits.
use Prim.Native.Nat.{ℕ, suc, ◌+◌, ◌-◌, ◌≤◌, ◌%◌}
use mathlib.Core.Path.{◌≡◌, refl, ap, ◌∙◌}
use mathlib.Core.Bool.{Bool, not}
use native.Mathlib.Omega.{arith}
use zeus_client_golang.Shared.Tests.{leb, if◌then◌else◌}

pub data ℤ : Type 0 where
  pos : ℕ → ℤ
  negsuc : ℕ → ℤ

abbrev pub pos_part : ℤ → ℕ
pos_part (pos n) = n
pos_part (negsuc n) = 0

abbrev pub neg_part : ℤ → ℕ
neg_part (pos n) = 0
neg_part (negsuc n) = suc n

-- a - b, as an integer.
abbrev pub sub_ℕ : ℕ → ℕ → ℤ
sub_ℕ a b = if leb b a then pos (a - b) else negsuc (b - a - 1)

infixl 65 ◌+ℤ◌
infix 50 ◌≤ℤ◌ ◌≤?◌ ◌<?◌
unfoldable pub ◌+ℤ◌ : ℤ → ℤ → ℤ
a +ℤ b = sub_ℕ (pos_part a + pos_part b) (neg_part a + neg_part b)

abbrev pub ◌≤ℤ◌ : ℤ → ℤ → Type 0
a ≤ℤ b = pos_part a + neg_part b ≤ pos_part b + neg_part a

-- The tests `a <= b` and `a < b`.
abbrev pub ◌≤?◌ : ℤ → ℤ → Bool
a ≤? b = leb (pos_part a + neg_part b) (pos_part b + neg_part a)

abbrev pub ◌<?◌ : ℤ → ℤ → Bool
a <? b = not (b ≤? a)

-- max(a, 0)
unfoldable pub clamp_zero : ℤ → ℤ
clamp_zero a = if a <? pos 0 then pos 0 else a

-- 2 ^ 63
abbrev pub int64_limit : ℕ
int64_limit = 9223372036854775808

-- The value that 64 bits hold of an integer.
unfoldable pub int64 : ℤ → ℤ
int64 (pos n) =
    let r = n % 18446744073709551616 in
    if leb int64_limit r then negsuc (18446744073709551615 - r) else pos r
int64 (negsuc n) =
    let r = n % 18446744073709551616 in
    if leb int64_limit r then pos (18446744073709551615 - r) else negsuc r

pub int64_lem : (n : ℕ) → suc n ≤ int64_limit → int64 (pos n) ≡ pos n
unfolding int64
int64_lem n h = ground (arith, h)

int64_wraps : int64 (pos 9223372036854775808) ≡ negsuc 9223372036854775807
unfolding int64
int64_wraps = refl

-- a + b of two values of type `int`
unfoldable pub add_int : ℤ → ℤ → ℤ
unfolding ◌+ℤ◌ int64
add_int a b = int64 (a +ℤ b)

pub add_int_pos : (m n : ℕ) → suc (m + n) ≤ int64_limit → add_int (pos m) (pos n) ≡ pos (m + n)
unfolding add_int
add_int_pos m n h =
    let sum : pos m +ℤ pos n ≡ pos (m + n) = unfold ◌+ℤ◌ in ground arith in
    ap int64 sum ∙ int64_lem (m + n) h

pub +ℤ_parts :
    (a b : ℤ)
    → pos_part (a +ℤ b) + neg_part a + neg_part b ≡ neg_part (a +ℤ b) + pos_part a + pos_part b
unfolding ◌+ℤ◌
+ℤ_parts a b = ground arith
