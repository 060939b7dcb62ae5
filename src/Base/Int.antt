-- ===== src/Base/Int.antt =====
-- Signed integers, and `strconv.Atoi` on an `int` of 64 bits.
use Prim.Native.Nat.{ℕ, ◌+◌, ◌-◌, ◌*◌, ◌^◌}
use mathlib.Core.Bool.{Bool, true, false}
use mathlib.Core.Option.{Option, none, some}
use mathlib.Core.List.{[], ◌∷◌}
use wp_panel_en_private.Base.Tests.{ltb, leb, ◌==◌, if◌then◌else◌}
use wp_panel_en_private.Base.Text.{Text, is_digit}

-- `negsuc n` is -(n + 1).
pub data ℤ : Type 0 where
  pos : ℕ → ℤ
  negsuc : ℕ → ℤ

abbrev pub zleb : ℤ → ℤ → Bool
zleb (pos a) (pos b) = leb a b
zleb (pos a) (negsuc b) = false
zleb (negsuc a) (pos b) = true
zleb (negsuc a) (negsuc b) = leb b a

abbrev pub neg : ℕ → ℤ
neg n = if n == 0 then pos 0 else negsuc (n - 1)

-- The digits of a number, most significant first; none at a code point that is no digit.
unfoldable pub digits_value : ℕ → Text → Option ℕ
digits_value n [] = some n
digits_value n (c ∷ s) =
    let rest = digits_value (n * 10 + (c - b'0')) s in if is_digit c then rest else none

-- At least one digit.
unfoldable pub magnitude : Text → Option ℕ
unfolding digits_value
magnitude [] = none
magnitude (c ∷ s) = digits_value 0 (c ∷ s)

abbrev pub in_int : ℕ → Option ℕ → Option ℕ
in_int limit none = none
in_int limit (some n) = if ltb n limit then some n else none

-- strconv.Atoi(s); `none` is an error, also that of a value out of range.
unfoldable pub atoi : Text → Option ℤ
unfolding magnitude
atoi [] = none
atoi (c ∷ s) =
    if c == b'-'
    then (elim (in_int (2 ^ 63 + 1) (magnitude s)) [ none ↦ none | some n ↦ some (neg n) ])
    else if c == b'+'
    then (elim (in_int (2 ^ 63) (magnitude s)) [ none ↦ none | some n ↦ some (pos n) ])
    else (elim (in_int (2 ^ 63) (magnitude (c ∷ s))) [ none ↦ none | some n ↦ some (pos n) ])
