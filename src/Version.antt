-- ===== src/Version.antt =====
-- `CompareVersions` of executor/panel_update.go, which decides whether a release is newer than the
-- panel, with its helpers. A comparison answers 1, 0 or -1.
use wp_panel_en_private.Base.{
  ℕ, ◌+◌, ◌^◌, ◌≡◌, refl, arith, Bool, true, false, not, ◌&&◌, ◌||◌, Option, none, some, List, [],
  ◌∷◌, ◌++◌, ltb, leb, ◌==◌, if◌then◌else◌, drop_while, all, get_elem?,
}
use wp_panel_en_private.Base.Text.{Text, codes, text_eq, has_prefix, split, is_digit, is_space}
use wp_panel_en_private.Base.Int.{ℤ, pos, negsuc, zleb, neg, magnitude, in_int}
pub mod Lawful
pub mod Parts
pub mod Order
mod Examples

-- The digits at the head of a text.
abbrev pub leading_digits : Text → Text
leading_digits [] = []
leading_digits (c ∷ s) = let rest = leading_digits s in if is_digit c then c ∷ rest else []

abbrev pub or_zero : (ℕ → ℤ) → Option ℕ → ℤ
or_zero sign none = pos 0
or_zero sign (some n) = sign n

abbrev pub signed_number : Text → ℤ
signed_number [] = pos 0
signed_number (c ∷ s) =
    if c == b'-'
    then or_zero neg (in_int (2 ^ 63 + 1) (magnitude (leading_digits s)))
    else if c == b'+'
    then or_zero pos (in_int (2 ^ 63) (magnitude (leading_digits s)))
    else or_zero pos (in_int (2 ^ 63) (magnitude (leading_digits (c ∷ s))))

-- v := 0; fmt.Sscanf(s, "%d", &v): v stays 0 where no number of 64 bits stands after the spaces.
unfoldable pub scan_number : Text → ℤ
unfolding is_space magnitude
scan_number s = signed_number (drop_while (λ c. is_space c && not (c == b'\n')) s)

-- The two tests, greater first, and what follows where neither holds.
abbrev pub by_order {ℓ} : {A : Type ℓ} → Bool → Bool → A → A → A → A
by_order greater less one minus rest = if greater then one else if less then minus else rest

abbrev pub zltb : ℤ → ℤ → Bool
zltb a b = not (zleb b a)

-- The order of strings.
abbrev pub text_ltb : Text → Text → Bool
text_ltb s [] = false
text_ltb [] (d ∷ t) = true
text_ltb (c ∷ s) (d ∷ t) = ltb c d || (c == d && text_ltb s t)

unfoldable pub is_numeric : Text → Bool
is_numeric s = all is_digit s

-- The round of the loop for one part of each: the kind of the part before, and what is gathered.
abbrev pub starts_part : Text → Option Bool → Bool → Bool
starts_part [] kind digit = false
starts_part (c ∷ current) none digit = true
starts_part (c ∷ current) (some true) digit = not digit
starts_part (c ∷ current) (some false) digit = digit

pub split_from : Text → Option Bool → Text → List Text
split_from current kind [] = current ∷ []
split_from current kind (c ∷ s) =
    let flush = starts_part current kind (is_digit c) in
    let rest = split_from (if flush then c ∷ [] else current ++ c ∷ []) (some (is_digit c)) s in
    if flush then current ∷ rest else rest

unfoldable pub split_alpha_num : Text → List Text
unfolding split_from
split_alpha_num [] = []
split_alpha_num (c ∷ s) = split_from [] none (c ∷ s)

unfoldable pub compare_part : Text → Text → ℤ → ℤ
unfolding is_numeric scan_number
compare_part a b rest =
    if is_numeric a && is_numeric b
    then by_order (zltb (scan_number b) (scan_number a)) (zltb (scan_number a) (scan_number b))
        (pos 1) (negsuc 0) rest
    else by_order (text_ltb b a) (text_ltb a b) (pos 1) (negsuc 0) rest

-- The common parts in turn, then the numbers of parts.
unfoldable pub compare_parts : List Text → List Text → ℤ
unfolding compare_part
compare_parts [] [] = pos 0
compare_parts (a ∷ more) [] = pos 1
compare_parts [] (b ∷ bs) = negsuc 0
compare_parts (a ∷ more) (b ∷ bs) = compare_part a b (compare_parts more bs)

unfoldable pub compare_pre_release : Text → Text → ℤ
unfolding compare_parts split_alpha_num
compare_pre_release a b = compare_parts (split_alpha_num a) (split_alpha_num b)

-- strings.TrimPrefix(s, "v")
abbrev pub trim_v : Text → Text
trim_v [] = []
trim_v (c ∷ s) = if c == b'v' then s else c ∷ s

-- strings.SplitN(s, "-", 2): what stands before the first dash, and what after it, empty without one.
abbrev pub split_dash : Text → Text × Text
split_dash [] = ([], [])
split_dash (c ∷ s) = let rest = split_dash s in if c == b'-' then ([], s) else (c ∷ rest.0, rest.1)

abbrev pub number_at : List Text → ℕ → ℤ
unfolding scan_number
number_at nums i = elim (get_elem? nums i) [ none ↦ pos 0 | some s ↦ scan_number s ]

-- The rounds of the loop over the three numbers.
abbrev pub compare_numbers : List ℕ → List Text → List Text → ℤ → ℤ
compare_numbers [] a b rest = rest
compare_numbers (i ∷ indices) a b rest =
    by_order (zltb (number_at b i) (number_at a i)) (zltb (number_at a i) (number_at b i)) (pos 1)
      (negsuc 0) (compare_numbers indices a b rest)

abbrev pub compare_pre : Text → Text → ℤ
unfolding compare_pre_release
compare_pre a b =
    if text_eq a [] && text_eq b []
    then pos 0
    else if text_eq a []
    then pos 1
    else if text_eq b []
    then negsuc 0
    else compare_pre_release a b

unfoldable pub compare_versions : Text → Text → ℤ
unfolding compare_pre
compare_versions a b =
    let ap = split_dash (trim_v a) in
    let bp = split_dash (trim_v b) in
    compare_numbers (0 ∷ 1 ∷ 2 ∷ []) (split b'.' ap.0) (split b'.' bp.0) (compare_pre ap.1 bp.1)
