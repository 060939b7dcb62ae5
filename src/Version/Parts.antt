-- ===== src/Version/Parts.antt =====
-- The comparison of pre-releases (executor/panel_update.go) as a comparison of keys: on the parts that
-- `splitAlphaNum` makes, numbers are ordered by value, other texts by their code points, and a number
-- stands between the texts that start below the digits and those that start above.
use wp_panel_en_private.Base.{
  ℕ, ◌≡◌, refl, arith, Bool, true, false, not, ◌||◌, some, List, [], ◌∷◌, ◌++◌, ltb, if◌then◌else◌,
  Bool-cases, inl, inr, ◌∙◌, ap, all, all-append,
}
use wp_panel_en_private.Base.Text.{Text, is_digit}
use wp_panel_en_private.Base.Int.{ℤ, pos, negsuc}
use wp_panel_en_private.Version.{
  by_order, zltb, text_ltb, is_numeric, scan_number, compare_part, compare_parts, split_alpha_num,
  split_from, starts_part,
}
use wp_panel_en_private.Version.Lawful.{
  first, Lawful, ordered, zltb-Lawful, text_ltb-Lawful, by_elements, lexicographic, pulled_back,
}

-- Numbers stand between the texts that start below the digits and those that start above.
abbrev pub head_rank : Text → ℤ
head_rank [] = pos 1
head_rank (c ∷ s) = if ltb c b'0' then pos 0 else pos 2

abbrev pub rank : Text → ℤ
rank s = if is_numeric s then pos 1 else head_rank s

abbrev pub value : Text → ℤ
value s = if is_numeric s then scan_number s else pos 0

abbrev pub word : Text → Text
word s = if is_numeric s then [] else s

abbrev pub by_key : Text → Text → ℤ
by_key a b =
    first (ordered zltb (rank a) (rank b))
      (first (ordered zltb (value a) (value b)) (ordered text_ltb (word a) (word b)))

pub by_key-Lawful : Lawful Text by_key
by_key-Lawful =
    lexicographic (pulled_back rank zltb-Lawful)
      (lexicographic (pulled_back value zltb-Lawful) (pulled_back word text_ltb-Lawful))

pub by_order-first :
    (g l : Bool) (rest : ℤ)
    → by_order g l (pos 1) (negsuc 0) rest ≡ first (by_order g l (pos 1) (negsuc 0) (pos 0)) rest
by_order-first true l rest = refl
by_order-first false true rest = refl
by_order-first false false rest = refl

-- A part is a number, or starts with no digit.
abbrev pub is_part : Text → Bool
is_part [] = false
is_part (c ∷ s) = is_numeric (c ∷ s) || not (is_digit c)

compare_part-key :
    (a b : Text) (rest : ℤ)
    → is_part a ≡ true
    → is_part b ≡ true
    → compare_part a b rest ≡ first (by_key a b) rest
unfolding compare_part is_numeric
compare_part-key [] b rest h k = cc
compare_part-key (c ∷ a) [] rest h k = cc
compare_part-key (c ∷ a) (d ∷ b) rest h k = elim (Bool-cases (is_numeric (c ∷ a))) [
  | inl x ↦ elim (Bool-cases (is_numeric (d ∷ b))) [
    | inl y ↦ rw (x, y) (twice_first (scan_number (c ∷ a)) (scan_number (d ∷ b)) rest)
    | inr y ↦
        rw (x, y)
          (digit_first c d a b rest (ground (arith, numeric_head c a x)) (ground (arith, k, y)))
  ]
  | inr x ↦ elim (Bool-cases (is_numeric (d ∷ b))) [
    | inl y ↦
        rw (x, y)
          (first_digit c d a b rest (ground (arith, h, x)) (ground (arith, numeric_head d b y)))
    | inr y ↦ rw (x, y) (others_first c d a b rest (ground (arith, h, x)) (ground (arith, k, y)))
  ]
]
  where
    numeric_head : (c : ℕ) (a : Text) → is_numeric (c ∷ a) ≡ true → is_digit c ≡ true
    numeric_head c a x = ground arith

    twice_first :
        (a b : ℤ) (rest : ℤ)
        → by_order (zltb b a) (zltb a b) (pos 1) (negsuc 0) rest
          ≡ first (first (ordered zltb a b) (pos 0)) rest
    twice_first a b rest = ground arith

    digit_first :
        (c d : ℕ) (a b : Text) (rest : ℤ)
        → is_digit c ≡ true
        → is_digit d ≡ false
        → by_order (text_ltb (d ∷ b) (c ∷ a)) (text_ltb (c ∷ a) (d ∷ b)) (pos 1) (negsuc 0) rest
          ≡ first
              (first
                (ordered zltb (pos 1) (head_rank (d ∷ b)))
                (first (ordered zltb (scan_number (c ∷ a)) (pos 0)) (ordered text_ltb [] (d ∷ b))))
              rest
    digit_first c d a b rest x y = ground arith

    first_digit :
        (c d : ℕ) (a b : Text) (rest : ℤ)
        → is_digit c ≡ false
        → is_digit d ≡ true
        → by_order (text_ltb (d ∷ b) (c ∷ a)) (text_ltb (c ∷ a) (d ∷ b)) (pos 1) (negsuc 0) rest
          ≡ first
              (first
                (ordered zltb (head_rank (c ∷ a)) (pos 1))
                (first (ordered zltb (pos 0) (scan_number (d ∷ b))) (ordered text_ltb (c ∷ a) [])))
              rest
    first_digit c d a b rest x y = ground arith

    others_first :
        (c d : ℕ) (a b : Text) (rest : ℤ)
        → is_digit c ≡ false
        → is_digit d ≡ false
        → by_order (text_ltb (d ∷ b) (c ∷ a)) (text_ltb (c ∷ a) (d ∷ b)) (pos 1) (negsuc 0) rest
          ≡ first
              (first
                (ordered zltb (head_rank (c ∷ a)) (head_rank (d ∷ b)))
                (ordered text_ltb (c ∷ a) (d ∷ b)))
              rest
    others_first c d a b rest x y = ground arith

pub compare_parts-key :
    (a b : List Text)
    → all is_part a ≡ true
    → all is_part b ≡ true
    → compare_parts a b ≡ by_elements by_key a b
unfolding compare_parts
compare_parts-key [] [] h k = refl
compare_parts-key [] (y ∷ b) h k = refl
compare_parts-key (x ∷ a) [] h k = refl
compare_parts-key (x ∷ a) (y ∷ b) h k =
    compare_part-key x y (compare_parts a b) (ground arith) (ground arith)
    ∙ ap (first (by_key x y)) (compare_parts-key a b (ground arith) (ground arith))

-- What is gathered of a part of a kind, digits or others.
abbrev is_open : Bool → Text → Bool
is_open digit [] = false
is_open true (c ∷ current) = all is_digit (c ∷ current)
is_open false (c ∷ current) = not (is_digit c)

open-part : (digit : Bool) (current : Text) → is_open digit current ≡ true → is_part current ≡ true
unfolding is_numeric
open-part digit [] h = cc
open-part true (c ∷ current) h = ground arith
open-part false (c ∷ current) h = ground arith

open-more :
    (digit : Bool) (current : Text) (c : ℕ)
    → is_open digit current ≡ true
    → starts_part current (some digit) (is_digit c) ≡ false
    → is_open (is_digit c) (current ++ c ∷ []) ≡ true
open-more digit [] c h k = cc
open-more true (x ∷ current) c h k =
    let d : is_digit c ≡ true = ground arith in
    rw d (ground (arith, d, all-append is_digit current (c ∷ [])))
open-more false (x ∷ current) c h k = let d : is_digit c ≡ false = k in rw d h

open-one : (c : ℕ) → is_open (is_digit c) (c ∷ []) ≡ true
open-one c = elim (Bool-cases (is_digit c)) [
  | inl e ↦ rw e (ground (arith, e))
  | inr e ↦ rw e (ground (arith, e))
]

split_from-parts :
    (current : Text) (digit : Bool) (s : Text)
    → is_open digit current ≡ true
    → all is_part (split_from current (some digit) s) ≡ true
unfolding split_from
split_from-parts current digit [] h = rw (open-part digit current h) refl
split_from-parts current digit (c ∷ s) h =
    elim (Bool-cases (starts_part current (some digit) (is_digit c))) [
      | inl e ↦ rw e (
          ground (
            arith,
            open-part digit current h,
            split_from-parts (c ∷ []) (is_digit c) s (open-one c),
          ))
      | inr e ↦
          rw e (split_from-parts (current ++ c ∷ []) (is_digit c) s (open-more digit current c h e))
    ]

pub split_alpha_num-parts : (s : Text) → all is_part (split_alpha_num s) ≡ true
unfolding split_alpha_num split_from
split_alpha_num-parts [] = refl
split_alpha_num-parts (c ∷ s) = split_from-parts (c ∷ []) (is_digit c) s (open-one c)
