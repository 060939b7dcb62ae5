-- ===== src/Cron/Fields.antt =====
-- What an accepted cron field says, part by part.
use wp_panel_en_private.Base.{
  ℕ, ◌≤◌, ◌≡◌, refl, sym, ◌∙◌, ap, ◌⊎◌, inl, inr, true, Option, none, some, List, [], ◌∷◌, ◌++◌,
  arith, All, Bool-cases, Option-cases, all,
}
use wp_panel_en_private.Base.Text.{
  Text, codes, text_eq, eq-text_eq, split, join, join-split, contains,
}
use wp_panel_en_private.Base.Int.{ℤ, pos, negsuc, atoi}
use wp_panel_en_private.Cron.{
  step_base, part_base, in_order, valid_range, valid_value, valid_base, valid_part,
  valid_cron_field,
}

-- A number of the field's range.
abbrev pub IsInRange : ℕ → ℕ → Text → Type 0
IsInRange min max t = (v : ℕ) × (atoi t ≡ some (pos v)) × (min ≤ v) × (v ≤ max)

-- Two numbers of the field's range in order, with a dash between them.
abbrev pub IsRange : ℕ → ℕ → Text → Type 0
IsRange min max t =
    (start : Text) × (end : Text) × (v : ℕ) × (w : ℕ) × (t ≡ start ++ b'-' ∷ end)
    × (atoi start ≡ some (pos v))
    × (atoi end ≡ some (pos w))
    × (min ≤ v)
    × (v ≤ w)
    × (w ≤ max)

-- A step from 1 to `max` behind a slash, or nothing.
abbrev pub IsStepped : ℕ → Text → Text → Type 0
IsStepped max part base =
    (part ≡ base)
    ⊎ ((step : Text) × (k : ℕ) × (part ≡ base ++ b'/' ∷ step)
        × (atoi step ≡ some (pos k))
        × (1 ≤ k)
        × (k ≤ max))

-- Every value, or one value, or a range, with or without a step.
abbrev pub IsGoodPart : ℕ → ℕ → Text → Type 0
IsGoodPart min max part =
    (base : Text) × IsStepped max part base
    × ((base ≡ codes "*") ⊎ (IsRange min max base ⊎ IsInRange min max base))

split_pair : (sep : ℕ) (s a b : Text) → split sep s ≡ a ∷ b ∷ [] → s ≡ a ++ sep ∷ b
split_pair sep s a b e = sym (join-split sep s) ∙ ap (join sep) e

value_good :
    (min max : ℕ) (t : Text) (z : Option ℤ)
    → atoi t ≡ z
    → valid_value min max z ≡ true
    → IsInRange min max t
value_good min max t none e h = cc
value_good min max t (some (pos v)) e h = (v, e, ground arith, ground arith)
value_good min max t (some (negsuc v)) e h = cc

ordered_good :
    (min max : ℕ) (t start end : Text) (y z : Option ℤ)
    → t ≡ start ++ b'-' ∷ end
    → atoi start ≡ y
    → atoi end ≡ z
    → in_order min max y z ≡ true
    → IsRange min max t
ordered_good min max t start end (some (pos v)) (some (pos w)) e ey ez h =
    (start, end, v, w, e, ey, ez, ground arith, ground arith, ground arith)
ordered_good min max t start end (some (pos v)) (some (negsuc w)) e ey ez h = absurd (ground arith)
ordered_good min max t start end y z e ey ez h = absurd (ground arith)

IsRange-good :
    (min max : ℕ) (t : Text) (parts : List Text)
    → split b'-' t ≡ parts
    → valid_range min max parts ≡ true
    → IsRange min max t
IsRange-good min max t (start ∷ end ∷ []) e h =
    ordered_good min max t start end (atoi start) (atoi end) (split_pair b'-' t start end e) refl
      refl h
IsRange-good min max t parts e h = absurd (ground arith)

base_good :
    (min max : ℕ) (base : Text)
    → valid_base min max base ≡ true
    → (base ≡ codes "*") ⊎ (IsRange min max base ⊎ IsInRange min max base)
unfolding valid_base
base_good min max base h = elim (Bool-cases (text_eq base (codes "*"))) [
  | inl star ↦ inl (eq-text_eq base (codes "*") star)
  | inr other ↦ elim (Bool-cases (contains base (codes "-"))) [
    | inl dash ↦ inr (inl (IsRange-good min max base (split b'-' base) refl (ground arith)))
    | inr plain ↦ inr (inr (value_good min max base (atoi base) refl (ground arith)))
  ]
]

step_checked :
    (max : ℕ) (part base step : Text) (z : Option ℤ) (b : Text)
    → part ≡ base ++ b'/' ∷ step
    → atoi step ≡ z
    → step_base max (base ∷ step ∷ []) ≡ some b
    → IsStepped max part b
step_checked max part base step none b e ez h = absurd (ground arith)
step_checked max part base step (some (pos k)) b e ez h =
    inr (step, k, ground arith, ez, ground arith, ground arith)
step_checked max part base step (some (negsuc k)) b e ez h = absurd (ground arith)

step_good :
    (max : ℕ) (part b : Text) (parts : List Text)
    → split b'/' part ≡ parts
    → step_base max parts ≡ some b
    → IsStepped max part b
step_good max part b (base ∷ step ∷ []) e h =
    step_checked max part base step (atoi step) b (split_pair b'/' part base step e) refl h
step_good max part b parts e h = absurd (ground arith)

part_good : (min max : ℕ) (part : Text) → valid_part min max part ≡ true → IsGoodPart min max part
unfolding valid_part
part_good min max part h = elim (Option-cases (part_base max part)) [
  | inl e ↦ absurd (ground arith)
  | inr (base, e) ↦ (base, stepped base e, base_good min max base (ground arith))
]
  where
    stepped : (base : Text) → part_base max part ≡ some base → IsStepped max part base
    stepped base e = elim (Bool-cases (contains part (codes "/"))) [
      | inl slash ↦ step_good max part base (split b'/' part) refl (ground arith)
      | inr plain ↦ inl (ground arith)
    ]

parts_good :
    (min max : ℕ) (parts : List Text)
    → all (valid_part min max) parts ≡ true
    → All (IsGoodPart min max) parts
parts_good min max [] h = tt
parts_good min max (part ∷ parts) h =
    (part_good min max part (ground arith), parts_good min max parts (ground arith))

-- Every part between the commas of an accepted field is a star, a number of the field's range or an
-- ascending range of such numbers, alone or with a step between 1 and the largest value.
pub valid_cron_field_sound :
    (field : Text) (min max : ℕ)
    → valid_cron_field field min max ≡ true
    → All (IsGoodPart min max) (split b',' field)
unfolding valid_cron_field
valid_cron_field_sound field min max h = parts_good min max (split b',' field) (ground arith)
