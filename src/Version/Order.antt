-- ===== src/Version/Order.antt =====
-- That the comparison of versions (executor/panel_update.go) orders them.
use wp_panel_en_private.Base.{ℕ, ◌≡◌, ◌≢◌, refl, List, [], ◌∷◌, inl, inr, ◌∙◌, ap, sym}
use wp_panel_en_private.Base.Text.{Text, split}
use wp_panel_en_private.Base.Int.{ℤ, pos}
use wp_panel_en_private.Version.{
  zltb, compare_pre_release, split_alpha_num, split_dash, trim_v, number_at, compare_numbers,
  compare_pre, compare_versions,
}
use wp_panel_en_private.Version.Lawful.{
  flip, first, Lawful, ordered, zltb-Lawful, by_elements, by_elements-Lawful, lexicographic,
  pulled_back, same_right,
}
use wp_panel_en_private.Version.Parts.{
  by_key, by_key-Lawful, by_order-first, compare_parts-key, split_alpha_num-parts,
}

-- A version without a pre-release comes after those with one.
abbrev no_pre : Text → ℤ
no_pre [] = pos 1
no_pre (c ∷ s) = pos 0

abbrev by_pre : Text → Text → ℤ
by_pre a b =
    first (ordered zltb (no_pre a) (no_pre b))
      (by_elements by_key (split_alpha_num a) (split_alpha_num b))

compare_pre-key : (a b : Text) → compare_pre a b ≡ by_pre a b
unfolding compare_pre compare_pre_release split_alpha_num
compare_pre-key [] [] = refl
compare_pre-key [] (d ∷ b) = refl
compare_pre-key (c ∷ a) [] = refl
compare_pre-key (c ∷ a) (d ∷ b) =
    compare_parts-key (split_alpha_num (c ∷ a)) (split_alpha_num (d ∷ b))
      (split_alpha_num-parts (c ∷ a)) (split_alpha_num-parts (d ∷ b))

-- The number at a place of the version, and its pre-release.
abbrev number : ℕ → Text → ℤ
number i a = number_at (split b'.' (split_dash (trim_v a)).0) i

abbrev pre : Text → Text
pre a = (split_dash (trim_v a)).1

abbrev by_numbers : List ℕ → Text → Text → ℤ
by_numbers [] a b = by_pre (pre a) (pre b)
by_numbers (i ∷ indices) a b =
    first (ordered zltb (number i a) (number i b)) (by_numbers indices a b)

by_numbers-Lawful : (indices : List ℕ) → Lawful Text (by_numbers indices)
by_numbers-Lawful [] =
    lexicographic (pulled_back (λ a. no_pre (pre a)) zltb-Lawful)
      (pulled_back (λ a. split_alpha_num (pre a)) (by_elements-Lawful by_key-Lawful))
by_numbers-Lawful (i ∷ indices) =
    lexicographic (pulled_back (number i) zltb-Lawful) (by_numbers-Lawful indices)

compare_numbers-key :
    (indices : List ℕ) (a b : Text)
    → compare_numbers indices
        (split b'.' (split_dash (trim_v a)).0)
        (split b'.' (split_dash (trim_v b)).0)
        (compare_pre (pre a) (pre b))
      ≡ by_numbers indices a b
compare_numbers-key [] a b = compare_pre-key (pre a) (pre b)
compare_numbers-key (i ∷ indices) a b =
    by_order-first (zltb (number i b) (number i a)) (zltb (number i a) (number i b)) (
      compare_numbers indices (split b'.' (split_dash (trim_v a)).0)
        (split b'.' (split_dash (trim_v b)).0) (compare_pre (pre a) (pre b)))
    ∙ ap (first (ordered zltb (number i a) (number i b))) (compare_numbers-key indices a b)

compare_versions-key : (a b : Text) → compare_versions a b ≡ by_numbers (0 ∷ 1 ∷ 2 ∷ []) a b
unfolding compare_versions
compare_versions-key a b = compare_numbers-key (0 ∷ 1 ∷ 2 ∷ []) a b

law : Lawful Text (by_numbers (0 ∷ 1 ∷ 2 ∷ []))
law = by_numbers-Lawful (0 ∷ 1 ∷ 2 ∷ [])

-- The comparison of two versions, of any texts, is the opposite when they change places.
pub flip-compare_versions : (a b : Text) → flip (compare_versions a b) ≡ compare_versions b a
flip-compare_versions a b = rw (compare_versions-key a b, compare_versions-key b a) (law.flips a b)

at_most_trans {ℓ} :
    {A : Type ℓ} {C : A → A → ℤ} (l : Lawful A C) (a b c : A)
    → C a b ≢ pos 1
    → C b c ≢ pos 1
    → C a c ≢ pos 1
at_most_trans l a b c h k = elim (l.answer a b) [
  | inl e ↦ rw (l.same a b c e) k
  | inr (inl e) ↦ absurd (h e)
  | inr (inr e) ↦ elim (l.answer b c) [
    | inl f ↦ rw (sym (same_right l a b c f)) h
    | inr (inl f) ↦ absurd (k f)
    | inr (inr f) ↦ rw (l.below a b c e f) (λ x. cc)
  ]
]

-- Versions, of any texts: where the first is not newer than the second, and the second not newer than
-- the third, the first is not newer than the third.
pub compare_versions_trans :
    (a b c : Text)
    → compare_versions a b ≢ pos 1
    → compare_versions b c ≢ pos 1
    → compare_versions a c ≢ pos 1
compare_versions_trans a b c h k = rw (compare_versions-key a c) (
    at_most_trans law a b c (rw (compare_versions-key a b) at h)
      (rw (compare_versions-key b c) at k))
