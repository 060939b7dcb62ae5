-- ===== src/Restore/Stripped.antt =====
-- The loops of normalizeSQLPrefix (executor/backup.go) end with no comment left.
use wp_panel_en_private.Base.{
  ℕ, zero, suc, ◌+◌, ◌<◌, ◌≡◌, refl, arith, inl, inr, true, false, Option, none, some, [], ◌∷◌,
  ◌++◌, drop, length, length-append, if◌then◌else◌, if-By, Bool-cases,
}
use wp_panel_en_private.Base.Text.{Text, has_prefix, contains}
use wp_panel_en_private.Restore.{cut, strip_comments}

has_prefix-longer : (s t p : Text) → has_prefix s p ≡ true → has_prefix (s ++ t) p ≡ true
has_prefix-longer s t [] h = refl
has_prefix-longer [] t (d ∷ p) h = cc
has_prefix-longer (c ∷ s) t (d ∷ p) h = ground (arith, has_prefix-longer s t p)

length-drop_prefix :
    (s p : Text) → has_prefix s p ≡ true → length p + length (drop (length p) s) ≡ length s
length-drop_prefix s [] h = omega arith
length-drop_prefix [] (d ∷ p) h = cc
length-drop_prefix (c ∷ s) (d ∷ p) h = ground (arith, length-drop_prefix s p)

-- What `cut` finds: the parts around the pattern, the first of which does not hold it.
record IsCut (p s before after : Text) : Type 0 where
  measure : length before + length p + length after ≡ length s
  starts : (t : Text) → has_prefix before t ≡ true → has_prefix s t ≡ true
  first : contains before p ≡ false

CutIs : Text → Text → Option (Text × Text) → Type 0
CutIs p s none = contains s p ≡ false
CutIs p s (some (before, after)) = IsCut p s before after

IsCut-here :
    (d : ℕ) (p s : Text)
    → has_prefix s (d ∷ p) ≡ true
    → IsCut (d ∷ p) s [] (drop (length (d ∷ p)) s)
IsCut-here d p s h = record {
  measure = omega (arith, length-drop_prefix s (d ∷ p) h);
  starts = nothing;
  first = refl;
}
  where
    nothing : (t : Text) → has_prefix [] t ≡ true → has_prefix s t ≡ true
    nothing [] e = refl
    nothing (c ∷ t) e = cc

IsCut-later :
    (c d : ℕ) (p s before after : Text)
    → has_prefix (c ∷ s) (d ∷ p) ≡ false
    → IsCut (d ∷ p) s before after
    → IsCut (d ∷ p) (c ∷ s) (c ∷ before) after
IsCut-later c d p s before after other h = record {
  measure = omega (arith, h.measure);
  starts = starts_later;
  first = elim (Bool-cases (has_prefix (c ∷ before) (d ∷ p))) [
    | inl e ↦ ground (arith, starts_later (d ∷ p) e)
    | inr e ↦ ground (arith, h.first)
  ];
}
  where
    starts_later : (t : Text) → has_prefix (c ∷ before) t ≡ true → has_prefix (c ∷ s) t ≡ true
    starts_later [] e = refl
    starts_later (a ∷ t) e = ground (arith, h.starts t)

cut-CutIs : (d : ℕ) (p s : Text) → CutIs (d ∷ p) s (cut (d ∷ p) s)
unfolding CutIs
cut-CutIs d p [] = refl
cut-CutIs d p (c ∷ s) = go (cut (d ∷ p) s) (cut-CutIs d p s)
  where
    go :
        (rest : Option (Text × Text))
        → CutIs (d ∷ p) s rest
        → CutIs (d ∷ p) (c ∷ s) (
            if has_prefix (c ∷ s) (d ∷ p)
            then some ([], drop (length (d ∷ p)) (c ∷ s))
            else (elim rest [ none ↦ none | some (before, after) ↦ some (c ∷ before, after) ]))
    go none h =
        if-By (CutIs (d ∷ p) (c ∷ s)) (has_prefix (c ∷ s) (d ∷ p)) (λ e. IsCut-here d p (c ∷ s) e)
          (λ e. ground (arith, h))
    go (some (before, after)) h =
        if-By (CutIs (d ∷ p) (c ∷ s)) (has_prefix (c ∷ s) (d ∷ p)) (λ e. IsCut-here d p (c ∷ s) e)
          (λ e. IsCut-later c d p s before after e h)

-- One round of the loop, where `loop` is what the next rounds do with a shorter text.
module _ (d e : ℕ) (p q s : Text) (loop : Text → Text)
    (rec : (t : Text) → length t < length s → contains (loop t) (d ∷ p) ≡ false) where
  after_close :
      (before rest : Text)
      → IsCut (d ∷ p) s before rest
      → (closing : Option (Text × Text)) → CutIs (e ∷ q) rest closing
      → contains
          (elim closing [ none ↦ before | some (comment, after) ↦ loop (before ++ b' ' ∷ after) ])
          (d ∷ p)
        ≡ false
  unfolding CutIs
  after_close before rest h none closed = h.first
  after_close before rest h (some (comment, after)) closed =
      rec (before ++ b' ' ∷ after)
        (omega (arith, h.measure, closed.measure, length-append before (b' ' ∷ after)))

  after_open :
      (found : Option (Text × Text))
      → CutIs (d ∷ p) s found
      → contains
          (elim found [
            | none ↦ s
            | some (before, rest) ↦ elim (cut (e ∷ q) rest) [
              | none ↦ before
              | some (comment, after) ↦ loop (before ++ b' ' ∷ after)
            ]
          ])
          (d ∷ p)
        ≡ false
  unfolding CutIs
  after_open none h = h
  after_open (some (before, rest)) h =
      after_close before rest h (cut (e ∷ q) rest) (cut-CutIs e q rest)

-- The loop that takes comments out, with marks that are not empty, comes to its end within one round
-- more than the text has code points, and then no opening mark is left.
pub strip_comments_complete :
    (d e : ℕ) (p q : Text) (fuel : ℕ) (s : Text)
    → length s < fuel
    → contains (strip_comments (d ∷ p) (e ∷ q) fuel s) (d ∷ p) ≡ false
unfolding strip_comments
strip_comments_complete d e p q zero s enough = ground arith
strip_comments_complete d e p q (suc fuel) s enough =
    after_open d e p q s (strip_comments (d ∷ p) (e ∷ q) fuel)
      (λ t shorter. strip_comments_complete d e p q fuel t (omega arith)) (cut (d ∷ p) s)
      (cut-CutIs d p s)
