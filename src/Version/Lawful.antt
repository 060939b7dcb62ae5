-- ===== src/Version/Lawful.antt =====
-- Comparisons that answer 1, 0 or -1, and the laws that make one an order.
use wp_panel_en_private.Base.{
  zero, suc, ◌≡◌, refl, arith, ◌⊎◌, Bool, true, false, ◌&&◌, List, [], ◌∷◌, inl, inr, ◌∙◌, ap, sym,
}
use wp_panel_en_private.Base.Text.{Text}
use wp_panel_en_private.Base.Int.{ℤ, pos, negsuc}
use wp_panel_en_private.Version.{by_order, zltb, text_ltb}

-- -z
abbrev pub flip : ℤ → ℤ
flip (pos zero) = pos 0
flip (pos (suc n)) = negsuc n
flip (negsuc n) = pos (suc n)

-- The first answer that is not 0.
abbrev pub first : ℤ → ℤ → ℤ
first (pos zero) rest = rest
first (pos (suc n)) rest = pos (suc n)
first (negsuc n) rest = negsuc n

abbrev pub Answer : ℤ → Type 0
Answer z = (z ≡ pos 0) ⊎ ((z ≡ pos 1) ⊎ (z ≡ negsuc 0))

pub record Lawful {ℓ} (A : Type ℓ) (compare : A → A → ℤ) : Type ℓ where
  pub answer : (a b : A) → Answer (compare a b)
  pub flips : (a b : A) → flip (compare a b) ≡ compare b a
  pub same : (a b c : A) → compare a b ≡ pos 0 → compare a c ≡ compare b c
  pub below : (a b c : A) → compare a b ≡ negsuc 0 → compare b c ≡ negsuc 0 → compare a c ≡ negsuc 0

pos-distinct : {X : Type 0} → pos 1 ≡ pos 0 → X
pos-distinct h = absurd (ground (arith, h))

module _ {ℓ} {A : Type ℓ} {C : A → A → ℤ} (l : Lawful A C) where
  pub same_right : (a b c : A) → C b c ≡ pos 0 → C a b ≡ C a c
  same_right a b c h = sym (l.flips b a) ∙ (ap flip (l.same b c a h) ∙ l.flips c a)

  opposite : (a b : A) (z : ℤ) → C a b ≡ z → C b a ≡ flip z
  opposite a b z e = sym (l.flips a b) ∙ ap flip e

  -- The laws of a first answer and a second, as far as the second has them.
  pub first-answer : (a b : A) (x : ℤ) → Answer x → Answer (first (C a b) x)
  first-answer a b x h = elim (l.answer a b) [
    | inl e ↦ rw e h
    | inr (inl e) ↦ rw e (inr (inl refl))
    | inr (inr e) ↦ rw e (inr (inr refl))
  ]

  pub first-flips : (a b : A) (x y : ℤ) → flip x ≡ y → flip (first (C a b) x) ≡ first (C b a) y
  first-flips a b x y h = elim (l.answer a b) [
    | inl e ↦ rw (e, opposite a b (pos 0) e) h
    | inr (inl e) ↦ rw (e, opposite a b (pos 1) e) refl
    | inr (inr e) ↦ rw (e, opposite a b (negsuc 0) e) refl
  ]

  pub first-same :
      (a b c : A) (x y z : ℤ)
      → (x ≡ pos 0 → y ≡ z)
      → first (C a b) x ≡ pos 0
      → first (C a c) y ≡ first (C b c) z
  first-same a b c x y z i h = elim (l.answer a b) [
    | inl e ↦ rw (l.same a b c e, i (rw e at h)) refl
    | inr (inl e) ↦ pos-distinct (rw e at h)
    | inr (inr e) ↦ absurd (cc (rw e at h))
  ]

  pub first-below :
      (a b c : A) (x y z : ℤ)
      → (x ≡ negsuc 0 → y ≡ negsuc 0 → z ≡ negsuc 0)
      → first (C a b) x ≡ negsuc 0
      → first (C b c) y ≡ negsuc 0
      → first (C a c) z ≡ negsuc 0
  first-below a b c x y z i h k = elim (l.answer a b) [
    | inl e ↦ elim (l.answer b c) [
      | inl f ↦ rw (l.same a b c e ∙ f) (i (rw e at h) (rw f at k))
      | inr (inl f) ↦ absurd (cc (rw f at k))
      | inr (inr f) ↦ rw (l.same a b c e ∙ f) refl
    ]
    | inr (inl e) ↦ absurd (cc (rw e at h))
    | inr (inr e) ↦ elim (l.answer b c) [
      | inl f ↦ rw (sym (same_right a b c f) ∙ e) refl
      | inr (inl f) ↦ absurd (cc (rw f at k))
      | inr (inr f) ↦ rw (l.below a b c e f) refl
    ]
  ]

  pub lexicographic : {D : A → A → ℤ} → Lawful A D → Lawful A (λ a b. first (C a b) (D a b))
  lexicographic {D} m = record {
    answer = λ a b. first-answer a b (D a b) (m.answer a b);
    flips = λ a b. first-flips a b (D a b) (D b a) (m.flips a b);
    same = λ a b c. first-same a b c (D a b) (D a c) (D b c) (m.same a b c);
    below = λ a b c. first-below a b c (D a b) (D b c) (D a c) (m.below a b c);
  }

pub pulled_back {ℓ κ} :
    {A : Type ℓ} {B : Type κ} {C : B → B → ℤ} (f : A → B)
    → Lawful B C
    → Lawful A (λ a b. C (f a) (f b))
pulled_back f l = record {
  answer = λ a b. l.answer (f a) (f b);
  flips = λ a b. l.flips (f a) (f b);
  same = λ a b c. l.same (f a) (f b) (f c);
  below = λ a b c. l.below (f a) (f b) (f c);
}

-- What makes two tests, "greater" being "less" the other way round, a lawful comparison.
module _ {ℓ} {A : Type ℓ} (less : A → A → Bool) where
  abbrev pub ordered : A → A → ℤ
  ordered a b = by_order (less b a) (less a b) (pos 1) (negsuc 0) (pos 0)

  pub ordered-Lawful :
      ((a b : A) → (less b a && less a b) ≡ false)
      → ((a b c : A)
          → less b a ≡ false
          → less a b ≡ false
          → (less a c ≡ less b c) × (less c a ≡ less c b))
      → ((a b c : A) → less a b ≡ true → less b c ≡ true → less a c ≡ true)
      → Lawful A ordered
  ordered-Lawful exclusive equal trans = record {
    answer = λ a b. ground arith;
    flips = λ a b. ground (arith, exclusive a b);
    same = λ a b c h. ground (arith, exclusive a b, equal a b c);
    below = λ a b c h k. ground (arith, exclusive a b, exclusive b c, exclusive a c, trans a b c);
  }

zltb-exclusive : (a b : ℤ) → (zltb b a && zltb a b) ≡ false
zltb-exclusive (pos a) (pos b) = ground arith
zltb-exclusive (pos a) (negsuc b) = refl
zltb-exclusive (negsuc a) (pos b) = refl
zltb-exclusive (negsuc a) (negsuc b) = ground arith

zltb-equal : (a b : ℤ) → zltb b a ≡ false → zltb a b ≡ false → a ≡ b
zltb-equal (pos a) (pos b) h k = let e : a ≡ b = ground arith in ap pos e
zltb-equal (pos a) (negsuc b) h k = cc
zltb-equal (negsuc a) (pos b) h k = cc
zltb-equal (negsuc a) (negsuc b) h k = let e : a ≡ b = ground arith in ap negsuc e

zltb_trans : (a b c : ℤ) → zltb a b ≡ true → zltb b c ≡ true → zltb a c ≡ true
zltb_trans (pos a) (pos b) (pos c) h k = ground arith
zltb_trans (pos a) (pos b) (negsuc c) h k = cc
zltb_trans (pos a) (negsuc b) c h k = cc
zltb_trans (negsuc a) (pos b) (pos c) h k = refl
zltb_trans (negsuc a) (pos b) (negsuc c) h k = cc
zltb_trans (negsuc a) (negsuc b) (pos c) h k = refl
zltb_trans (negsuc a) (negsuc b) (negsuc c) h k = ground arith

text_ltb-exclusive : (a b : Text) → (text_ltb b a && text_ltb a b) ≡ false
text_ltb-exclusive [] [] = refl
text_ltb-exclusive [] (d ∷ b) = refl
text_ltb-exclusive (c ∷ a) [] = refl
text_ltb-exclusive (c ∷ a) (d ∷ b) = ground (arith, text_ltb-exclusive a b)

text_ltb-equal : (a b : Text) → text_ltb b a ≡ false → text_ltb a b ≡ false → a ≡ b
text_ltb-equal [] [] h k = refl
text_ltb-equal [] (d ∷ b) h k = cc
text_ltb-equal (c ∷ a) [] h k = cc
text_ltb-equal (c ∷ a) (d ∷ b) h k = ground (arith, text_ltb-equal a b)

text_ltb_trans : (a b c : Text) → text_ltb a b ≡ true → text_ltb b c ≡ true → text_ltb a c ≡ true
text_ltb_trans a [] c h k = cc
text_ltb_trans a (d ∷ b) [] h k = cc
text_ltb_trans [] (d ∷ b) (e ∷ c) h k = refl
text_ltb_trans (x ∷ a) (d ∷ b) (e ∷ c) h k = ground (arith, text_ltb_trans a b c)

pub zltb-Lawful : Lawful ℤ (ordered zltb)
zltb-Lawful =
    ordered-Lawful zltb zltb-exclusive
      (λ a b c h k. let e = zltb-equal a b h k in (ap (λ x. zltb x c) e, ap (zltb c) e)) zltb_trans

pub text_ltb-Lawful : Lawful Text (ordered text_ltb)
text_ltb-Lawful =
    ordered-Lawful text_ltb text_ltb-exclusive
      (λ a b c h k. let e = text_ltb-equal a b h k in (ap (λ x. text_ltb x c) e, ap (text_ltb c) e))
      text_ltb_trans

-- Lists by their elements, a list before what continues it.
abbrev pub by_elements {ℓ} : {A : Type ℓ} → (A → A → ℤ) → List A → List A → ℤ
by_elements C [] [] = pos 0
by_elements C (a ∷ more) [] = pos 1
by_elements C [] (b ∷ bs) = negsuc 0
by_elements C (a ∷ more) (b ∷ bs) = first (C a b) (by_elements C more bs)

module _ {ℓ} {A : Type ℓ} {C : A → A → ℤ} (l : Lawful A C) where
  elements-answer : (a b : List A) → Answer (by_elements C a b)
  elements-answer [] [] = inl refl
  elements-answer [] (b ∷ bs) = inr (inr refl)
  elements-answer (a ∷ more) [] = inr (inl refl)
  elements-answer (a ∷ more) (b ∷ bs) =
      first-answer l a b (by_elements C more bs) (elements-answer more bs)

  elements-flips : (a b : List A) → flip (by_elements C a b) ≡ by_elements C b a
  elements-flips [] [] = refl
  elements-flips [] (b ∷ bs) = refl
  elements-flips (a ∷ more) [] = refl
  elements-flips (a ∷ more) (b ∷ bs) =
      first-flips l a b (by_elements C more bs) (by_elements C bs more) (elements-flips more bs)

  elements-same :
      (a b c : List A) → by_elements C a b ≡ pos 0 → by_elements C a c ≡ by_elements C b c
  elements-same [] [] c h = refl
  elements-same [] (b ∷ bs) c h = absurd (cc h)
  elements-same (a ∷ more) [] c h = pos-distinct h
  elements-same (a ∷ more) (b ∷ bs) [] h = refl
  elements-same (a ∷ more) (b ∷ bs) (c ∷ cs) h =
      first-same l a b c (by_elements C more bs) (by_elements C more cs) (by_elements C bs cs)
        (elements-same more bs cs) h

  elements-below :
      (a b c : List A)
      → by_elements C a b ≡ negsuc 0
      → by_elements C b c ≡ negsuc 0
      → by_elements C a c ≡ negsuc 0
  elements-below a [] [] h k = absurd (cc k)
  elements-below [] [] (c ∷ cs) h k = refl
  elements-below (a ∷ more) [] (c ∷ cs) h k = absurd (cc h)
  elements-below a (b ∷ bs) [] h k = absurd (cc k)
  elements-below [] (b ∷ bs) (c ∷ cs) h k = refl
  elements-below (a ∷ more) (b ∷ bs) (c ∷ cs) h k =
      first-below l a b c (by_elements C more bs) (by_elements C bs cs) (by_elements C more cs)
        (elements-below more bs cs) h k

  pub by_elements-Lawful : Lawful (List A) (by_elements C)
  by_elements-Lawful = record {
    answer = elements-answer;
    flips = elements-flips;
    same = elements-same;
    below = elements-below;
  }
