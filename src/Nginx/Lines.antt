-- ===== src/Nginx/Lines.antt =====
-- Lines of text with their ends, and what the functions of the package `strings` that executor/nginx_ban.go
-- calls make of a line.
use mathlib.Core.List.{reverse-append, reverse-reverse}
use wp_panel_en_private.Base.{
  ℕ, ◌≡◌, refl, sym, ap, ◌∙◌, arith, Bool, true, false, not, List, [], ◌∷◌, ◌++◌, reverse,
  append-nil, append_assoc, all, all-reverse, drop_while, ◌==◌,
}
use wp_panel_en_private.Base.Text.{Text, split, fields_from, is_space, trim_right, trim_space}
use wp_panel_en_private.Nginx.{with_newlines}

-- No end of line.
abbrev pub one_line : Text → Bool
one_line s = all (λ c. not (c == b'\n')) s

split-line : (s t : Text) → one_line s ≡ true → split b'\n' (s ++ b'\n' ∷ t) ≡ s ∷ split b'\n' t
unfolding split
split-line [] t h = refl
split-line (c ∷ s) t h =
    let other : (c == b'\n') ≡ false = ground arith in
    rw (other, split-line s t (ground arith)) refl

pub split-with_newlines :
    (lines : List Text)
    → all one_line lines ≡ true
    → split b'\n' (with_newlines lines) ≡ lines ++ [] ∷ []
unfolding split
split-with_newlines [] h = refl
split-with_newlines (line ∷ lines) h =
    split-line line (with_newlines lines) (ground arith)
    ∙ ap (λ rest. line ∷ rest) (split-with_newlines lines (ground arith))

drop_while-none : (p : ℕ → Bool) (s : Text) → all (λ c. not (p c)) s ≡ true → drop_while p s ≡ s
drop_while-none p [] h = refl
drop_while-none p (c ∷ s) h = let kept : p c ≡ false = ground arith in rw kept refl

-- The cut ends before a code point that stays.
pub trim_right-kept :
    (p : ℕ → Bool) (s : Text) (c : ℕ) → p c ≡ false → trim_right p (s ++ c ∷ []) ≡ s ++ c ∷ []
trim_right-kept p s c h =
    ap (λ t. reverse (drop_while p t)) (reverse-append s (c ∷ []))
    ∙ drop_kept
    ∙ ap reverse (sym (reverse-append s (c ∷ [])))
    ∙ reverse-reverse (s ++ c ∷ [])
  where
    drop_kept : reverse (drop_while p (c ∷ reverse s)) ≡ reverse (c ∷ reverse s)
    drop_kept = rw h refl

-- A code point at the end that goes.
pub trim_right-cut :
    (p : ℕ → Bool) (s : Text) (c : ℕ) → p c ≡ true → trim_right p (s ++ c ∷ []) ≡ trim_right p s
trim_right-cut p s c h = ap (λ t. reverse (drop_while p t)) (reverse-append s (c ∷ [])) ∙ drop_cut
  where
    drop_cut : reverse (drop_while p (c ∷ reverse s)) ≡ reverse (drop_while p (reverse s))
    drop_cut = rw h refl

-- No space in the text.
abbrev pub spaceless : Text → Bool
spaceless s = all (λ c. not (is_space c)) s

pub trim_space-spaceless : (s : Text) → spaceless s ≡ true → trim_space s ≡ s
unfolding trim_space
trim_space-spaceless s h =
    ap (trim_right is_space) (drop_while-none is_space s h)
    ∙ ap reverse (drop_while-none is_space (reverse s) (all-reverse (λ c. not (is_space c)) s h))
    ∙ reverse-reverse s

pub fields_from-append :
    (inside s t : Text)
    → spaceless s ≡ true
    → fields_from inside (s ++ t) ≡ fields_from (inside ++ s) t
unfolding fields_from
fields_from-append inside [] t h = rw append-nil refl
fields_from-append inside (c ∷ s) t h =
    let solid : is_space c ≡ false = ground arith in
    rw solid (
      fields_from-append (inside ++ c ∷ []) s t (ground arith)
      ∙ ap (λ held. fields_from held t) (append_assoc inside (c ∷ []) s))
