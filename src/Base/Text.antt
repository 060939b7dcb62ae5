-- ===== src/Base/Text.antt =====
-- Go strings that the program walks, as the list of their code points, and the functions of the
-- package `strings` that the program calls on them.
use Prim.Native.Char.{code}
use Prim.Native.Nat.{ℕ, ◌+◌, ◌-◌, ◌≤◌}
use Prim.Native.String.{String}
use mathlib.Core.Path.{◌≡◌, refl, ◌∙◌}
use mathlib.Core.Logic.{◌≢◌, inl, inr}
use mathlib.Core.Bool.{Bool, true, false, ◌&&◌, ◌||◌}
use mathlib.Core.List.{List, [], ◌∷◌, ◌++◌, reverse}
use native.Mathlib.Omega.{arith}
use wp_panel_en_private.Base.Tests.{Bool-cases, ==_iff, ltb, leb, ◌==◌, if◌then◌else◌}
use wp_panel_en_private.Base.Lists.{
  any, all, length, drop_while, length-reverse, length-drop_while, all-reverse, all-drop_while,
}

abbrev pub Text : Type 0
Text = List ℕ

-- The code points of a literal.
abbrev pub codes : String → Text
codes String.[] = []
codes (String.◌∷◌ c s) = code c ∷ codes s

-- s == t
abbrev pub text_eq : Text → Text → Bool
text_eq [] [] = true
text_eq [] (d ∷ t) = false
text_eq (c ∷ s) [] = false
text_eq (c ∷ s) (d ∷ t) = c == d && text_eq s t

pub text_eq_refl : (s : Text) → text_eq s s ≡ true
text_eq_refl [] = refl
text_eq_refl (c ∷ s) = ground (arith, text_eq_refl s)

pub eq-text_eq : (s t : Text) → text_eq s t ≡ true → s ≡ t
eq-text_eq [] [] h = refl
eq-text_eq [] (d ∷ t) h = ground arith
eq-text_eq (c ∷ s) [] h = ground arith
eq-text_eq (c ∷ s) (d ∷ t) h = ground (arith, eq-text_eq s t)

-- strings.HasPrefix(s, p)
abbrev pub has_prefix : Text → Text → Bool
has_prefix s [] = true
has_prefix [] (d ∷ p) = false
has_prefix (c ∷ s) (d ∷ p) = c == d && has_prefix s p

pub has_prefix-append : (s p : Text) → has_prefix s p ≡ true → (rest : Text) × (s ≡ p ++ rest)
has_prefix-append s [] h = (s, refl)
has_prefix-append [] (d ∷ p) h = cc
has_prefix-append (c ∷ s) (d ∷ p) h =
    let (rest, e) = has_prefix-append s p (ground arith) in (rest, ground arith)

-- strings.HasSuffix(s, p)
abbrev pub has_suffix : Text → Text → Bool
has_suffix s p = has_prefix (reverse s) (reverse p)

-- strings.Contains(s, p)
abbrev pub contains : Text → Text → Bool
contains [] p = has_prefix [] p
contains (c ∷ s) p = has_prefix (c ∷ s) p || contains s p

-- strings.ContainsRune(s, c)
abbrev pub mem_code : ℕ → Text → Bool
mem_code c s = any (λ d. c == d) s

-- strings.ContainsAny(s, set)
abbrev pub contains_any : Text → Text → Bool
contains_any s set = any (λ c. mem_code c set) s

-- unicode.IsSpace(c)
unfoldable pub is_space : ℕ → Bool
is_space c =
    (leb 9 c && leb c 13)
    || c == 32
    || c == 0x85
    || c == 0xa0
    || c == 0x1680
    || (leb 0x2000 c && leb c 0x200a)
    || c == 0x2028
    || c == 0x2029
    || c == 0x202f
    || c == 0x205f
    || c == 0x3000

-- strings.TrimLeftFunc, strings.TrimRightFunc, strings.TrimFunc
abbrev pub trim_left : (ℕ → Bool) → Text → Text
trim_left p s = drop_while p s

abbrev pub trim_right : (ℕ → Bool) → Text → Text
trim_right p s = reverse (drop_while p (reverse s))

abbrev pub trim : (ℕ → Bool) → Text → Text
trim p s = trim_right p (trim_left p s)

pub length-trim_right : (p : ℕ → Bool) (s : Text) → length (trim_right p s) ≤ length s
length-trim_right p s = omega (
  arith,
  length-reverse {0} (drop_while p (reverse s)),
  length-drop_while {0} p (reverse s),
  length-reverse {0} s,
)

pub all-trim_right : (q p : ℕ → Bool) (s : Text) → all q s ≡ true → all q (trim_right p s) ≡ true
all-trim_right q p s h =
    all-reverse q (drop_while p (reverse s)) (all-drop_while q p (reverse s) (all-reverse q s h))

pub all-trim : (q p : ℕ → Bool) (s : Text) → all q s ≡ true → all q (trim p s) ≡ true
all-trim q p s h = all-trim_right q p (trim_left p s) (all-drop_while q p s h)

-- strings.TrimSpace(s)
unfoldable pub trim_space : Text → Text
unfolding is_space
trim_space s = trim is_space s

-- strings.Split(s, sep) for a separator of one code point: always at least one part.
abbrev pub cons_head : ℕ → List Text → List Text
cons_head c [] = (c ∷ []) ∷ []
cons_head c (part ∷ parts) = (c ∷ part) ∷ parts

unfoldable pub split : ℕ → Text → List Text
split sep [] = [] ∷ []
split sep (c ∷ s) = let parts = split sep s in if c == sep then [] ∷ parts else cons_head c parts

-- strings.Join(parts, sep) for a separator of one code point.
abbrev pub join : ℕ → List Text → Text
join sep [] = []
join sep (part ∷ []) = part
join sep (part ∷ next ∷ parts) = part ++ sep ∷ join sep (next ∷ parts)

cons_head-ne : (c : ℕ) (parts : List Text) → cons_head c parts ≢ []
cons_head-ne c [] e = cc
cons_head-ne c (part ∷ parts) e = cc

split-ne : (sep : ℕ) (s : Text) → split sep s ≢ []
unfolding split
split-ne sep [] e = cc
split-ne sep (c ∷ s) e = elim (Bool-cases (c == sep)) [
  | inl same ↦ ground arith
  | inr other ↦ cons_head-ne c (split sep s) (ground arith)
]

join-cons_head : (sep c : ℕ) (parts : List Text) → join sep (cons_head c parts) ≡ c ∷ join sep parts
join-cons_head sep c [] = refl
join-cons_head sep c (part ∷ []) = refl
join-cons_head sep c (part ∷ next ∷ parts) = refl

join-nil : (sep : ℕ) (parts : List Text) → parts ≢ [] → join sep ([] ∷ parts) ≡ sep ∷ join sep parts
join-nil sep [] ne = absurd (ne refl)
join-nil sep (part ∷ parts) ne = refl

pub join-split : (sep : ℕ) (s : Text) → join sep (split sep s) ≡ s
unfolding split
join-split sep [] = refl
join-split sep (c ∷ s) = elim (Bool-cases (c == sep)) [
  | inl same ↦
      rw same
        (join-nil sep (split sep s) (split-ne sep s) ∙ cc (join-split sep s, (==_iff c sep).0 same))
  | inr other ↦ rw other (join-cons_head sep c (split sep s) ∙ cc (join-split sep s))
]

-- strings.Fields(s): the runs of code points that are no space. `inside` holds the run that is open.
abbrev pub close_field : Text → List Text → List Text
close_field [] rest = rest
close_field (c ∷ s) rest = (c ∷ s) ∷ rest

unfoldable pub fields_from : Text → Text → List Text
fields_from inside [] = close_field inside []
fields_from inside (c ∷ s) =
    let next = fields_from (if is_space c then [] else inside ++ c ∷ []) s in
    if is_space c then close_field inside next else next

unfoldable pub fields : Text → List Text
unfolding fields_from is_space
fields s = fields_from [] s

abbrev pub is_digit : ℕ → Bool
is_digit c = leb b'0' c && leb c b'9'

-- unicode.ToLower(c), with `lower_rest` for what lies beyond ASCII.
unfoldable pub to_lower : (ℕ → ℕ) → ℕ → ℕ
to_lower lower_rest c =
    if leb b'A' c && leb c b'Z' then c + 32 else if ltb c 128 then c else lower_rest c

-- unicode.ToUpper(c), with `upper_rest` for what lies beyond ASCII.
unfoldable pub to_upper : (ℕ → ℕ) → ℕ → ℕ
to_upper upper_rest c =
    if leb b'a' c && leb c b'z' then c - 32 else if ltb c 128 then c else upper_rest c
