-- ===== src/Restore/Pieces.antt =====
-- The text of a statement of SQL as far as `writeSanitizedRestoreSQL` (executor/backup.go) is to know it:
-- where the quotes are, told without its state.
use wp_panel_en_private.Base.{
  ℕ, ◌≡◌, refl, arith, ◌∙◌, Bool, true, false, not, ◌&&◌, some, [], ◌∷◌, ◌++◌, all, ◌==◌,
}
use wp_panel_en_private.Base.Text.{Text}
use wp_panel_en_private.Restore.Sanitize.{Quotes, unquoted, quote_byte}
use wp_panel_en_private.Restore.Run.{follows}

-- A byte that neither quotes nor ends a statement.
abbrev pub is_plain : ℕ → Bool
is_plain b = not (b == b';') && not (b == b'\'') && not (b == b'"') && not (b == b'`')

-- The inside of a string between two marks; a backslash goes with the byte after it.
pub data Inside (mark : ℕ) : Text → Type 0 where
  empty : Inside mark []
  byte :
      (b : ℕ) {s : Text}
      → (b == b'\\') ≡ false
      → (b == mark) ≡ false
      → Inside mark s
      → Inside mark (b ∷ s)
  escape : (b : ℕ) {s : Text} → Inside mark s → Inside mark (b'\\' ∷ (b ∷ s))

-- Plain bytes, strings between single or double quotes, and names between backticks.
pub data Pieces : Text → Type 0 where
  done : Pieces []
  plain : (b : ℕ) {s : Text} → is_plain b ≡ true → Pieces s → Pieces (b ∷ s)
  single :
      (inside : Text) {s : Text}
      → Inside b'\'' inside
      → Pieces s
      → Pieces (b'\'' ∷ (inside ++ (b'\'' ∷ s)))
  double :
      (inside : Text) {s : Text}
      → Inside b'"' inside
      → Pieces s
      → Pieces (b'"' ∷ (inside ++ (b'"' ∷ s)))
  backticked :
      (inside : Text) {s : Text}
      → all (λ b. not (b == b'`')) inside ≡ true
      → Pieces s
      → Pieces (b'`' ∷ (inside ++ (b'`' ∷ s)))

abbrev in_single : Quotes
in_single = record unquoted { single = true }

abbrev in_double : Quotes
in_double = record unquoted { double = true }

abbrev in_backticks : Quotes
in_backticks = record unquoted { backtick = true }

follows-single :
    (inside s : Text)
    → Inside b'\'' inside
    → follows in_single (inside ++ (b'\'' ∷ s)) ≡ follows unquoted s
unfolding follows quote_byte
follows-single _ s empty = refl
follows-single _ s (byte b {s = inside} e m i) = rw (e, m) (follows-single inside s i)
follows-single _ s (escape b {s = inside} i) = follows-single inside s i

follows-double :
    (inside s : Text)
    → Inside b'"' inside
    → follows in_double (inside ++ (b'"' ∷ s)) ≡ follows unquoted s
unfolding follows quote_byte
follows-double _ s empty = refl
follows-double _ s (byte b {s = inside} e m i) = rw (e, m) (follows-double inside s i)
follows-double _ s (escape b {s = inside} i) = follows-double inside s i

follows-backticked :
    (inside s : Text)
    → all (λ b. not (b == b'`')) inside ≡ true
    → follows in_backticks (inside ++ (b'`' ∷ s)) ≡ follows unquoted s
unfolding follows quote_byte
follows-backticked [] s h = refl
follows-backticked (b ∷ inside) s h =
    let other : (b == b'`') ≡ false = ground (arith, h) in
    rw other (follows-backticked inside s (ground (arith, h)))

plain_step : (b : ℕ) (s : Text) → is_plain b ≡ true → follows unquoted (b ∷ s) ≡ follows unquoted s
unfolding follows quote_byte
plain_step b s h =
    let no_end : (b == b';') ≡ false = ground (arith, h) in
    let no_single : (b == b'\'') ≡ false = ground (arith, h) in
    let no_double : (b == b'"') ≡ false = ground (arith, h) in
    let no_name : (b == b'`') ≡ false = ground (arith, h) in
    rw (no_end, no_single, no_double, no_name) refl

-- Such a text closes its quotes, and no `;` in it ends a statement.
pub follows-Pieces : (s : Text) → Pieces s → follows unquoted s ≡ some unquoted
unfolding follows quote_byte
follows-Pieces _ done = refl
follows-Pieces _ (plain b {s = s} h p) = plain_step b s h ∙ follows-Pieces s p
follows-Pieces _ (single inside {s = s} i p) = follows-single inside s i ∙ follows-Pieces s p
follows-Pieces _ (double inside {s = s} i p) = follows-double inside s i ∙ follows-Pieces s p
follows-Pieces _ (backticked inside {s = s} h p) =
    follows-backticked inside s h ∙ follows-Pieces s p
