-- ===== src/Restore.antt =====
-- The import of a database backup, executor/backup.go: what a statement is by its first bytes. The
-- children scan the file: Sanitize takes statements out on the way to mysql, Validate looks for a
-- table. A file is its bytes; a prefix is kept as the code points that `string(b)` makes of them.
-- `upper_rest` is unicode.ToUpper beyond ASCII.
use wp_panel_en_private.Base.{
  ℕ, zero, suc, ◌+◌, Bool, true, false, not, ◌&&◌, ◌||◌, Option, none, some, List, [], ◌∷◌, ◌++◌,
  map, drop, length, ltb, leb, ◌==◌, if◌then◌else◌,
}
use wp_panel_en_private.Base.Text.{
  Text, codes, text_eq, has_prefix, contains, contains_any, fields, join, to_upper,
}
pub mod Sanitize
pub mod Validate
pub mod Stripped
pub mod Clearing
pub mod Import
pub mod Sent
pub mod Fills
pub mod Imported
pub mod Chunks
pub mod Run
pub mod Pieces
pub mod Kept
pub mod Dropped
mod Examples

-- What stands before the first place of a pattern, and what after it: strings.Index with the slices.
abbrev pub cut : Text → Text → Option (Text × Text)
cut p [] = if has_prefix [] p then some ([], []) else none
cut p (c ∷ s) =
    let rest = cut p s in
    if has_prefix (c ∷ s) p
    then some ([], drop (length p) (c ∷ s))
    else (elim rest [ none ↦ none | some (before, after) ↦ some (c ∷ before, after) ])

-- One of the loops of normalizeSQLPrefix: from each place of `open` to the next `close` a space, or
-- nothing to the end where there is no `close`.
unfoldable pub strip_comments : Text → Text → ℕ → Text → Text
strip_comments open_mark close_mark zero s = s
strip_comments open_mark close_mark (suc fuel) s = elim (cut open_mark s) [
  | none ↦ s
  | some (before, rest) ↦ elim (cut close_mark rest) [
    | none ↦ before
    | some (comment, after) ↦ strip_comments open_mark close_mark fuel (before ++ b' ' ∷ after)
  ]
]

module _ (upper_rest : ℕ → ℕ) where
  abbrev pub upper : Text → Text
  upper s = map (to_upper upper_rest) s

  abbrev pub strip : Text → Text → Text → Text
  strip open_mark close_mark s = strip_comments open_mark close_mark (suc (length s)) s

  unfoldable pub normalize_sql_prefix : Text → Text
  unfolding strip_comments
  normalize_sql_prefix s = join b' ' (
      fields (
        strip (codes "#") (codes "\n")
          (strip (codes "--") (codes "\n") (strip (codes "/*") (codes "*/") (upper s)))))

  unfoldable pub is_create_table_statement : Text → Bool
  unfolding normalize_sql_prefix
  is_create_table_statement prefix = has_prefix (normalize_sql_prefix prefix) (codes "CREATE TABLE")

  -- skip and decided: none while it is open, else whether to skip.
  abbrev pub create_decision : List Text → Option Bool
  create_decision [] = none
  create_decision (second ∷ rest) =
      if text_eq second (codes "DATABASE") || has_prefix second (codes "DEFINER=")
      then some true
      else if has_prefix (codes "DATABASE") second || has_prefix (codes "DEFINER=") second
      then none
      else some false

  abbrev pub drop_decision : List Text → Option Bool
  drop_decision [] = none
  drop_decision (second ∷ rest) =
      if has_prefix (codes "DATABASE") second && not (text_eq second (codes "DATABASE"))
      then none
      else some (text_eq second (codes "DATABASE"))

  abbrev pub word_decision : Text → List Text → Option Bool
  word_decision prefix [] = none
  word_decision prefix (word ∷ rest) =
      if text_eq word (codes "USE")
      then some true
      else if text_eq word (codes "CREATE")
      then create_decision rest
      else if text_eq word (codes "DROP")
      then drop_decision rest
      else if not (contains_any prefix (codes " \t\r\n"))
          && (has_prefix (codes "USE") word
              || has_prefix (codes "CREATE") word
              || has_prefix (codes "DROP") word)
      then none
      else some false

  unfoldable pub restore_statement_decision : Text → Option Bool
  unfolding normalize_sql_prefix
  restore_statement_decision prefix =
      if contains (upper prefix) (codes "DEFINER=")
      then some true
      else word_decision prefix (fields (normalize_sql_prefix prefix))
