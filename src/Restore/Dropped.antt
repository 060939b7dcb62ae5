-- ===== src/Restore/Dropped.antt =====
-- Which statements of a dump `writeSanitizedRestoreSQL` (executor/backup.go) keeps from mysql, and one
-- way past it.
use wp_panel_en_private.Base.{
  ℕ, ◌≡◌, refl, ap, ◌∙◌, Bool, true, false, some, [], ◌∷◌, ◌++◌, map, append_assoc, if◌then◌else◌,
}
use wp_panel_en_private.Base.Text.{Text, codes, fields, to_lower, to_upper}
use wp_panel_en_private.Restore.{restore_statement_decision, normalize_sql_prefix, strip_comments}
use wp_panel_en_private.Restore.Chunks.{scan-append}
use wp_panel_en_private.Restore.Sanitize.{
  unquoted, Scan, start, statement_byte, scan_byte, scan, sanitized,
}
use wp_panel_en_private.Restore.Pieces.{Pieces, follows-Pieces}
use wp_panel_en_private.Restore.Run.{follows, decided, emitted, emitted-decided}

-- The statements that the import is to leave out, by how they begin.
pub data Forbidden : Type 0 where
  use_database : Forbidden
  create_database : Forbidden
  drop_database : Forbidden
  create_definer : Forbidden

abbrev pub begins : Forbidden → Text
begins use_database = codes "USE"
begins create_database = codes "CREATE DATABASE"
begins drop_database = codes "DROP DATABASE"
begins create_definer = codes "CREATE DEFINER="

abbrev pub spelled : Bool → Forbidden → Text
spelled lower w = if lower then map (to_lower (λ c. c)) (begins w) else begins w

module _ (upper_rest : ℕ → ℕ) where
  emitted-append :
      (s : Scan) (a b : Text)
      → emitted upper_rest s (a ++ b)
        ≡ (scan upper_rest s a).1 ++ emitted upper_rest (scan upper_rest s a).0 b
  unfolding emitted
  emitted-append s a b =
      rw (scan-append upper_rest s a b) (append_assoc (scan upper_rest s a).1 _ _)

  scan-spelled :
      (lower : Bool) (w : Forbidden)
      → scan upper_rest start (spelled lower w) ≡ (decided true (spelled lower w) unquoted, [])
  unfolding scan_byte statement_byte restore_statement_decision normalize_sql_prefix strip_comments
      to_upper to_lower fields
  scan-spelled true use_database = refl
  scan-spelled true create_database = refl
  scan-spelled true drop_database = refl
  scan-spelled true create_definer = refl
  scan-spelled false use_database = refl
  scan-spelled false create_database = refl
  scan-spelled false drop_database = refl
  scan-spelled false create_definer = refl

  emitted-spelled :
      (lower : Bool) (w : Forbidden) (rest more : Text)
      → Pieces rest
      → emitted upper_rest start (spelled lower w ++ (rest ++ (b';' ∷ more)))
        ≡ emitted upper_rest start more
  unfolding emitted
  emitted-spelled lower w rest more pieces =
      emitted-append start (spelled lower w) (rest ++ (b';' ∷ more))
      ∙ rw (scan-spelled lower w) (
          emitted-decided upper_rest true (spelled lower w) unquoted rest more
            (follows-Pieces rest pieces))

  scan_empty_statement :
      scan upper_rest start (codes ";") ≡ (decided false (codes ";") unquoted, codes ";")
  unfolding scan_byte statement_byte restore_statement_decision normalize_sql_prefix strip_comments
      to_upper fields
  scan_empty_statement = refl

-- Between two statements, as at the beginning of a file: a statement that begins with USE, CREATE
-- DATABASE, DROP DATABASE or CREATE DEFINER=, in capitals or in small letters and with one blank between
-- the words, and goes on with plain bytes, strings and names in which quotes close and a `;` is quoted,
-- is taken out of the dump with its `;`; what stands before it is written as it was to be, and the text
-- after it is handled as at the beginning of a file.
pub sanitized-spelled :
    (upper_rest : ℕ → ℕ) (before : Text) (lower : Bool) (w : Forbidden) (rest more : Text)
    → (scan upper_rest start before).0 ≡ start
    → Pieces rest
    → sanitized upper_rest (before ++ (spelled lower w ++ (rest ++ (b';' ∷ more))))
      ≡ (scan upper_rest start before).1 ++ sanitized upper_rest more
unfolding emitted
sanitized-spelled upper_rest before lower w rest more between pieces =
    let statement = spelled lower w ++ (rest ++ (b';' ∷ more)) in
    emitted-append upper_rest start before statement
    ∙ ap (λ s. (scan upper_rest start before).1 ++ emitted upper_rest s statement) between
    ∙ ap (λ t. (scan upper_rest start before).1 ++ t)
        (emitted-spelled upper_rest lower w rest more pieces)

-- An empty statement lets the next one through: after a `;` that begins a statement, all up to the
-- next `;` outside quotes is copied whatever it says.
pub sanitized_after_empty :
    (upper_rest : ℕ → ℕ) (text more : Text)
    → follows unquoted text ≡ some unquoted
    → sanitized upper_rest (b';' ∷ (text ++ (b';' ∷ more)))
      ≡ b';' ∷ (text ++ (b';' ∷ sanitized upper_rest more))
unfolding emitted
sanitized_after_empty upper_rest text more h =
    emitted-append upper_rest start (codes ";") (text ++ (b';' ∷ more))
    ∙ ap (λ end. end.1 ++ emitted upper_rest end.0 (text ++ (b';' ∷ more)))
        (scan_empty_statement upper_rest)
    ∙ ap (λ t. b';' ∷ t)
        (emitted-decided upper_rest false (codes ";") unquoted text more h
          ∙ append_assoc text (b';' ∷ []) (sanitized upper_rest more))
