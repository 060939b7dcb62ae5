-- ===== src/Restore/Validate.antt =====
-- `validateRestoreSQL` and `validateRestoreBackupFile` of executor/backup.go.
use wp_panel_en_private.Base.{
  ℕ, Bool, true, false, not, ◌&&◌, ◌||◌, Option, none, some, List, [], ◌∷◌, ◌++◌, map, ltb, ◌==◌,
  if◌then◌else◌,
}
use wp_panel_en_private.Base.Fault.{Fault, Reply, on_reply}
use wp_panel_en_private.Base.Text.{Text, codes, text_eq, has_suffix, to_lower}
use wp_panel_en_private.Restore.{is_create_table_statement}
use wp_panel_en_private.Restore.Sanitize.{
  Quotes, unquoted, outside, quote_byte, is_blank, prefix_len,
}

abbrev pub max_prefix : ℕ
max_prefix = 128

pub record Search : Type 0 where
  pub saw_create_table : Bool
  pub statement_prefix : Text
  pub in_statement : Bool
  pub quotes : Quotes

abbrev pub search_start : Search
search_start = record {
  saw_create_table = false;
  statement_prefix = [];
  in_statement = false;
  quotes = unquoted;
}

abbrev pub begin_search : Search → Search
begin_search s =
    if s.in_statement then s else record s { in_statement = true; statement_prefix = [] }

abbrev pub end_search : Search → ℕ → Search
end_search s b =
    if b == b';'
    then record s { in_statement = false; statement_prefix = [] }
    else record s { quotes = quote_byte s.quotes b }

-- A member of a zip archive.
pub record ZipMember : Type 0 where
  pub name : Text
  pub is_dir : Bool
  pub opens : Reply (List Text × Fault)

-- The answers of the system on the file: whether it is a directory and its size, whether it opens,
-- and what is read of it, plainly, through gzip, and as an archive.
pub record BackupFile : Type 0 where
  pub stat : Reply (Bool × ℕ)
  pub opens : Fault
  pub plain : List Text × Fault
  pub gzip : Reply (List Text × Fault)
  pub zip : Reply (List ZipMember)

abbrev pub is_sql_member : (ℕ → ℕ) → ZipMember → Bool
is_sql_member lower_rest m =
    not m.is_dir && has_suffix (map (to_lower lower_rest) m.name) (codes ".sql")

abbrev pub sql_member : (ℕ → ℕ) → List ZipMember → Option ZipMember
sql_member lower_rest [] = none
sql_member lower_rest (m ∷ ms) =
    let rest = sql_member lower_rest ms in if is_sql_member lower_rest m then some m else rest

module _ (upper_rest : ℕ → ℕ) where
  abbrev pub look_at : Search → ℕ → Search
  look_at s b =
      if ltb (prefix_len s.statement_prefix) max_prefix
      then record s {
        statement_prefix = s.statement_prefix ++ b ∷ [];
        saw_create_table =
            s.saw_create_table
            || is_create_table_statement upper_rest (s.statement_prefix ++ b ∷ []);
      }
      else s

  unfoldable pub search_byte : Search → ℕ → Search
  unfolding quote_byte is_create_table_statement
  search_byte s b =
      if not (outside s.quotes)
      then record s { quotes = quote_byte s.quotes b }
      else if not s.in_statement && is_blank b
      then s
      else end_search (look_at (begin_search s) b) b

  abbrev pub search : Search → Text → Search
  search s [] = s
  search s (b ∷ bytes) = search (search_byte s b) bytes

  abbrev pub search_chunks : Search → List Text → Search
  search_chunks s [] = s
  search_chunks s (chunk ∷ chunks) = search_chunks (search s chunk) chunks

  -- The reads give chunks, and then the end or an error.
  unfoldable pub validate_restore_sql : List Text × Fault → Fault
  unfolding search_byte
  validate_restore_sql (chunks, some why) = some (codes "failed to read SQL file")
  validate_restore_sql (chunks, none) =
      if (search_chunks search_start chunks).saw_create_table
      then none
      else some (codes "no CREATE TABLE statement found")

  unfoldable pub validate_zip : (ℕ → ℕ) → Reply (List ZipMember) → Fault
  unfolding validate_restore_sql on_reply
  validate_zip lower_rest zip =
      on_reply zip (λ why. some (codes "zip file is corrupted or has an invalid format"))
        (λ members. elim (sql_member lower_rest members) [
          | none ↦ some (codes "no .sql file found in the zip archive")
          | some m ↦
              on_reply m.opens (λ why. some (codes "failed to read SQL file inside zip"))
                validate_restore_sql
        ])

  unfoldable pub validate_gzip : BackupFile → Fault
  unfolding validate_restore_sql on_reply
  validate_gzip f = elim f.opens [
    | some why ↦ some (codes "failed to read gzip file")
    | none ↦
        on_reply f.gzip (λ why. some (codes "gzip file is corrupted or has an invalid format"))
          validate_restore_sql
  ]

  unfoldable pub validate_plain : BackupFile → Fault
  unfolding validate_restore_sql
  validate_plain f = elim f.opens [
    | some why ↦ some (codes "failed to read SQL file")
    | none ↦ validate_restore_sql f.plain
  ]

  -- `ext` is the extension of the path.
  unfoldable pub validate_restore_backup_file : (ℕ → ℕ) → Text → BackupFile → Fault
  unfolding on_reply validate_plain validate_gzip validate_zip
  validate_restore_backup_file lower_rest ext f =
      let lower = map (to_lower lower_rest) ext in
      on_reply f.stat (λ why. some (codes "file does not exist or is not readable"))
        (λ (is_dir, size).
          if is_dir || size == 0
          then some (codes "file is empty or has an invalid format")
          else if text_eq lower (codes ".sql")
          then validate_plain f
          else if text_eq lower (codes ".gz")
          then validate_gzip f
          else if text_eq lower (codes ".zip")
          then validate_zip lower_rest f.zip
          else some (codes "unsupported backup file format"))
