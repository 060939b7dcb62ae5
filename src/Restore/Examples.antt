-- ===== src/Restore/Examples.antt =====
-- Runs of the code for the import of backups (executor/backup.go), and the theorems at concrete dumps.
use wp_panel_en_private.Base.{
  List, ◌-◌, drop, length, ℕ, ◌≡◌, refl, arith, true, false, none, some, [], ◌∷◌, ◌++◌,
}
use wp_panel_en_private.Base.Fault.{broken, given}
use wp_panel_en_private.Base.Text.{Text, codes, contains, to_upper, to_lower, fields}
use wp_panel_en_private.Restore.{
  strip_comments, normalize_sql_prefix, is_create_table_statement, restore_statement_decision,
}
use wp_panel_en_private.Restore.Sanitize.{
  quote_byte, statement_byte, scan_byte, sanitized, accept, write_sanitized_restore_sql,
}
use wp_panel_en_private.Restore.Validate.{BackupFile, search_byte, validate_restore_sql}
use wp_panel_en_private.Restore.Stripped.{strip_comments_complete}
use wp_panel_en_private.Restore.Chunks.{write_sanitized_restore_sql-sanitized}
use wp_panel_en_private.Restore.Import.{
  RestoreBackupPayload, RestoreAnswers, execute_restore_backup,
}
use wp_panel_en_private.Restore.Clearing.{Process}
use wp_panel_en_private.Restore.Imported.{IsOrdered, execute_restore_backup-IsOrdered}
use wp_panel_en_private.Restore.Run.{follows}
use wp_panel_en_private.Restore.Dropped.{create_database, sanitized-spelled, sanitized_after_empty}
use wp_panel_en_private.Restore.Kept.{
  last, more, Dump, finished, blank, left_out, copied, sanitized-Dump,
}
use wp_panel_en_private.Restore.Pieces.{done, plain, single, backticked, byte, escape, empty}

abbrev same : ℕ → ℕ
same c = c

-- The statement of the database is dropped, the table is kept.
sanitized_test : sanitized same (codes "use a;\nCREATE TABLE t;") ≡ codes "\nCREATE TABLE t;"
unfolding scan_byte statement_byte quote_byte restore_statement_decision normalize_sql_prefix
    strip_comments to_upper fields
sanitized_test = refl

-- What is undecided at the end of the file is written.
undecided_test : sanitized same (codes "creat") ≡ codes "creat"
unfolding scan_byte statement_byte quote_byte restore_statement_decision normalize_sql_prefix
    strip_comments to_upper fields
undecided_test = refl

-- The name of the definer passes with a blank before the equals sign.
definer_test :
    sanitized same (codes "create or replace definer=a;") ≡ codes "create or replace definer=a;"
unfolding scan_byte statement_byte quote_byte restore_statement_decision normalize_sql_prefix
    strip_comments to_upper fields
definer_test = refl

-- A comment that MySQL runs passes.
comment_test :
    sanitized same (codes "/*!40000 DROP DATABASE a*/;") ≡ codes "/*!40000 DROP DATABASE a*/;"
unfolding scan_byte statement_byte quote_byte restore_statement_decision normalize_sql_prefix
    strip_comments to_upper fields
comment_test = refl

validate_test :
    validate_restore_sql same ((codes "-- a\n cre" ∷ codes "ate table t;" ∷ []), none) ≡ none
unfolding validate_restore_sql search_byte quote_byte is_create_table_statement normalize_sql_prefix
    strip_comments to_upper fields
validate_test = refl

strip_comments_complete_example :
    contains (strip_comments (codes "/*") (codes "*/") 12 (codes "a/*b*/c/*d")) (codes "/*") ≡ false
strip_comments_complete_example =
    strip_comments_complete b'/' b'*' (codes "*") (codes "/") 12 (codes "a/*b*/c/*d") (omega arith)

write_sanitized_restore_sql-sanitized_example :
    write_sanitized_restore_sql same
      (some (4, codes "broken pipe"))
      (codes "us" ∷ codes "e a; select 1;" ∷ [])
      none
    ≡ accept
        (some (4, codes "broken pipe"))
        []
        (sanitized same (codes "use a; select 1;"))
        (λ sent. (sent, none))
write_sanitized_restore_sql-sanitized_example =
    write_sanitized_restore_sql-sanitized same (some (4, codes "broken pipe"))
      (codes "us" ∷ codes "e a; select 1;" ∷ [])

sanitized-spelled_example :
    sanitized same (
      codes "SELECT 1;\n"
      ++ (codes "create database" ++ (codes " `a;b`" ++ (b';' ∷ codes " select 1;"))))
    ≡ codes "SELECT 1;\n" ++ sanitized same (codes " select 1;")
unfolding scan_byte statement_byte quote_byte restore_statement_decision normalize_sql_prefix
    strip_comments to_upper to_lower fields
sanitized-spelled_example =
    sanitized-spelled same (codes "SELECT 1;\n") true create_database (codes " `a;b`")
      (codes " select 1;") refl (plain b' ' refl (backticked (codes "a;b") refl done))

sanitized_after_empty_example :
    sanitized same (b';' ∷ (codes "use mysql" ++ (b';' ∷ codes "\n")))
    ≡ b';' ∷ (codes "use mysql" ++ (b';' ∷ sanitized same (codes "\n")))
unfolding follows quote_byte
sanitized_after_empty_example = sanitized_after_empty same (codes "use mysql") (codes "\n") refl

abbrev small_file : Text
small_file = codes "USE a;\nSELECT ';\\'';"

-- A statement that is left out, and one that is kept with a string that holds a `;` and a mark.
small_file-Dump : Dump same small_file (codes "\nSELECT ';\\'';")
unfolding restore_statement_decision normalize_sql_prefix strip_comments to_upper fields
small_file-Dump =
    left_out b'U' (codes "SE") (codes " a") refl
      (more [] b'U' refl (more (codes "U") b'S' refl (last (codes "US") b'E' refl refl)))
      (plain b' ' refl (plain b'a' refl done))
      (blank b'\n' refl (
        copied b'S' [] (codes "ELECT ';\\''") refl (last [] b'S' refl refl)
          (plain b'E' refl (
            plain b'L' refl (
              plain b'E' refl (
                plain b'C' refl (
                  plain b'T' refl (
                    plain b' ' refl
                      (single (codes ";\\'") (byte b';' refl refl (escape b'\'' empty)) done)))))))
          finished))

sanitized-Dump_example : sanitized same small_file ≡ codes "\nSELECT ';\\'';"
sanitized-Dump_example = sanitized-Dump same _ _ small_file-Dump

abbrev dump : BackupFile
dump = record {
  stat = given (false, 30);
  opens = none;
  plain = (codes "use a; CREATE TABLE t;" ∷ [], none);
  gzip = broken [];
  zip = broken [];
}

abbrev mysql : Process
mysql = record { pipe = none; starts = none; room = none; closes = none; ends = none; stderr = [] }

abbrev server : RestoreAnswers
server = record {
  db_pass = codes "secret";
  backup_dir = codes "/backups";
  validated = λ path. dump;
  imported = λ path. dump;
  listing = [];
  listed = none;
  clearing = mysql;
  importing = mysql;
}

abbrev upload : RestoreBackupPayload
upload = record {
  domain = codes "a.com";
  db_name = codes "a_com";
  filename = [];
  file_path = codes "/tmp/up.sql";
  remove_file_after = true;
}

abbrev join_all : List Text → Text
join_all [] = []
join_all (s ∷ ss) = s ++ (b'/' ∷ join_all ss)

abbrev last_four : Text → Text
last_four s = drop (length s - 4) s

restore_test :
    (execute_restore_backup same same (λ s. s) join_all last_four server (some upload)).ok ≡ true
unfolding execute_restore_backup validate_restore_sql search_byte quote_byte
    is_create_table_statement scan_byte statement_byte restore_statement_decision
    normalize_sql_prefix strip_comments to_upper to_lower fields write_sanitized_restore_sql
restore_test = refl

execute_restore_backup-IsOrdered_example :
    IsOrdered same same
      (λ s. s)
      join_all
      last_four
      server
      upload
      (execute_restore_backup same same (λ s. s) join_all last_four server (some upload))
execute_restore_backup-IsOrdered_example =
    execute_restore_backup-IsOrdered same same (λ s. s) join_all last_four server upload
