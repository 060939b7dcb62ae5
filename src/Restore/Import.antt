-- ===== src/Restore/Import.antt =====
-- The task that restores a database, executor/backup.go: `executeRestoreBackup` with the readers of the
-- three formats and `restoreSQLReader` with its process of mysql.
use wp_panel_en_private.Base.{
  ℕ, Bool, true, not, ◌-◌, Option, none, some, List, [], ◌∷◌, ◌++◌, map, length, if◌then◌else◌,
}
use wp_panel_en_private.Base.Fault.{Fault, on_fault, on_reply}
use wp_panel_en_private.Base.Text.{Text, codes, text_eq, has_prefix, trim_space, to_lower}
use wp_panel_en_private.Restore.Sanitize.{accept, write_sanitized_restore_sql}
use wp_panel_en_private.Restore.Validate.{BackupFile, sql_member, validate_restore_backup_file}
use wp_panel_en_private.Restore.Clearing.{
  emptied, filled, Outcome, refused, Process, clear_database_tables,
}

-- io.WriteString to a pipe that has this room.
abbrev pub write_string : Option (ℕ × Text) → Text → Text × Fault
write_string limit s = accept limit [] s (λ sent. (sent, none))

-- The room after these bytes.
abbrev pub left : Option (ℕ × Text) → Text → Option (ℕ × Text)
left none sent = none
left (some (room, why)) sent = some (room - length sent, why)

abbrev pub keys_off : Text
keys_off = codes "SET FOREIGN_KEY_CHECKS=0;\n"

abbrev pub keys_on : Text
keys_on = codes "\nSET FOREIGN_KEY_CHECKS=1;\n"

-- The answer where the writing failed, or the closing of the pipe.
abbrev pub broken_off : Process → Text → Text → Text
broken_off p what why =
    let message = trim_space p.stderr in
    if not (text_eq message [])
    then codes "Restore failed, mysql import error: " ++ message
    else on_fault p.ends (λ ended. codes "Restore failed, mysql import interrupted: " ++ ended)
        (what ++ why)

-- The answer of the import, with the error of the writing.
abbrev pub import_answer : Process → Fault → Text → Outcome
import_answer p (some why) sent =
    record (refused (broken_off p (codes "Restore failed, write to mysql interrupted: ") why)) {
      events = filled sent ∷ [];
    }
import_answer p none sent =
    on_fault p.closes
      (λ why.
        record (refused (broken_off p (codes "Restore failed, write to mysql failed: ") why)) {
          events = filled sent ∷ [];
        })
      (on_fault p.ends
        (λ why.
          let message = trim_space p.stderr in
          record (refused (
            codes "Restore failed, mysql import error: "
            ++ (if text_eq message [] then why else message))) { events = filled sent ∷ [] })
        (record {
          ok = true;
          message = codes "Database restore successful";
          events = filled sent ∷ [];
          removed = none;
        }))

-- The task's payload, with the domain and the database of its site.
pub record RestoreBackupPayload : Type 0 where
  pub domain : Text
  pub db_name : Text
  pub filename : Text
  pub file_path : Text
  pub remove_file_after : Bool

-- What the system answers: the password and the directory of the configuration, a file as it is
-- validated and as it is imported, the tables, and the two processes of mysql.
pub record RestoreAnswers : Type 0 where
  pub db_pass : Text
  pub backup_dir : Text
  pub validated : Text → BackupFile
  pub imported : Text → BackupFile
  pub listing : Text
  pub listed : Fault
  pub clearing : Process
  pub importing : Process

module _ (upper_rest lower_rest : ℕ → ℕ) where
  -- The import once the keys are off, with the bytes that are sent for that.
  unfoldable pub import_rest : Process → List Text × Fault → Text → Outcome
  unfolding on_fault write_sanitized_restore_sql
  import_rest p source opening =
      let room = left p.room opening in
      let copied = write_sanitized_restore_sql upper_rest room source.0 source.1 in
      on_fault copied.1 (λ why. import_answer p (some why) (opening ++ copied.0))
        (let closing = write_string (left room copied.0) keys_on in
          import_answer p closing.1 (opening ++ (copied.0 ++ closing.0)))

  unfoldable pub restore_sql_reader : Process → List Text × Fault → Outcome
  unfolding on_fault import_rest
  restore_sql_reader p source =
      on_fault p.pipe (λ why. refused (codes "Failed to create import pipe: " ++ why))
        (on_fault p.starts (λ why. refused (codes "Restore failed, mysql failed to start"))
          (let opening = write_string p.room keys_off in
            on_fault opening.1
              (λ why.
                record (refused
                  (codes "Restore failed, mysql import initialization failed: " ++ why)) {
                    events = filled opening.0 ∷ [];
                  })
              (import_rest p source opening.0)))

  unfoldable pub restore_from_gz : Process → BackupFile → Outcome
  unfolding on_fault on_reply restore_sql_reader
  restore_from_gz p f =
      on_fault f.opens (λ why. refused (codes "Failed to read backup file"))
        (on_reply f.gzip
          (λ why. refused (codes "Restore failed, gzip file is corrupted or has an invalid format"))
          (restore_sql_reader p))

  unfoldable pub restore_from_sql : Process → BackupFile → Outcome
  unfolding on_fault restore_sql_reader
  restore_from_sql p f =
      on_fault f.opens (λ why. refused (codes "Failed to read backup file"))
        (restore_sql_reader p f.plain)

  unfoldable pub restore_from_zip : Process → BackupFile → Outcome
  unfolding on_reply restore_sql_reader
  restore_from_zip p f =
      on_reply f.zip (λ why. refused (codes "Failed to unzip"))
        (λ members. elim (sql_member lower_rest members) [
          | none ↦ refused (codes "No .sql file found in the zip archive")
          | some m ↦
              on_reply m.opens (λ why. refused (codes "Failed to read file inside zip"))
                (restore_sql_reader p)
        ])

  unfoldable pub restore_by_format : Text → Process → BackupFile → Outcome
  unfolding restore_from_gz restore_from_sql restore_from_zip
  restore_by_format ext p f =
      let lower = map (to_lower lower_rest) ext in
      if text_eq lower (codes ".gz")
      then restore_from_gz p f
      else if text_eq lower (codes ".sql")
      then restore_from_sql p f
      else if text_eq lower (codes ".zip")
      then restore_from_zip p f
      else refused (codes "Unsupported backup file format")

  -- `clean`, `join_path` and `ext_of` are filepath.Clean, filepath.Join and filepath.Ext.
  module _ (clean : Text → Text) (join_path : List Text → Text) (ext_of : Text → Text) where
    -- none where the path is refused.
    unfoldable pub restore_path : Text → RestoreBackupPayload → Option Text
    restore_path backup_dir p =
        if not (text_eq p.file_path [])
        then if has_prefix (clean p.file_path) (codes "/tmp/")
          then some (clean p.file_path)
          else none
        else some
            (join_path (join_path (backup_dir ∷ p.domain ∷ codes "db" ∷ []) ∷ p.filename ∷ []))

    -- What follows the emptying; a script that was run comes before all else.
    abbrev pub after_clearing : Option Text → Fault → Outcome → Outcome
    after_clearing none fault o = o
    after_clearing (some script) fault o = record o { events = emptied script fault ∷ o.events }

    unfoldable pub restore_file : RestoreAnswers → RestoreBackupPayload → Text → Outcome
    unfolding on_fault clear_database_tables restore_by_format validate_restore_backup_file
    restore_file s p path =
        on_fault
          (validate_restore_backup_file upper_rest lower_rest (ext_of path) (s.validated path))
          (λ why. refused (codes "Restore file validation failed: " ++ why))
          (let clearing = clear_database_tables p.db_name s.db_pass s.listing s.listed s.clearing in
            on_fault clearing.0
              (λ why.
                after_clearing clearing.1 clearing.0
                  (refused (codes "Failed to clear database: " ++ why)))
              (after_clearing clearing.1 clearing.0
                (restore_by_format (ext_of path) s.importing (s.imported path))))

    unfoldable pub execute_restore_backup : RestoreAnswers → Option RestoreBackupPayload → Outcome
    unfolding restore_path restore_file
    execute_restore_backup s none = refused (codes "Invalid task payload type")
    execute_restore_backup s (some p) =
        if text_eq s.db_pass []
        then refused (codes "Unable to read MariaDB root password")
        else (elim (restore_path s.backup_dir p) [
          | none ↦ refused (codes "Restore failed: invalid file path")
          | some path ↦ record (restore_file s p path) {
            removed = if p.remove_file_after then some path else none;
          }
        ])
