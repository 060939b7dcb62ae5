-- ===== src/Restore/Imported.antt =====
-- The order of a restore (executor/backup.go): validation, the emptying of the database, the import.
use wp_panel_en_private.Base.{
  ℕ, ◌≡◌, ◌≢◌, refl, ap, arith, true, not, Option, none, some, List, [], ◌∷◌, ◌++◌, if◌then◌else◌,
  if-By,
}
use wp_panel_en_private.Base.Fault.{Fault, on_fault-Both, on_fault-By}
use wp_panel_en_private.Base.Text.{Text, codes, text_eq}
use wp_panel_en_private.Restore.Sanitize.{sanitized}
use wp_panel_en_private.Restore.Validate.{validate_restore_backup_file}
use wp_panel_en_private.Restore.Import.{
  keys_off, keys_on, RestoreBackupPayload, RestoreAnswers, after_clearing, restore_path,
  restore_by_format, restore_file, execute_restore_backup,
}
use wp_panel_en_private.Restore.Clearing.{
  Event, emptied, filled, Outcome, refused, Process, is_valid_mysql_identifier,
  clear_database_tables,
}
use wp_panel_en_private.Restore.Chunks.{concat}
use wp_panel_en_private.Restore.Sent.{IsImport, source_of, restore_by_format-IsImport}
use wp_panel_en_private.Restore.Fills.{AreFills, no_fill, restore_by_format-AreFills}

abbrev IsClearing : Text → Fault × Option Text → Type 0
IsClearing db_name r =
    (r.1 ≢ none → is_valid_mysql_identifier db_name ≡ true) × (r.0 ≡ none → r.1 ≢ none)

clear_database_tables-IsClearing :
    (db_name db_pass listing : Text) (listed : Fault) (p : Process)
    → IsClearing db_name (clear_database_tables db_name db_pass listing listed p)
unfolding clear_database_tables
clear_database_tables-IsClearing db_name db_pass listing listed p =
    if-By (IsClearing db_name) (not (is_valid_mysql_identifier db_name))
      (λ e. ((λ h. absurd (h refl)), (λ h. cc (h))))
      (λ e.
        let valid : is_valid_mysql_identifier db_name ≡ true = ground (arith, e) in
        if-By (IsClearing db_name) (text_eq db_pass []) (λ e'. ((λ h. valid), (λ h. cc (h))))
          (λ e'.
            on_fault-Both (IsClearing db_name) listed (λ why. ((λ h. valid), (λ h. cc (h))))
              (on_fault-Both (IsClearing db_name) p.pipe (λ why. ((λ h. valid), (λ h. cc (h))))
                (on_fault-Both (IsClearing db_name) p.starts (λ why. ((λ h. valid), (λ h. cc (h))))
                  ((λ h. valid), (λ h q. cc (q)))))))

module _ (upper_rest lower_rest : ℕ → ℕ) (clean : Text → Text) (join_path : List Text → Text)
    (ext_of : Text → Text) where
  -- The events of a restore: none; or a script that empties the database, run after the validation of a
  -- file at an allowed path, and then nothing where the script failed, and else what an import sends, if
  -- anything.
  pub data InOrder (s : RestoreAnswers) (p : RestoreBackupPayload) : List Event → Type 0 where
    untouched : InOrder s p []
    ran :
        (path script : Text) (fault : Fault) (later : List Event)
        → restore_path upper_rest lower_rest clean join_path ext_of s.backup_dir p ≡ some path
        → validate_restore_backup_file upper_rest lower_rest (ext_of path) (s.validated path) ≡ none
        → is_valid_mysql_identifier p.db_name ≡ true
        → (fault ≢ none → later ≡ [])
        → AreFills later
        → InOrder s p (emptied script fault ∷ later)

  pub record IsOrdered (s : RestoreAnswers) (p : RestoreBackupPayload) (o : Outcome) : Type 0 where
    pub order : InOrder s p o.events
    pub whole :
        o.ok ≡ true
        → (path : Text) × (restore_path upper_rest lower_rest clean join_path ext_of s.backup_dir p
            ≡ some path)
          × (chunks : List Text) × (source_of lower_rest (ext_of path) (s.imported path)
              ≡ some (chunks, none))
          × (script : Text) × (o.events
              ≡ emptied script none
                ∷ filled (keys_off ++ (sanitized upper_rest (concat chunks) ++ keys_on))
                ∷ [])

  refused-IsOrdered :
      (s : RestoreAnswers) (p : RestoreBackupPayload) (why : Text) → IsOrdered s p (refused why)
  refused-IsOrdered s p why = record { order = untouched; whole = λ h. cc (h) }

  -- An emptying that failed.
  failed-IsOrdered :
      (s : RestoreAnswers) (p : RestoreBackupPayload) (path why message : Text)
      (script : Option Text)
      → restore_path upper_rest lower_rest clean join_path ext_of s.backup_dir p ≡ some path
      → validate_restore_backup_file upper_rest lower_rest (ext_of path) (s.validated path) ≡ none
      → (script ≢ none → is_valid_mysql_identifier p.db_name ≡ true)
      → IsOrdered s p (
          after_clearing upper_rest lower_rest clean join_path ext_of script
            (some why)
            (refused message))
  failed-IsOrdered s p path why message none found valid named = refused-IsOrdered s p message
  failed-IsOrdered s p path why message (some script) found valid named = record {
    order = ran path script (some why) [] found valid (named (λ e. cc (e))) (λ h. refl) no_fill;
    whole = λ h. cc (h);
  }

  -- One that went well, and what comes after it.
  emptied-IsOrdered :
      (s : RestoreAnswers) (p : RestoreBackupPayload) (path : Text) (script : Option Text)
      → restore_path upper_rest lower_rest clean join_path ext_of s.backup_dir p ≡ some path
      → validate_restore_backup_file upper_rest lower_rest (ext_of path) (s.validated path) ≡ none
      → (script ≢ none → is_valid_mysql_identifier p.db_name ≡ true)
      → script ≢ none
      → (o : Outcome) → AreFills o.events
      → IsImport upper_rest (source_of lower_rest (ext_of path) (s.imported path)) o
      → IsOrdered s p (after_clearing upper_rest lower_rest clean join_path ext_of script none o)
  emptied-IsOrdered s p path none found valid named run o fills whole = absurd (run refl)
  emptied-IsOrdered s p path (some script) found valid named run o fills whole = record {
    order = ran path script none o.events found valid (named run) (λ h. absurd (h refl)) fills;
    whole = λ h.
        let sent = whole h in
        (path, found, sent.0, sent.1, script, ap (λ es. emptied script none ∷ es) sent.2);
  }

  restore_file-IsOrdered :
      (s : RestoreAnswers) (p : RestoreBackupPayload) (path : Text)
      → restore_path upper_rest lower_rest clean join_path ext_of s.backup_dir p ≡ some path
      → IsOrdered s p (restore_file upper_rest lower_rest clean join_path ext_of s p path)
  unfolding restore_file
  restore_file-IsOrdered s p path found =
      let clearing = clear_database_tables p.db_name s.db_pass s.listing s.listed s.clearing in
      let lawful =
        clear_database_tables-IsClearing p.db_name s.db_pass s.listing s.listed s.clearing in
      on_fault-By (IsOrdered s p)
        (validate_restore_backup_file upper_rest lower_rest (ext_of path) (s.validated path))
        (λ why e. refused-IsOrdered s p _)
        (λ valid.
          on_fault-By (IsOrdered s p) clearing.0
            (λ why e. rw e (failed-IsOrdered s p path why _ clearing.1 found valid lawful.0))
            (λ e. rw e (
              emptied-IsOrdered s p path clearing.1 found valid lawful.0 (lawful.1 e)
                (restore_by_format upper_rest lower_rest (ext_of path) s.importing
                  (s.imported path))
                (restore_by_format-AreFills upper_rest lower_rest s.importing (ext_of path)
                  (s.imported path))
                (restore_by_format-IsImport upper_rest lower_rest (ext_of path) s.importing
                  (s.imported path)))))

  at_path-IsOrdered :
      (s : RestoreAnswers) (p : RestoreBackupPayload) (found : Option Text)
      → restore_path upper_rest lower_rest clean join_path ext_of s.backup_dir p ≡ found
      → IsOrdered s p (elim found [
        | none ↦ refused (codes "Restore failed: invalid file path")
        | some path ↦ record (restore_file upper_rest lower_rest clean join_path ext_of s p path) {
          removed = if p.remove_file_after then some path else none;
        }
      ])
  at_path-IsOrdered s p none e = refused-IsOrdered s p _
  at_path-IsOrdered s p (some path) e =
      let o = restore_file-IsOrdered s p path e in record { order = o.order; whole = o.whole }

-- A restore runs a script on the database only after the file has passed the validation, from a path
-- that is allowed and for a name that is a plain identifier; the first that it does to the database is
-- the script that empties it, and an import sends something only after that script ended without an
-- error; and where it reports success, the script and then one import is all that was done, the whole of
-- the file was read, and mysql has got its sanitized text, between switching the checks of foreign keys
-- off and on.
pub execute_restore_backup-IsOrdered :
    (upper_rest lower_rest : ℕ → ℕ) (clean : Text → Text) (join_path : List Text → Text)
    (ext_of : Text → Text) (s : RestoreAnswers) (p : RestoreBackupPayload)
    → IsOrdered upper_rest lower_rest clean join_path ext_of s p
        (execute_restore_backup upper_rest lower_rest clean join_path ext_of s (some p))
unfolding execute_restore_backup
execute_restore_backup-IsOrdered upper_rest lower_rest clean join_path ext_of s p =
    if-By (IsOrdered upper_rest lower_rest clean join_path ext_of s p) (text_eq s.db_pass [])
      (λ e. refused-IsOrdered upper_rest lower_rest clean join_path ext_of s p _)
      (λ e.
        at_path-IsOrdered upper_rest lower_rest clean join_path ext_of s p
          (restore_path upper_rest lower_rest clean join_path ext_of s.backup_dir p) refl)
