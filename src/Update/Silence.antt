-- ===== src/Update/Silence.antt =====
-- What the rollback of `RunUpdateWatchdog` (executor/panel_update_runner.go) records once it has restored the
-- database, which closes it.
use wp_panel_en_private.Base.{
  ℕ, ◌≡◌, refl, arith, ap, ◌∙◌, true, false, inl, inr, Bool-cases, none, some, [], if-Both,
}
use wp_panel_en_private.Base.Fault.{Fault, on_fault}
use wp_panel_en_private.Base.Text.{Text, codes, text_eq}
use wp_panel_en_private.Update.{
  Journal, or_text, set_security_setting, record_panel_update_stage, send_panel_update_mail,
}
use wp_panel_en_private.Update.Machine.{copies, copy_panel_file, RollbackPlan}
use wp_panel_en_private.Update.Watchdog.{
  WatchWorld, Host, stage_row, should_restore_db, restore_db_file, restore_row, restore_database,
  binary_restored, failure_rows, finish_rollback,
}

module _ (print_time print : ℕ → Text) (w : WatchWorld) (plan : RollbackPlan) (now : ℕ) where
  IsSilent : (Journal → Journal) → Type 0
  IsSilent f = (j : Journal) → f (record j { has_db = false }) ≡ record j { has_db = false }

  stage_row-IsSilent :
      (stage status message : Text)
      → IsSilent (stage_row print_time print w plan now stage status message)
  unfolding IsSilent record_panel_update_stage set_security_setting
  stage_row-IsSilent stage status message j =
      if-Both (λ (after : Journal). after ≡ record j { has_db = false })
        (text_eq (or_text plan.trigger (codes "manual")) (codes "auto")) refl refl

  restore_row-IsSilent : (fault : Fault) → IsSilent (restore_row print_time print w plan now fault)
  restore_row-IsSilent none = stage_row-IsSilent _ _ _
  restore_row-IsSilent (some why) = stage_row-IsSilent _ _ _

  failure_rows-IsSilent :
      (message : Text) → IsSilent (failure_rows print_time print w plan now message)
  unfolding IsSilent set_security_setting send_panel_update_mail failure_rows
  failure_rows-IsSilent message j =
      if-Both (λ (after : Journal). after ≡ record j { has_db = false })
        (text_eq plan.trigger (codes "auto")) refl refl

  -- A journal with the rows of a file, the database closed.
  abbrev with_rows : Text → Journal → Journal
  with_rows content j = record j {
    log = (w.rows_of (some content)).log;
    settings = (w.rows_of (some content)).settings;
    has_db = false;
  }

  restore_db_file-rows :
      (h : Host) (content : Text)
      → w.has_config ≡ true
      → text_eq plan.backup_db [] ≡ false
      → w.verifies_backup ≡ none
      → w.closes ≡ none
      → w.copies_database ≡ copies
      → w.db_backup ≡ some content
      → (restore_db_file w plan.backup_db h).0.system.journal ≡ with_rows content h.system.journal
  unfolding restore_db_file on_fault copy_panel_file
  restore_db_file-rows h content configured saved sound closed copied held =
      elim (Bool-cases h.system.journal.has_db) [
        | inl e ↦ simp (configured, saved, sound, closed, copied, held, e)
        | inr e ↦ simp (configured, saved, sound, closed, copied, held, e)
      ]

  binary_restored-rows :
      (h : Host) (content : Text)
      → with_rows content (binary_restored print_time print w plan now h).system.journal
        ≡ with_rows content h.system.journal
  unfolding record_panel_update_stage set_security_setting
  binary_restored-rows h content = ground arith

  restore_database-rows :
      (h : Host) (content : Text)
      → should_restore_db plan.backup_db h.system.journal.has_db w.queries ≡ true
      → w.has_config ≡ true
      → w.verifies_backup ≡ none
      → w.closes ≡ none
      → w.copies_database ≡ copies
      → w.db_backup ≡ some content
      → (restore_database print_time print w plan now h).system.journal
        ≡ with_rows content h.system.journal
  unfolding restore_database IsSilent should_restore_db
  restore_database-rows h content wanted configured sound closed copied held =
      let restored = restore_db_file w plan.backup_db h in
      let saved : text_eq plan.backup_db [] ≡ false = ground arith in
      rw wanted (
        ap (restore_row print_time print w plan now restored.1)
          (restore_db_file-rows h content configured saved sound closed copied held)
        ∙ restore_row-IsSilent restored.1 (with_rows content h.system.journal))

  -- Where the rollback restores the database, with a configuration and a sound backup, the database
  -- closes and the backup is copied over its file, what the rollback records is gone: the log and the
  -- settings are those that the backup holds, whatever stood there before, so the row of the old binary
  -- is lost with the rest, and neither the row that says how the restoring went nor the failed status,
  -- stage and error of the update nor the mail comes after, since the database stays closed.
  pub finish_rollback_silent :
      (message content : Text) (h : Host)
      → should_restore_db plan.backup_db
          (binary_restored print_time print w plan now h).system.journal.has_db
          w.queries
        ≡ true
      → w.has_config ≡ true
      → w.verifies_backup ≡ none
      → w.closes ≡ none
      → w.copies_database ≡ copies
      → w.db_backup ≡ some content
      → (finish_rollback print_time print w plan now message h).system.journal
        ≡ record h.system.journal {
          log = (w.rows_of (some content)).log;
          settings = (w.rows_of (some content)).settings;
          has_db = false;
        }
  unfolding finish_rollback IsSilent
  finish_rollback_silent message content h wanted configured sound closed copied held =
      let recorded = binary_restored print_time print w plan now h in
      ap (failure_rows print_time print w plan now message)
        (restore_database-rows recorded content wanted configured sound closed copied held)
      ∙ (failure_rows-IsSilent message (with_rows content recorded.system.journal)
          ∙ binary_restored-rows h content)
