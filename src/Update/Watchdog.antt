-- ===== src/Update/Watchdog.antt =====
-- `RunUpdateWatchdog` of executor/panel_update_runner.go: the process, started from the old binary, that
-- waits for the new one to answer and puts the old one back if it does not.
use wp_panel_en_private.Base.{
  ℕ, zero, suc, ◌+◌, Bool, true, false, not, ◌&&◌, ◌||◌, Option, none, some, List, [], ◌++◌, ltb,
  leb, if◌then◌else◌, all,
}
use wp_panel_en_private.Base.Fault.{Fault, on_fault}
use wp_panel_en_private.Base.Text.{Text, codes, text_eq}
use wp_panel_en_private.Update.{
  Journal, LogRow, log_row, set_security_setting, record_panel_update_stage, send_panel_update_mail,
}
use wp_panel_en_private.Update.Machine.{
  CopyReply, cannot_open, breaks_off, copies, copy_panel_file, RollbackPlan, System,
}

-- The rows that a database file holds, of the operation log and of the settings.
pub record DbRows : Type 0 where
  pub log : List LogRow
  pub settings : Text → Text

-- How long the k-th request for the health page takes, in seconds, and its outcome; whether the database
-- answers the questions for its version and for three tables; the answers of the files, and which rows
-- are in a file of the database.
pub record WatchWorld : Type 0 where
  pub health : ℕ → ℕ × Fault
  pub copies_back : CopyReply
  pub queries : List Bool
  pub verifies_backup : Fault
  pub closes : Fault
  pub db_backup : Option Text
  pub copies_database : CopyReply
  pub rows_of : Option Text → DbRows
  pub has_config : Bool
  pub has_mail : Bool
  pub removed_databases : ℕ
  pub removed_binaries : ℕ

-- The machine as the watchdog sees it: the database's file besides the panel's. The journal is what the
-- open database holds; once that is closed it stays as it was, or becomes what the file that is copied
-- over it holds.
pub record Host : Type 0 where
  pub system : System
  pub database : Option Text

pub data Health : Type 0 where
  healthy : ℕ → Health
  timed_out : Option Text → Health

-- The loop up to the deadline of 90 seconds, after a wait of 3 seconds before each request. `elapsed`
-- is the time so far, `k` the number of requests made, `failure` the last error; none is a lack of fuel.
unfoldable pub await_health : (ℕ → ℕ × Fault) → ℕ → ℕ → ℕ → Option Text → Option Health
await_health health zero elapsed k failure = none
await_health health (suc fuel) elapsed k failure =
    let again = await_health health fuel (elapsed + 3 + (health k).0) (suc k) (health k).1 in
    if leb 90 elapsed
    then some (timed_out failure)
    else (elim ((health k).1) [ none ↦ some (healthy k) | some why ↦ again ])

abbrev pub watch_fuel : ℕ
watch_fuel = 31

unfoldable pub should_restore_db : Text → Bool → List Bool → Bool
should_restore_db backup has_db answers =
    not (text_eq backup []) && (not has_db || not (all (λ ok. ok) answers))

abbrev pub close_database : Host → Host
close_database h = record h {
  system = record h.system { journal = record h.system.journal { has_db = false } };
}

-- The rows after a copy that leaves this file: one that cannot begin leaves the rows that were there.
abbrev pub left_rows : WatchWorld → Option Text → CopyReply → Journal → Journal
left_rows w file (cannot_open why) j = j
left_rows w file (breaks_off why) j = record j {
  log = (w.rows_of file).log;
  settings = (w.rows_of file).settings;
}
left_rows w file copies j = record j {
  log = (w.rows_of file).log;
  settings = (w.rows_of file).settings;
}

-- The machine afterwards, and the error. The database is closed by then, whatever its closing answers.
unfoldable pub restore_db_file : WatchWorld → Text → Host → Host × Fault
unfolding copy_panel_file on_fault
restore_db_file w backup h =
    if not w.has_config || text_eq backup []
    then (h, none)
    else on_fault w.verifies_backup (λ why. (h, some why))
        (on_fault (if h.system.journal.has_db then w.closes else none)
          (λ why. (close_database h, some why))
          (let copied = copy_panel_file w.copies_database w.db_backup h.database in
            (
              record h {
                system = record h.system {
                  journal = record (left_rows w copied.0 w.copies_database h.system.journal) {
                    has_db = false;
                  };
                };
                database = copied.0;
              },
              copied.1,
            )))

module _ (print_time print : ℕ → Text) (w : WatchWorld) (plan : RollbackPlan) (now : ℕ) where
  abbrev pub stage_row : Text → Text → Text → Journal → Journal
  stage_row stage status message =
      record_panel_update_stage print_time plan.trigger plan.target_version stage status message now

  abbrev pub send_mail : Text → Text → Text → Journal → Journal
  send_mail = send_panel_update_mail w.has_mail

  abbrev pub cleanup_row : Text → ℕ → Journal → Journal
  cleanup_row message removed j =
      if ltb 0 removed
      then log_row
          (record {
            operation = codes "panel_" ++ plan.trigger ++ codes "_update";
            target = plan.target_version;
            status = codes "success";
            message = message;
          })
          j
      else j

  abbrev pub cleanup_panel_update_backups : Journal → Journal
  cleanup_panel_update_backups j =
      cleanup_row
        (codes "cleanup_binary_backups: cleaned up "
          ++ print w.removed_binaries
          ++ codes " old binary backups")
        w.removed_binaries
        (if text_eq plan.backup_db []
          then j
          else cleanup_row
              (codes "cleanup_database_backups: cleaned up "
                ++ print w.removed_databases
                ++ codes " old database backups")
              w.removed_databases j)

  abbrev pub if_auto : (Journal → Journal) → Journal → Journal
  if_auto f j = if text_eq plan.trigger (codes "auto") then f j else j

  abbrev pub drop_plan : Journal → Host → Host
  drop_plan j h = record h {
    system = record { files = record h.system.files { plan = none }; journal = j };
  }

  unfoldable pub accept_update : Host → Host
  unfolding set_security_setting
  accept_update h =
      let recorded =
        stage_row (codes "health_check") (codes "success") (codes "post-update health check passed")
          h.system.journal in
      let told =
        if_auto
          (send_mail (codes "success") (codes "health_check")
            (codes "auto-update successful, health check passed"))
          recorded in
      let set =
        set_security_setting (codes "panel_auto_update_last_success_version") plan.target_version (
          set_security_setting (codes "panel_auto_update_last_success_at") (print_time now) (
            set_security_setting (codes "panel_auto_update_last_status") (codes "success") told)) in
      drop_plan (cleanup_panel_update_backups set) h

  abbrev pub timeout_message : Option Text → Text
  timeout_message none = codes "health check timed out"
  timeout_message (some why) = codes "health check timed out" ++ codes ": " ++ why

  abbrev pub restore_row : Fault → Journal → Journal
  restore_row none =
      stage_row (codes "rollback_database") (codes "success") (codes "database backup restored")
  restore_row (some why) =
      stage_row (codes "rollback_database") (codes "failed")
        (codes "failed to restore database: " ++ why)

  abbrev pub after_restore : Host × Fault → Host
  after_restore (h, fault) = record h {
    system = record h.system { journal = restore_row fault h.system.journal };
  }

  -- The old binary is back; then the database, if the new version left it unreadable.
  unfoldable pub restore_database : Host → Host
  unfolding should_restore_db restore_db_file
  restore_database h =
      if should_restore_db plan.backup_db h.system.journal.has_db w.queries
      then after_restore (restore_db_file w plan.backup_db h)
      else h

  unfoldable pub failure_rows : Text → Journal → Journal
  unfolding set_security_setting
  failure_rows message j =
      if_auto
        (send_mail (codes "failed") (codes "health_check")
          (message ++ codes "; attempted to roll back to old version"))
        (set_security_setting (codes "panel_auto_update_last_error") message (
          set_security_setting (codes "panel_auto_update_last_stage") (codes "health_check")
            (set_security_setting (codes "panel_auto_update_last_status") (codes "failed") j)))

  abbrev pub binary_restored : Host → Host
  binary_restored h = record h {
    system = record h.system {
      journal =
          stage_row (codes "rollback_binary") (codes "success") (codes "old binary restored")
            h.system.journal;
    };
  }

  unfoldable pub finish_rollback : Text → Host → Host
  unfolding restore_database
  finish_rollback message h =
      let restored = restore_database (binary_restored h) in
      record restored {
        system = record {
          files = record restored.system.files { plan = none; restarting = true };
          journal = failure_rows message restored.system.journal;
        };
      }

  unfoldable pub reject_update : Option Text → Host → Host
  unfolding on_fault
  reject_update failure h =
      let message = timeout_message failure in
      let recorded = stage_row (codes "health_check") (codes "failed") message h.system.journal in
      let copied = copy_panel_file w.copies_back h.system.files.backup h.system.files.installed in
      let files = record h.system.files { installed = copied.0 } in
      on_fault copied.1
        (λ why.
          let failed = codes "failed to restore old binary: " ++ why in
          record h {
            system = record {
              files = files;
              journal =
                  send_mail (codes "failed") (codes "rollback_binary") failed
                    (stage_row (codes "rollback_binary") (codes "failed") failed recorded);
            };
          })
        (finish_rollback message
          (record h { system = record { files = files; journal = recorded } }))

  unfoldable pub run_update_watchdog : Host → Option Host
  unfolding await_health
  run_update_watchdog h = elim (await_health w.health watch_fuel 0 0 none) [
    | none ↦ none
    | some (healthy k) ↦ some (accept_update h)
    | some (timed_out failure) ↦ some (reject_update failure h)
  ]

-- The plan's file at a start of the panel: not there, or not read as a plan, or a plan.
pub data PlanFile : Type 0 where
  missing : PlanFile
  garbled : Text → PlanFile
  planned : RollbackPlan → PlanFile

-- Where there is a configuration.
unfoldable pub finalize_pending_panel_update : (ℕ → Text) → PlanFile → Text → ℕ → Journal → Journal
unfolding record_panel_update_stage
finalize_pending_panel_update print_time missing current now j = j
finalize_pending_panel_update print_time (garbled why) current now j =
    record_panel_update_stage print_time (codes "unknown") [] (codes "finalize") (codes "failed")
      (codes "failed to read rollback plan: " ++ why) now j
finalize_pending_panel_update print_time (planned plan) current now j =
    if text_eq current plan.target_version
    then record_panel_update_stage print_time plan.trigger plan.target_version
        (codes "new_process_started") (codes "running")
        (codes "new version process started, waiting for watchdog health check") now j
    else j
