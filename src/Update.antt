-- ===== src/Update.antt =====
-- The panel's own update, executor/panel_update_runner.go. Here: what a release, the status that the
-- page shows, the settings and the log are; the children have the status (Status), the choice of a
-- release (Policy), the files and the system's answers (Machine), the checks of a download (Checks), the
-- installation (Install, Verified), the watchdog (Watchdog, Recovery, Silence) and the scheduler (Auto, Due, Waiting, Stall).
-- Times are whole seconds, the precision of the settings.
use wp_panel_en_private.Base.{
  ℕ, ◌+◌, ◌*◌, ◌/◌, Bool, true, false, not, ◌&&◌, ◌||◌, Option, none, some, List, [], ◌∷◌, ◌++◌,
  ltb, leb, if◌then◌else◌, take,
}
use wp_panel_en_private.Base.Text.{Text, codes, text_eq}
use wp_panel_en_private.Queue.OperationLog.{operation_log_keep_rows}
pub mod Policy
pub mod Status
pub mod Machine
pub mod Checks
pub mod Install
pub mod Verified
pub mod Watchdog
pub mod Recovery
pub mod Silence
pub mod Auto
pub mod Due
pub mod Waiting
pub mod Stall
mod Samples
mod Examples

pub record Asset : Type 0 where
  pub name : Text
  pub browser_download_url : Text

pub record GithubRelease : Type 0 where
  pub tag_name : Text
  pub assets : List Asset

pub record PanelUpdateStatus : Type 0 where
  pub running : Bool
  pub completed : Bool
  pub stage : Text
  pub message : Text
  pub percent : ℕ
  pub download_percent : ℕ
  pub downloaded_bytes : ℕ
  pub total_bytes : ℕ
  pub has_total : Bool
  pub failure : Text
  pub updated_at : ℕ

pub record LogRow : Type 0 where
  pub operation : Text
  pub target : Text
  pub status : Text
  pub message : Text

-- What outlives a step, files aside: the status, the rows of the operation log and the security
-- settings, empty where there is none, and the mails sent. The last three need a database.
pub record Journal : Type 0 where
  pub status : PanelUpdateStatus
  pub has_db : Bool
  pub log : List LogRow
  pub settings : Text → Text
  pub mails : List (Text × Text)

unfoldable pub read_security_setting : Journal → Text → Text
read_security_setting j key = if j.has_db then j.settings key else []

unfoldable pub set_security_setting : Text → Text → Journal → Journal
set_security_setting key value j =
    if j.has_db
    then record j { settings = λ k. if text_eq key k then value else j.settings k }
    else j

-- `recordOperationLog`, where the database carries out both statements.
abbrev pub log_row : LogRow → Journal → Journal
log_row row j =
    if j.has_db then record j { log = take operation_log_keep_rows (row ∷ j.log) } else j

abbrev pub or_text : Text → Text → Text
or_text text default = if text_eq text [] then default else text

-- `print_time` is Format(time.RFC3339).
module _ (print_time : ℕ → Text) where
  abbrev pub set_auto_stage : Text → Text → Text → Text → ℕ → Journal → Journal
  unfolding set_security_setting
  set_auto_stage version stage status message now j =
      set_security_setting (codes "panel_auto_update_last_attempt_at") (print_time now) (
        set_security_setting (codes "panel_auto_update_last_error") message (
          set_security_setting (codes "panel_auto_update_last_stage") stage (
            set_security_setting (codes "panel_auto_update_last_status") status
              (set_security_setting (codes "panel_auto_update_last_target_version") version j))))

  unfoldable pub record_panel_update_stage :
      Text → Text → Text → Text → Text → ℕ → Journal → Journal
  unfolding set_auto_stage
  record_panel_update_stage trigger_text version stage status message now j =
      let trigger = or_text trigger_text (codes "manual") in
      let logged =
        log_row
          (record {
            operation = codes "panel_" ++ trigger ++ codes "_update";
            target = or_text version (codes "unknown");
            status = status;
            message = stage ++ codes ": " ++ message;
          })
          j in
      if text_eq trigger (codes "auto")
      then set_auto_stage version stage status message now logged
      else logged

abbrev pub stage_labels : List (Text × Text)
stage_labels =
    (codes "fetch_release", codes "fetch version info")
    ∷ (codes "compare_version", codes "version comparison")
    ∷ (codes "resolve_assets", codes "resolve assets")
    ∷ (codes "waiting_release_delay", codes "waiting release delay")
    ∷ (codes "waiting_signature", codes "waiting signature file")
    ∷ (codes "version_policy", codes "version policy check")
    ∷ (codes "download_binary", codes "download binary")
    ∷ (codes "download_sha256", codes "download checksum")
    ∷ (codes "download_signature", codes "download signature")
    ∷ (codes "verify_signature", codes "verify signature")
    ∷ (codes "verify_sha256", codes "verify integrity")
    ∷ (codes "preflight", codes "preflight new version")
    ∷ (codes "disk_check", codes "disk space check")
    ∷ (codes "backup_binary", codes "back up old version")
    ∷ (codes "backup_database", codes "back up database")
    ∷ (codes "write_rollback_plan", codes "write rollback plan")
    ∷ (codes "replace_binary", codes "replace binary")
    ∷ (codes "start_watchdog", codes "start health check")
    ∷ (codes "restart", codes "restart panel")
    ∷ (codes "health_check", codes "health check")
    ∷ (codes "rollback_binary", codes "rollback binary")
    ∷ (codes "rollback_database", codes "rollback database")
    ∷ []

abbrev pub label_in : List (Text × Text) → Text → Text
label_in [] stage = stage
label_in ((name, label) ∷ labels) stage =
    if text_eq stage name then label else label_in labels stage

unfoldable pub stage_label : Text → Text
stage_label stage = label_in stage_labels stage

-- `sendPanelUpdateMail`, where `has_mail` says whether a mail server and an address are configured; the
-- configuration is in the database. The mail's text is the label of the stage and the message.
unfoldable pub send_panel_update_mail : Bool → Text → Text → Text → Journal → Journal
unfolding stage_label
send_panel_update_mail has_mail status stage message j =
    if j.has_db && has_mail
    then record j { mails = (status, stage_label stage ++ codes ": " ++ message) ∷ j.mails }
    else j
