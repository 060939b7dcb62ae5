-- ===== src/Update/Machine.antt =====
-- What an update of executor/panel_update_runner.go works on: the answers of the system to its calls, its
-- options, and the files.
use wp_panel_en_private.Base.{ℕ, Bool, true, false, Option, none, some}
use wp_panel_en_private.Base.Fault.{Fault, Reply}
use wp_panel_en_private.Base.Text.{Text, codes}
use wp_panel_en_private.Update.{GithubRelease, Journal}

-- `copyPanelFile`: it cannot open one of the files; it breaks off, and removes what it wrote; or it
-- copies.
pub data CopyReply : Type 0 where
  cannot_open : Text → CopyReply
  breaks_off : Text → CopyReply
  copies : CopyReply

unfoldable pub copy_panel_file : CopyReply → Option Text → Option Text → Option Text × Fault
copy_panel_file (cannot_open why) src dst = (dst, some why)
copy_panel_file (breaks_off why) src dst = (none, some why)
copy_panel_file copies none dst = (dst, some (codes "no such file or directory"))
copy_panel_file copies (some content) dst = (some content, none)

-- The parts of the configuration that an update reads.
pub record PanelConfig : Type 0 where
  pub backup_dir : Text
  pub port : ℕ
  pub tls_port : ℕ
  pub tls_cert_path : Text
  pub tls_key_path : Text

pub record UpdateOptions : Type 0 where
  pub trigger : Text
  pub current_version : Text
  pub config_path : Text
  pub config : Option PanelConfig
  pub use_watchdog : Bool

pub record RollbackPlan : Type 0 where
  pub current_version : Text
  pub target_version : Text
  pub backup_db : Text
  pub config_path : Text
  pub health_url : Text
  pub created_at : ℕ
  pub trigger : Text

-- The binary in place, the one beside it, the backup of this update, the plan for the watchdog, and
-- whether a watchdog and a restart of the panel were started. A binary is its content.
pub record Files : Type 0 where
  pub installed : Option Text
  pub staged : Option Text
  pub backup : Option Text
  pub plan : Option RollbackPlan
  pub watchdog : Bool
  pub restarting : Bool

pub record System : Type 0 where
  pub files : Files
  pub journal : Journal

pub record World : Type 0 where
  pub is_linux : Bool
  pub is_locked : Bool
  pub fetched : Reply (Option GithubRelease)
  pub makes_dir : Fault
  pub downloads_binary : Reply Text
  pub sets_mode : Fault
  pub downloads_sha256 : Reply Text
  pub downloads_signature : Reply Text
  pub preflight : Fault
  pub finds_systemd_run : Fault
  pub binary_size : Reply ℕ
  pub free_space : Text → Reply ℕ
  pub copies_backup : CopyReply
  pub backs_up_database : Reply Text
  pub verifies_backup : Fault
  pub writes_plan : Fault
  pub writes_plan_path : Fault
  pub copies_staged : CopyReply
  pub renames : Fault
  pub sets_installed_mode : Fault
  pub starts_watchdog : Fault
  pub copies_back : CopyReply

pub data UpdateReply : Type 0 where
  refused : Text → UpdateReply
  waiting_signature : GithubRelease → UpdateReply
  updated : GithubRelease → UpdateReply

abbrev pub is_some {ℓ} : {A : Type ℓ} → Option A → Bool
is_some none = false
is_some (some a) = true
