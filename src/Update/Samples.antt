-- ===== src/Update/Samples.antt =====
-- Releases, settings and answers of the system for the examples of the panel's update.
use wp_panel_en_private.Base.{
  ℕ, ◌*◌, Bool, true, false, Option, none, some, List, [], ◌∷◌, ◌++◌, ltb, if◌then◌else◌,
}
use wp_panel_en_private.Base.Fault.{given}
use wp_panel_en_private.Base.Text.{Text, codes, text_eq}
use wp_panel_en_private.Update.{GithubRelease, Journal}
use wp_panel_en_private.Update.Status.{StatusEvent, steps, downloads, fails, polls, idle_status}
use wp_panel_en_private.Update.Machine.{
  copies, PanelConfig, UpdateOptions, RollbackPlan, System, World,
}
use wp_panel_en_private.Update.Watchdog.{WatchWorld, Host}
use wp_panel_en_private.Update.Auto.{CheckWorld}
use wp_panel_en_private.Update.Waiting.{Wait}

abbrev pub print : ℕ → Text
print n = n ∷ []

abbrev pub parse : Text → Option ℕ
parse (n ∷ []) = some n
parse _ = none

abbrev pub digest : Text
digest = codes "0123456789abcdef0123456789abcdef0123456789abcdef0123456789abcdef"

abbrev pub sha256 : Text → Text
sha256 content = digest

abbrev pub ed25519 : Text → Text → Bool
ed25519 message sig = text_eq sig digest

abbrev pub release : GithubRelease
release = record {
  tag_name = codes "v1.6.1";
  assets =
      record { name = codes "wp-panel"; browser_download_url = codes "https://host/wp-panel" }
      ∷ record { name = codes "wp-panel.sha256"; browser_download_url = codes "https://host/sum" }
      ∷ record {
        name = codes "wp-panel.sha256.sig";
        browser_download_url = codes "https://host/sig";
      }
      ∷ [];
}

abbrev pub config : PanelConfig
config = record {
  backup_dir = codes "/var/backups";
  port = 8080;
  tls_port = 0;
  tls_cert_path = [];
  tls_key_path = [];
}

abbrev pub options : UpdateOptions
options = record {
  trigger = [];
  current_version = codes "1.6.0";
  config_path = codes "/etc/panel.json";
  config = some config;
  use_watchdog = true;
}

abbrev pub world : World
world = record {
  is_linux = true;
  is_locked = false;
  fetched = given (some release);
  makes_dir = none;
  downloads_binary = given (codes "new");
  sets_mode = none;
  downloads_sha256 = given (digest ++ codes "  wp-panel");
  downloads_signature = given digest;
  preflight = none;
  finds_systemd_run = none;
  binary_size = given 3;
  free_space = λ dir. given (200 * 1024 * 1024);
  copies_backup = copies;
  backs_up_database = given (codes "/var/backups/panel.db");
  verifies_backup = none;
  writes_plan = none;
  writes_plan_path = none;
  copies_staged = copies;
  renames = none;
  sets_installed_mode = none;
  starts_watchdog = none;
  copies_back = copies;
}

abbrev pub settings : Text → Text
settings key =
    if text_eq key (codes "panel_auto_update_enabled")
    then codes "true"
    else if text_eq key (codes "panel_auto_update_last_status")
    then codes "waiting"
    else if text_eq key (codes "panel_auto_update_last_target_version")
    then codes "v1.6.1"
    else if text_eq key (codes "panel_auto_update_last_attempt_at")
    then print 1000
    else if text_eq key (codes "panel_auto_update_signature_wait_version")
    then codes "v1.6.1"
    else if text_eq key (codes "panel_auto_update_signature_wait_at")
    then print 1000
    else []

abbrev pub journal : Journal
journal = record {
  status = idle_status 0;
  has_db = true;
  log = [];
  settings = settings;
  mails = [];
}

abbrev pub system : System
system = record {
  files = record {
    installed = some (codes "old");
    staged = none;
    backup = none;
    plan = none;
    watchdog = false;
    restarting = false;
  };
  journal = journal;
}

abbrev pub events : List StatusEvent
events =
    steps (codes "preflight") (codes "preflighting new version...") 82 7
    ∷ downloads 30 40 8
    ∷ fails (codes "no route") 9
    ∷ polls 600
    ∷ []

-- The third request is answered.
abbrev pub watched : WatchWorld
watched = record {
  health = λ k. (20, if ltb k 2 then some (codes "refused") else none);
  copies_back = copies;
  queries = true ∷ false ∷ true ∷ true ∷ [];
  verifies_backup = none;
  closes = none;
  db_backup = some (codes "rows");
  copies_database = copies;
  rows_of = λ file. record { log = []; settings = λ key. [] };
  has_config = true;
  has_mail = true;
  removed_databases = 0;
  removed_binaries = 1;
}

abbrev pub plan : RollbackPlan
plan = record {
  current_version = codes "1.6.0";
  target_version = codes "v1.6.1";
  backup_db = codes "/var/backups/panel.db";
  config_path = codes "/etc/panel.json";
  health_url = codes "http://127.0.0.1:8080/healthz";
  created_at = 50;
  trigger = codes "auto";
}

abbrev pub host : Host
host = record {
  system = record system {
    files = record system.files {
      installed = some (codes "new");
      backup = some (codes "old");
      plan = some plan;
    };
  };
  database = some (codes "rows");
}

abbrev pub check_world : CheckWorld
check_world = record {
  fetched = given (some release);
  machine = world;
  clock = 200;
  has_mail = true;
}

abbrev pub wait : Wait
wait = record {
  mode = codes "patch_only";
  window = codes "03:00-05:00";
  delay = 15 * 60;
  timeout = 120 * 60;
  version = codes "v1.6.1";
  began = 1000;
}

abbrev pub unsigned_release : GithubRelease
unsigned_release = record {
  tag_name = codes "v1.6.1";
  assets =
      record { name = codes "wp-panel"; browser_download_url = codes "https://host/wp-panel" }
      ∷ record { name = codes "wp-panel.sha256"; browser_download_url = codes "https://host/sum" }
      ∷ [];
}

-- A check before the signature is published, and two after.
abbrev pub three_polls : List (ℕ × CheckWorld)
three_polls =
    (1600, record check_world { fetched = given (some unsigned_release) })
    ∷ (2200, check_world)
    ∷ (2800, check_world)
    ∷ []
