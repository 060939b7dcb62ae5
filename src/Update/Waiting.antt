-- ===== src/Update/Waiting.antt =====
-- The settings of executor/panel_update_runner.go while a release waits for its age and for its signature.
use wp_panel_en_private.Base.{
  ℕ, ◌≡◌, refl, ap, Bool, true, false, ◌||◌, Option, none, some, [], if◌then◌else◌,
}
use wp_panel_en_private.Base.Fault.{given}
use wp_panel_en_private.Base.Text.{Text, codes, text_eq}
use wp_panel_en_private.Update.{
  GithubRelease, Journal, read_security_setting, set_security_setting, record_panel_update_stage,
}
use wp_panel_en_private.Update.Policy.{is_stable_version, is_patch_bump, within_auto_update_window}
use wp_panel_en_private.Update.Checks.{is_newer}
use wp_panel_en_private.Update.Auto.{AutoUpdateSettings, read_auto_update_settings, CheckWorld}

-- The settings while a release waits: the last attempt for it was at a given time.
abbrev pub stalled : AutoUpdateSettings → Text → ℕ → AutoUpdateSettings
stalled base version at = record base {
  last_target_version = version;
  last_attempt_at = some at;
  last_check_at = some at;
  last_status = codes "waiting";
  last_stage = codes "waiting_release_delay";
}

-- The policy: the mode, the window, the release delay and the signature timeout; the release, and when
-- the wait for its signature began.
pub record Wait : Type 0 where
  pub mode : Text
  pub window : Text
  pub delay : ℕ
  pub timeout : ℕ
  pub version : Text
  pub began : ℕ

-- The panel waits for the release and for its signature, and its last attempt was at `at`.
pub record IsStalled (wait : Wait) (at : ℕ) (settings : AutoUpdateSettings) : Type 0 where
  pub enabled : settings.enabled ≡ true
  pub same_mode : settings.mode ≡ wait.mode
  pub same_window : settings.window ≡ wait.window
  pub same_delay : settings.release_delay ≡ wait.delay
  pub same_timeout : settings.signature_timeout ≡ wait.timeout
  pub waits : settings.last_status ≡ codes "waiting"
  pub targets : settings.last_target_version ≡ wait.version
  pub attempted : settings.last_attempt_at ≡ some at
  pub awaits_signature : text_eq settings.last_signature_wait_version [] ≡ false
  pub began : settings.last_signature_wait_at ≡ some wait.began

-- A check within the window, whose request gets a release of that version that may be installed,
-- whatever its files.
pub record IsOffered (wait : Wait) (current : Text) (w : CheckWorld) : Type 0 where
  pub in_time : within_auto_update_window wait.window w.clock ≡ true
  pub latest : GithubRelease
  pub seen : w.fetched ≡ given (some latest)
  pub is_version : latest.tag_name ≡ wait.version
  pub named : text_eq latest.tag_name [] ≡ false
  pub newer : is_newer latest.tag_name current ≡ true
  pub stable : is_stable_version latest.tag_name ≡ true
  pub allowed :
      (text_eq wait.mode (codes "all_stable") || is_patch_bump current latest.tag_name) ≡ true

pub stalled-IsStalled :
    (wait : Wait) (at now : ℕ) (settings : AutoUpdateSettings)
    → IsStalled wait at settings
    → IsStalled wait now (stalled settings wait.version now)
stalled-IsStalled wait at now settings h = record {
  enabled = h.enabled;
  same_mode = h.same_mode;
  same_window = h.same_window;
  same_delay = h.same_delay;
  same_timeout = h.same_timeout;
  waits = refl;
  targets = refl;
  attempted = refl;
  awaits_signature = h.awaits_signature;
  began = h.began;
}

module _ (print_time print print_duration : ℕ → Text) (parse_time : Text → Option ℕ) where
  parse-print :
      (now : ℕ)
      → parse_time (print_time now) ≡ some now
      → text_eq (print_time now) [] ≡ false
      → (if text_eq (print_time now) [] then none else parse_time (print_time now)) ≡ some now
  parse-print now parsed nonempty = rw (nonempty, parsed) refl

  unfoldable pub waits_on : Text → Text → ℕ → Journal → Journal
  waits_on version message now j =
      record_panel_update_stage print_time (codes "auto") version (codes "waiting_release_delay")
        (codes "waiting") message now
        (set_security_setting (codes "panel_auto_update_last_check_at") (print_time now) j)

  pub waits_on-has_db :
      (version message : Text) (now : ℕ) (j : Journal)
      → j.has_db ≡ true
      → (waits_on version message now j).has_db ≡ true
  unfolding waits_on record_panel_update_stage set_security_setting
  waits_on-has_db version message now j open_db = go j.has_db open_db
    where
      go :
          (has_db : Bool)
          → has_db ≡ true
          → (waits_on version message now (record j { has_db = has_db })).has_db ≡ true
      go false e = e
      go true e = refl

  pub read-waits_on :
      (j : Journal) (version message : Text) (now : ℕ)
      → j.has_db ≡ true
      → parse_time (print_time now) ≡ some now
      → text_eq (print_time now) [] ≡ false
      → read_auto_update_settings parse_time (waits_on version message now j)
        ≡ stalled (read_auto_update_settings parse_time j) version now
  unfolding waits_on read_auto_update_settings record_panel_update_stage set_security_setting
      read_security_setting
  read-waits_on j version message now open_db parsed nonempty = go j.has_db open_db
    where
      go :
          (has_db : Bool)
          → has_db ≡ true
          → read_auto_update_settings parse_time
              (waits_on version message now (record j { has_db = has_db }))
            ≡ stalled
                (read_auto_update_settings parse_time (record j { has_db = has_db }))
                version
                now
      go false e = cc
      go true e =
          ap
            (λ at.
              record (stalled (read_auto_update_settings parse_time (record j { has_db = true }))
                version now) { last_attempt_at = at; last_check_at = at })
            (parse-print now parsed nonempty)
