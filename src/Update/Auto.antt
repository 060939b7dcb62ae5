-- ===== src/Update/Auto.antt =====
-- `runPanelAutoUpdateCheck` of executor/panel_update_runner.go, which the scheduler calls every ten minutes.
use wp_panel_en_private.Base.{
  ℕ, ◌+◌, ◌-◌, ◌*◌, Bool, true, false, not, ◌&&◌, ◌||◌, Option, none, some, [], ◌++◌, ltb, leb,
  if◌then◌else◌,
}
use wp_panel_en_private.Base.Fault.{Reply, on_reply}
use wp_panel_en_private.Base.Text.{Text, codes, text_eq}
use wp_panel_en_private.Base.Int.{ℤ, pos, negsuc, atoi}
use wp_panel_en_private.Update.{
  GithubRelease, Journal, read_security_setting, set_security_setting, record_panel_update_stage,
  or_text, send_panel_update_mail,
}
use wp_panel_en_private.Update.Policy.{
  resolve_panel_assets, is_stable_version, is_patch_bump, within_auto_update_window,
}
use wp_panel_en_private.Update.Machine.{
  PanelConfig, UpdateOptions, System, World, UpdateReply, refused, waiting_signature, updated,
}
use wp_panel_en_private.Update.Checks.{is_newer}
use wp_panel_en_private.Update.Install.{execute_panel_update}

-- In seconds.
abbrev pub auto_update_fetch_interval : ℕ
auto_update_fetch_interval = 24 * 60 * 60

abbrev pub auto_update_failure_cooldown : ℕ
auto_update_failure_cooldown = 24 * 60 * 60

-- Durations in seconds; a time is none where it is Go's zero time.
pub record AutoUpdateSettings : Type 0 where
  pub enabled : Bool
  pub mode : Text
  pub window : Text
  pub release_delay : ℕ
  pub signature_timeout : ℕ
  pub last_target_version : Text
  pub last_check_at : Option ℕ
  pub last_attempt_at : Option ℕ
  pub last_status : Text
  pub last_stage : Text
  pub last_signature_wait_version : Text
  pub last_signature_wait_at : Option ℕ

abbrev pub minutes_or : ℕ → Option ℤ → ℕ
minutes_or fallback none = fallback * 60
minutes_or fallback (some (pos v)) = if leb v 0 then fallback * 60 else v * 60
minutes_or fallback (some (negsuc v)) = fallback * 60

abbrev pub parse_setting_minutes : Journal → Text → ℕ → ℕ
parse_setting_minutes j key fallback = minutes_or fallback (atoi (read_security_setting j key))

-- `parse_time` is time.Parse(time.RFC3339, v), none where it fails.
module _ (parse_time : Text → Option ℕ) where
  abbrev pub parse_setting_time : Journal → Text → Option ℕ
  parse_setting_time j key =
      let v = read_security_setting j key in if text_eq v [] then none else parse_time v

  unfoldable pub read_auto_update_settings : Journal → AutoUpdateSettings
  unfolding read_security_setting
  read_auto_update_settings j = record {
    enabled = text_eq (read_security_setting j (codes "panel_auto_update_enabled")) (codes "true");
    mode = or_text (read_security_setting j (codes "panel_auto_update_mode")) (codes "patch_only");
    window =
        or_text (read_security_setting j (codes "panel_auto_update_window")) (codes "03:00-05:00");
    release_delay = parse_setting_minutes j (codes "panel_auto_update_release_delay_minutes") 15;
    signature_timeout =
        parse_setting_minutes j (codes "panel_auto_update_signature_timeout_minutes") 120;
    last_target_version = read_security_setting j (codes "panel_auto_update_last_target_version");
    last_check_at = parse_setting_time j (codes "panel_auto_update_last_check_at");
    last_attempt_at = parse_setting_time j (codes "panel_auto_update_last_attempt_at");
    last_status = read_security_setting j (codes "panel_auto_update_last_status");
    last_stage = read_security_setting j (codes "panel_auto_update_last_stage");
    last_signature_wait_version =
        read_security_setting j (codes "panel_auto_update_signature_wait_version");
    last_signature_wait_at = parse_setting_time j (codes "panel_auto_update_signature_wait_at");
  }

-- now.Sub(at) <= limit and now.Sub(at) >= limit, where a limit is positive; false at the zero time.
abbrev pub within : ℕ → ℕ → Option ℕ → Bool
within now limit none = false
within now limit (some at) = leb now (at + limit)

abbrev pub since : ℕ → ℕ → Option ℕ → Bool
since now limit none = false
since now limit (some at) = leb (at + limit) now

unfoldable pub is_waiting_for_signature : AutoUpdateSettings → ℕ → Bool
is_waiting_for_signature settings now =
    text_eq settings.last_status (codes "waiting")
    && not (text_eq settings.last_signature_wait_version [])
    && within now settings.signature_timeout settings.last_signature_wait_at

unfoldable pub is_release_delay_ready : AutoUpdateSettings → ℕ → Bool
is_release_delay_ready settings now =
    text_eq settings.last_status (codes "waiting")
    && text_eq settings.last_stage (codes "waiting_release_delay")
    && not (text_eq settings.last_target_version [])
    && since now settings.release_delay settings.last_attempt_at

unfoldable pub should_fetch_for_auto_update : AutoUpdateSettings → ℕ → Bool
unfolding is_waiting_for_signature is_release_delay_ready
should_fetch_for_auto_update settings now =
    is_waiting_for_signature settings now
    || is_release_delay_ready settings now
    || (elim settings.last_check_at [
      | none ↦ true
      | some at ↦ leb (at + auto_update_fetch_interval) now
    ])

-- LastAttemptAt.After(now - the cooldown), of a failed attempt.
abbrev pub is_cooling : AutoUpdateSettings → ℕ → Bool
is_cooling settings now =
    text_eq settings.last_status (codes "failed") && (elim settings.last_attempt_at [
      | none ↦ false
      | some at ↦ ltb now (at + auto_update_failure_cooldown)
    ])

-- What a check needs of the outside: the answer to its own request for the newest release, the machine
-- during the update that may follow, the minute of the day, and whether mail is configured.
pub record CheckWorld : Type 0 where
  pub fetched : Reply (Option GithubRelease)
  pub machine : World
  pub clock : ℕ
  pub has_mail : Bool

-- `print_duration` is Duration.String.
module _ (print_time print print_duration : ℕ → Text) (parse_time : Text → Option ℕ) where
  -- The time to wait, none where the release is old enough, and the settings afterwards.
  unfoldable pub should_wait_for_release_delay :
      AutoUpdateSettings → Text → ℕ → Journal → Option ℕ × Journal
  unfolding set_security_setting
  should_wait_for_release_delay settings version now j =
      let marked =
        set_security_setting (codes "panel_auto_update_last_attempt_at") (print_time now)
          (set_security_setting (codes "panel_auto_update_last_target_version") version j) in
      if not (text_eq settings.last_target_version version)
      then (some settings.release_delay, marked)
      else elim settings.last_attempt_at [
        | none ↦ (some settings.release_delay, marked)
        | some at ↦
            if ltb now (at + settings.release_delay)
            then (some (at + settings.release_delay - now), j)
            else (none, j)
      ]

  abbrev pub signature_times_out : Bool → Text → ℕ → Journal → Journal
  signature_times_out has_mail version now j =
      let message = codes "waiting signature file timed out; wp-panel.sha256.sig not found" in
      send_panel_update_mail has_mail (codes "failed") (codes "waiting_signature") message (
        record_panel_update_stage print_time (codes "auto") version (codes "waiting_signature")
          (codes "failed") message now j)

  abbrev pub signature_waits : Text → ℕ → Journal → Journal
  signature_waits version =
      record_panel_update_stage print_time (codes "auto") version (codes "waiting_signature")
        (codes "waiting") (codes "wp-panel.sha256.sig not found, waiting for signature release")

  unfoldable pub handle_waiting_signature : Bool → AutoUpdateSettings → Text → ℕ → Journal → Journal
  unfolding set_security_setting
  handle_waiting_signature has_mail settings version now j =
      let begun = signature_waits version now (
        set_security_setting (codes "panel_auto_update_signature_wait_at") (print_time now)
          (set_security_setting (codes "panel_auto_update_signature_wait_version") version j)) in
      if not (text_eq settings.last_signature_wait_version version)
      then begun
      else elim settings.last_signature_wait_at [
        | none ↦ begun
        | some at ↦
            if ltb (at + settings.signature_timeout) now
            then signature_times_out has_mail version now j
            else signature_waits version now j
      ]

  abbrev pub set_journal : (Journal → Journal) → System → System
  set_journal f s = record s { journal = f s.journal }

  module _ (sha256 : Text → Text) (ed25519 : Text → Text → Bool) (w : CheckWorld)
      (current config_path : Text) (cfg : Option PanelConfig) (now : ℕ) where
    abbrev pub auto_options : UpdateOptions
    auto_options = record {
      trigger = codes "auto";
      current_version = current;
      config_path = config_path;
      config = cfg;
      use_watchdog = true;
    }

    abbrev pub report_update : GithubRelease → System × UpdateReply → System
    report_update latest (s, refused why) =
        set_journal
          (λ j.
            send_panel_update_mail w.has_mail (codes "failed")
              (read_security_setting j (codes "panel_auto_update_last_stage")) why j)
          s
    report_update latest (s, waiting_signature release) = s
    report_update latest (s, updated release) = s

    unfoldable pub start_auto_update : GithubRelease → System → System
    unfolding execute_panel_update read_security_setting
    start_auto_update latest s =
        report_update latest
          (execute_panel_update print_time print sha256 ed25519 w.machine auto_options now s)

    unfoldable pub after_delay :
        AutoUpdateSettings → GithubRelease → Option ℕ × Journal → System → System
    unfolding handle_waiting_signature start_auto_update
    after_delay settings latest (some wait, j) s = record s {
      journal =
          record_panel_update_stage print_time (codes "auto") latest.tag_name
            (codes "waiting_release_delay") (codes "waiting")
            (codes "waiting for release maturity: " ++ print_duration wait) now j;
    }
    after_delay settings latest (none, j) s =
        if text_eq (resolve_panel_assets latest).sig_url []
        then record s {
          journal = handle_waiting_signature w.has_mail settings latest.tag_name now j;
        }
        else start_auto_update latest (record s { journal = j })

    unfoldable pub wait_or_start : AutoUpdateSettings → GithubRelease → System → System
    unfolding should_wait_for_release_delay
    wait_or_start settings latest s =
        after_delay settings latest
          (should_wait_for_release_delay settings latest.tag_name now s.journal) s

    unfoldable pub consider_release : AutoUpdateSettings → Option GithubRelease → System → System
    unfolding wait_or_start
    consider_release settings none s = s
    consider_release settings (some latest) s =
        if text_eq latest.tag_name []
        then s
        else if not (is_newer latest.tag_name current)
        then s
        else if not (is_stable_version latest.tag_name)
        then s
        else if not (text_eq settings.mode (codes "all_stable"))
            && not (is_patch_bump current latest.tag_name)
        then set_journal
            (record_panel_update_stage print_time (codes "auto") latest.tag_name
              (codes "version_policy") (codes "skipped")
              (codes "current policy only allows patch auto-updates") now)
            s
        else wait_or_start settings latest s

    -- The check with the settings that it has read.
    unfoldable pub check_by_settings : AutoUpdateSettings → System → System
    unfolding consider_release should_fetch_for_auto_update set_security_setting
    check_by_settings settings s =
        if not settings.enabled || not (within_auto_update_window settings.window w.clock)
        then s
        else if is_cooling settings now
        then s
        else if not (should_fetch_for_auto_update settings now)
        then s
        else let checked =
            set_journal
              (set_security_setting (codes "panel_auto_update_last_check_at") (print_time now)) s in
          on_reply w.fetched (λ why. checked) (λ release. consider_release settings release checked)

    unfoldable pub run_panel_auto_update_check : System → System
    unfolding check_by_settings read_auto_update_settings
    run_panel_auto_update_check s =
        if text_eq current [] || text_eq current (codes "dev")
        then s
        else check_by_settings (read_auto_update_settings parse_time s.journal) s
