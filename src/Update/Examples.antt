-- ===== src/Update/Examples.antt =====
-- The theorems on the panel's update at concrete releases, settings and answers of the system.
use wp_panel_en_private.Base.{◌≡◌, refl, arith, true, false, some, []}
use wp_panel_en_private.Base.Fault.{given}
use wp_panel_en_private.Base.Text.{codes, split, trim_space}
use wp_panel_en_private.Base.Int.{atoi}
use wp_panel_en_private.Update.{GithubRelease, set_security_setting, record_panel_update_stage}
use wp_panel_en_private.Version.{compare_versions}
use wp_panel_en_private.Update.Policy.{
  within_auto_update_window, is_stable_version, is_patch_bump, parse_stable_semver,
}
use wp_panel_en_private.Update.Install.{execute_panel_update}
use wp_panel_en_private.Update.Verified.{Fate, execute_panel_update-Fate}
use wp_panel_en_private.Update.Watchdog.{
  should_restore_db, binary_restored, finish_rollback, run_update_watchdog,
}
use wp_panel_en_private.Update.Silence.{finish_rollback_silent}
use wp_panel_en_private.Update.Recovery.{Outcome, run_update_watchdog-Outcome}
use wp_panel_en_private.Update.Auto.{read_auto_update_settings, run_panel_auto_update_check}
use wp_panel_en_private.Update.Due.{Checked, run_panel_auto_update_check-Checked}
use wp_panel_en_private.Update.Waiting.{IsStalled, IsOffered}
use wp_panel_en_private.Update.Stall.{IsPolling, run_checks, last_time, run_checks-IsStalled}
use wp_panel_en_private.Update.Samples.{
  print, parse, sha256, ed25519, release, config, options, world, journal, system, watched, plan,
  host, check_world, wait, unsigned_release, three_polls,
}

execute_panel_update-Fate_example :
    Fate print print sha256 ed25519 world options 50
      (codes "old")
      (execute_panel_update print print sha256 ed25519 world options 50 system)
execute_panel_update-Fate_example =
    execute_panel_update-Fate print print sha256 ed25519 world options 50 (codes "old") system refl

run_update_watchdog-Outcome_example :
    Outcome watched host
      (codes "old")
      (codes "new")
      (run_update_watchdog print print watched plan 60 host)
run_update_watchdog-Outcome_example =
    run_update_watchdog-Outcome print print watched plan 60 (codes "old") (codes "new") host refl
      refl

unreadable :
    should_restore_db plan.backup_db
      (binary_restored print print watched plan 60 host).system.journal.has_db
      watched.queries
    ≡ true
unfolding should_restore_db record_panel_update_stage set_security_setting
unreadable = refl

finish_rollback_silent_example :
    (finish_rollback print print watched plan 60
      (codes "health check timed out")
      host).system.journal
    ≡ record journal { log = []; settings = λ key. []; has_db = false }
finish_rollback_silent_example =
    finish_rollback_silent print print watched plan 60 (codes "health check timed out")
      (codes "rows") host unreadable refl refl refl refl refl

run_panel_auto_update_check-Checked_example :
    Checked print print print parse sha256 ed25519 check_world
      (codes "1.6.0")
      []
      (some config)
      9000
      (read_auto_update_settings parse journal)
      (codes "old")
      system
      (run_panel_auto_update_check print print print parse sha256 ed25519 check_world
        (codes "1.6.0")
        []
        (some config)
        9000
        system)
run_panel_auto_update_check-Checked_example =
    run_panel_auto_update_check-Checked print print print parse sha256 ed25519 check_world
      (codes "1.6.0") [] (some config) 9000 (codes "old") system refl

settings-IsStalled : IsStalled wait 1000 (read_auto_update_settings parse journal)
unfolding read_auto_update_settings atoi
settings-IsStalled = record {
  enabled = refl;
  same_mode = refl;
  same_window = refl;
  same_delay = refl;
  same_timeout = refl;
  waits = refl;
  targets = refl;
  attempted = refl;
  awaits_signature = refl;
  began = refl;
}

offered :
    (now : GithubRelease)
    → now.tag_name ≡ codes "v1.6.1"
    → IsOffered wait (codes "1.6.0") (record check_world { fetched = given (some now) })
unfolding within_auto_update_window is_stable_version is_patch_bump compare_versions split
    trim_space parse_stable_semver atoi
offered now named = record {
  in_time = refl;
  latest = now;
  seen = refl;
  is_version = named;
  named = rw named refl;
  newer = rw named refl;
  stable = rw named refl;
  allowed = rw named refl;
}

polled :
    IsPolling print print print parse sha256 ed25519
      (codes "1.6.0")
      []
      (some config)
      wait
      1000
      three_polls
unfolding IsPolling
polled = (
  omega arith,
  omega arith,
  offered unsigned_release refl,
  (
    omega arith,
    omega arith,
    offered release refl,
    (omega arith, omega arith, offered release refl, tt),
  ),
)

run_checks-IsStalled_example :
    ((run_checks print print print parse sha256 ed25519
        (codes "1.6.0")
        []
        (some config)
        three_polls
        system).files
      ≡ system.files)
    × IsStalled wait
        (last_time print print print parse sha256 ed25519
          (codes "1.6.0")
          []
          (some config)
          1000
          three_polls)
        (read_auto_update_settings parse
          (run_checks print print print parse sha256 ed25519
            (codes "1.6.0")
            []
            (some config)
            three_polls
            system).journal)
run_checks-IsStalled_example =
    run_checks-IsStalled print print print parse sha256 ed25519 (codes "1.6.0") [] (some config)
      (λ now. refl) (λ now. refl) wait 1000 three_polls system refl refl polled settings-IsStalled
