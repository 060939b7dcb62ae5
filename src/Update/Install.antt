-- ===== src/Update/Install.antt =====
-- `ExecutePanelUpdate` of executor/panel_update_runner.go: from the newest release to the new binary in
-- place. Every call of the system that can fail has its answer in a `World`; the time is that of the
-- whole update.
use wp_panel_en_private.Base.{ℕ, Bool, true, not, ◌&&◌, Option, none, some, [], ◌++◌, if◌then◌else◌}
use wp_panel_en_private.Base.Fault.{on_fault, on_reply}
use wp_panel_en_private.Base.Text.{Text, codes, text_eq}
use wp_panel_en_private.Update.{GithubRelease, or_text, record_panel_update_stage}
use wp_panel_en_private.Update.Policy.{resolve_panel_assets}
use wp_panel_en_private.Update.Status.{
  idle_status, step_status, failed_status, completed_status, with_status, panel_update_fail,
}
use wp_panel_en_private.Update.Machine.{
  copy_panel_file, UpdateOptions, RollbackPlan, Files, System, World, UpdateReply, refused,
  waiting_signature, updated, is_some,
}
use wp_panel_en_private.Update.Checks.{
  verify_sha256, verify_ed25519, check_update_disk_space, health_url, is_newer,
}

-- `print` is fmt's %d, `sha256` gives the digest in hexadecimal digits, and `ed25519` verifies a message
-- and a signature by the key of the releases.
module _ (print_time print : ℕ → Text) (sha256 : Text → Text) (ed25519 : Text → Text → Bool) where
  module _ (w : World) (opts : UpdateOptions) (now : ℕ) where
    abbrev pub trigger : Text
    trigger = or_text opts.trigger (codes "manual")

    abbrev pub journal_step : Text → Text → ℕ → System → System
    journal_step stage message percent s = record s {
      journal = with_status (step_status stage message percent now) s.journal;
    }

    abbrev pub stop_update : Text → Text → Text → System → System × UpdateReply
    stop_update version stage message s = (
      record s {
        journal = panel_update_fail print_time trigger version stage message now s.journal;
      },
      refused message,
    )

    abbrev pub set_files : Files → System → System
    set_files files s = record s { files = files }

    -- The restart is only started: it comes half a second later.
    unfoldable pub restart_panel : GithubRelease → System → System × UpdateReply
    restart_panel latest s =
        let restarting = journal_step (codes "restart") (codes "restarting panel...") 98 s in
        let recorded =
          record_panel_update_stage print_time trigger latest.tag_name (codes "restart")
            (codes "running") (codes "binary replacement complete, restarting wp-panel") now
            restarting.journal in
        (
          record {
            files = record s.files { restarting = true };
            journal =
                with_status
                  (completed_status
                    (codes
                      "update files replaced, panel is restarting and awaiting health check...")
                    now)
                  recorded;
          },
          updated latest,
        )

    -- The old binary is copied back over the new one.
    unfoldable pub roll_back : Text → Text → (Text → Text) → Text → System → System × UpdateReply
    roll_back version stage failed done s =
        let copied = copy_panel_file w.copies_back s.files.backup s.files.installed in
        on_fault copied.1
          (λ why.
            stop_update version stage (failed why)
              (set_files (record s.files { installed = copied.0 }) s))
          (stop_update version stage done (set_files (record s.files { installed = copied.0 }) s))

    -- The plan is written, and has its path, where there is a configuration and a watchdog is wanted.
    abbrev pub has_plan : Bool
    has_plan = opts.use_watchdog && is_some opts.config

    unfoldable pub start_watchdog : GithubRelease → System → System × UpdateReply
    start_watchdog latest s =
        if has_plan
        then on_fault w.starts_watchdog
            (λ why.
              roll_back latest.tag_name (codes "start_watchdog")
                (λ failed.
                  codes
                    "failed to start update health check process, and failed to restore old binary: "
                  ++ failed)
                (codes "failed to start update health check process: " ++ why) s)
            (restart_panel latest (set_files (record s.files { watchdog = true }) s))
        else restart_panel latest s

    unfoldable pub set_installed_mode : GithubRelease → System → System × UpdateReply
    set_installed_mode latest s =
        on_fault w.sets_installed_mode
          (λ why.
            roll_back latest.tag_name (codes "replace_binary")
              (λ failed.
                codes "permission set failed after replace, and auto-rollback failed: " ++ failed)
              (codes "permission set failed after replace, rolled back: " ++ why) s)
          (start_watchdog latest s)

    -- The new binary beside the old one, then in its place by a rename.
    unfoldable pub replace_binary : GithubRelease → Text → System → System × UpdateReply
    unfolding copy_panel_file
    replace_binary latest binary s₀ =
        let s = journal_step (codes "replace_binary") (codes "replacing panel binary...") 92 s₀ in
        let copied = copy_panel_file w.copies_staged (some binary) none in
        on_fault copied.1
          (λ why.
            stop_update latest.tag_name (codes "replace_binary")
              (codes "failed to stage new version: " ++ why)
              (set_files (record s.files { staged = none }) s))
          (on_fault w.renames
            (λ why.
              stop_update latest.tag_name (codes "replace_binary")
                (codes "replace failed, old version preserved: " ++ why)
                (set_files (record s.files { staged = none }) s))
            (set_installed_mode latest
              (set_files (record s.files { staged = none; installed = copied.0 }) s)))

    abbrev pub rollback_plan : GithubRelease → Text → RollbackPlan
    rollback_plan latest backup_db = record {
      current_version = opts.current_version;
      target_version = latest.tag_name;
      backup_db = backup_db;
      config_path = opts.config_path;
      health_url = health_url print sha256 ed25519 opts.config;
      created_at = now;
      trigger = trigger;
    }

    unfoldable pub write_plan : GithubRelease → Text → Text → System → System × UpdateReply
    unfolding health_url
    write_plan latest binary backup_db s =
        if has_plan
        then on_fault w.writes_plan
            (λ why.
              stop_update latest.tag_name (codes "write_rollback_plan")
                (codes "failed to write rollback plan: " ++ why) s)
            (let written =
                set_files (record s.files { plan = some (rollback_plan latest backup_db) }) s in
              on_fault w.writes_plan_path
                (λ why.
                  stop_update latest.tag_name (codes "write_rollback_plan")
                    (codes "failed to write rollback plan: " ++ why) written)
                (replace_binary latest binary written))
        else replace_binary latest binary s

    unfoldable pub back_up_database : GithubRelease → Text → System → System × UpdateReply
    unfolding write_plan
    back_up_database latest binary s =
        if is_some opts.config
        then on_reply w.backs_up_database
            (λ why.
              stop_update latest.tag_name (codes "backup_database")
                (codes "failed to back up panel database: " ++ why) s)
            (λ path.
              on_fault w.verifies_backup
                (λ why.
                  stop_update latest.tag_name (codes "backup_database")
                    (codes "database backup verification failed: " ++ why) s)
                (write_plan latest binary path s))
        else write_plan latest binary [] s

    unfoldable pub back_up : GithubRelease → Text → System → System × UpdateReply
    unfolding copy_panel_file back_up_database
    back_up latest binary s₀ =
        let s = journal_step (codes "backup") (codes "backing up current version...") 88 s₀ in
        let copied = copy_panel_file w.copies_backup s.files.installed none in
        on_fault copied.1
          (λ why.
            stop_update latest.tag_name (codes "backup_binary")
              (codes "failed to back up old version: " ++ why)
              (set_files (record s.files { backup = copied.0 }) s))
          (back_up_database latest binary (set_files (record s.files { backup = copied.0 }) s))

    unfoldable pub check_disk : GithubRelease → Text → System → System × UpdateReply
    unfolding check_update_disk_space
    check_disk latest binary s₀ =
        let s = journal_step (codes "disk_check") (codes "checking disk space...") 84 s₀ in
        on_fault (check_update_disk_space print sha256 ed25519 w opts.config)
          (λ why. stop_update latest.tag_name (codes "disk_check") why s) (back_up latest binary s)

    unfoldable pub preflight : GithubRelease → Text → System → System × UpdateReply
    unfolding check_disk
    preflight latest binary s₀ =
        let s = journal_step (codes "preflight") (codes "preflighting new version...") 82 s₀ in
        on_fault w.preflight
          (λ why.
            stop_update latest.tag_name (codes "preflight")
              (codes "new version preflight check failed: " ++ why) s)
          (on_fault (if opts.use_watchdog then w.finds_systemd_run else none)
            (λ why.
              stop_update latest.tag_name (codes "preflight")
                (codes "systemd-run unavailable, cannot start standalone update watchdog: " ++ why)
                s)
            (check_disk latest binary s))

    -- The signature of the checksum file first, then the checksum of the binary.
    unfoldable pub verify : GithubRelease → Text → Text → Text → System → System × UpdateReply
    unfolding verify_ed25519 verify_sha256
    verify latest binary sha_file sig s₀ =
        let s =
          journal_step (codes "verify_signature") (codes "verifying update source...") 72 s₀ in
        on_fault (verify_ed25519 print sha256 ed25519 sha_file sig)
          (λ why.
            stop_update latest.tag_name (codes "verify_signature")
              (codes "signature verification failed: " ++ why) s)
          (let s' =
              journal_step (codes "verify_sha256") (codes "verifying update package integrity...")
                78 s in
            on_fault (verify_sha256 print sha256 ed25519 binary sha_file)
              (λ why.
                stop_update latest.tag_name (codes "verify_sha256")
                  (codes "SHA256 checksum verification failed: " ++ why) s')
              (preflight latest binary s'))

    unfoldable pub download_checks : GithubRelease → Text → System → System × UpdateReply
    download_checks latest binary s₀ =
        let s =
          journal_step (codes "download_sha256") (codes "downloading checksum file...") 62 s₀ in
        on_reply w.downloads_sha256
          (λ why.
            stop_update latest.tag_name (codes "download_sha256")
              (codes "SHA256 checksum file download failed: " ++ why) s)
          (λ sha_file.
            let s' =
              journal_step (codes "download_signature") (codes "downloading signature file...") 66
                s in
            on_reply w.downloads_signature
              (λ why.
                stop_update latest.tag_name (codes "download_signature")
                  (codes "signature file download failed: " ++ why) s')
              (λ sig. verify latest binary sha_file sig s'))

    -- The progress of the download changes the status only while it lasts.
    unfoldable pub download : GithubRelease → System → System × UpdateReply
    download latest s₀ =
        let s =
          journal_step (codes "prepare_download") (codes "creating temporary directory...") 12 s₀ in
        on_fault w.makes_dir
          (λ why.
            stop_update latest.tag_name (codes "prepare_download")
              (codes "failed to create temporary directory: " ++ why) s)
          (let s' =
              journal_step (codes "download_binary") (codes "downloading update package...") 15 s in
            on_reply w.downloads_binary
              (λ why.
                stop_update latest.tag_name (codes "download_binary")
                  (codes "update package download failed: " ++ why) s')
              (λ binary.
                on_fault w.sets_mode
                  (λ why.
                    stop_update latest.tag_name (codes "download_binary")
                      (codes "failed to set new binary permissions: " ++ why) s')
                  (download_checks latest binary s')))

    unfoldable pub await_signature : GithubRelease → System → System × UpdateReply
    await_signature latest s =
        let shown =
          with_status
            (failed_status (codes "Ed25519 signature file not found, waiting for signature release")
              now)
            s.journal in
        (
          record s {
            journal =
                record_panel_update_stage print_time trigger latest.tag_name
                  (codes "waiting_signature") (codes "waiting")
                  (codes "wp-panel.sha256.sig not found, waiting for signature release") now shown;
          },
          waiting_signature latest,
        )

    unfoldable pub choose_assets : GithubRelease → System → System × UpdateReply
    unfolding resolve_panel_assets
    choose_assets latest s₀ =
        let s = journal_step (codes "resolve_assets") (codes "preparing update files...") 10 s₀ in
        let found = resolve_panel_assets latest in
        if text_eq found.binary_url []
        then stop_update latest.tag_name (codes "resolve_assets")
            (codes "no binary found for current system") s
        else if text_eq found.sha256_url []
        then stop_update latest.tag_name (codes "resolve_assets")
            (codes "SHA256 checksum file not found, unable to verify update integrity") s
        else if text_eq found.sig_url []
        then await_signature latest s
        else download latest s

    unfoldable pub examine : Option GithubRelease → System → System × UpdateReply
    examine none s =
        stop_update [] (codes "fetch_release")
          (codes "failed to fetch version info: release is empty") s
    examine (some latest) s =
        if text_eq latest.tag_name []
        then stop_update [] (codes "fetch_release")
            (codes "failed to fetch version info: release is empty") s
        else if not (is_newer latest.tag_name opts.current_version)
        then stop_update latest.tag_name (codes "compare_version") (codes "already up to date") s
        else choose_assets latest s

    abbrev pub begin_update : System → System
    begin_update s =
        let reset = with_status (λ st. idle_status now) s.journal in
        journal_step (codes "fetch_release") (codes "fetching version info...") 5 (record s {
          journal =
              record_panel_update_stage print_time trigger [] (codes "fetch_release")
                (codes "running") (codes "fetching version info") now reset;
        })

    unfoldable pub execute_panel_update : System → System × UpdateReply
    execute_panel_update s =
        if not w.is_linux
        then (s, refused (codes "only Linux servers are supported for updates"))
        else if w.is_locked
        then (s, refused (codes "an update is already in progress, please try again later"))
        else on_reply w.fetched
            (λ why.
              stop_update [] (codes "fetch_release") (codes "failed to fetch version info: " ++ why)
                (begin_update s))
            (λ release. examine release (begin_update s))
