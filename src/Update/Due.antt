-- ===== src/Update/Due.antt =====
-- When `runPanelAutoUpdateCheck` of executor/panel_update_runner.go installs a release.
use wp_panel_en_private.Base.{
  ℕ, ◌+◌, ◌≤◌, ◌≡◌, refl, ap, ◌∙◌, arith, ◌⊎◌, inl, inr, Bool, true, false, not, ◌&&◌, ◌||◌, Option,
  none, some, [], ltb, if◌then◌else◌, Bool-cases, Option-cases,
}
use wp_panel_en_private.Base.Fault.{Reply, broken, given, on_reply}
use wp_panel_en_private.Base.Text.{Text, codes, text_eq, eq-text_eq}
use wp_panel_en_private.Update.{GithubRelease, Journal}
use wp_panel_en_private.Update.Policy.{
  resolve_panel_assets, is_stable_version, is_patch_bump, within_auto_update_window,
}
use wp_panel_en_private.Update.Machine.{
  PanelConfig, System, UpdateReply, refused, waiting_signature, updated,
}
use wp_panel_en_private.Update.Checks.{is_newer}
use wp_panel_en_private.Update.Install.{execute_panel_update}
use wp_panel_en_private.Update.Verified.{Fate, execute_panel_update-Fate}
use wp_panel_en_private.Update.Auto.{
  AutoUpdateSettings, read_auto_update_settings, CheckWorld, auto_options, is_cooling,
  should_wait_for_release_delay, should_fetch_for_auto_update, start_auto_update, after_delay,
  report_update, wait_or_start, consider_release, check_by_settings, run_panel_auto_update_check,
}

module _ (print_time print print_duration : ℕ → Text) (parse_time : Text → Option ℕ) where
  module _ (sha256 : Text → Text) (ed25519 : Text → Text → Bool) (w : CheckWorld)
      (current config_path : Text) (cfg : Option PanelConfig) (now : ℕ) where
    -- The release that the check saw may be installed: updates are enabled and the clock is in their
    -- window, no attempt failed within a day, the release is newer, stable, of the kind that the
    -- settings allow, signed, and was seen at least the delay ago.
    pub record IsDue (settings : AutoUpdateSettings) (latest : GithubRelease) : Type 0 where
      pub enabled : settings.enabled ≡ true
      pub in_time : within_auto_update_window settings.window w.clock ≡ true
      pub cool : is_cooling settings now ≡ false
      pub seen : w.fetched ≡ given (some latest)
      pub newer : is_newer latest.tag_name current ≡ true
      pub stable : is_stable_version latest.tag_name ≡ true
      pub allowed :
          (text_eq settings.mode (codes "all_stable") || is_patch_bump current latest.tag_name)
          ≡ true
      pub same_target : settings.last_target_version ≡ latest.tag_name
      pub first_seen : ℕ
      pub is_first_seen : settings.last_attempt_at ≡ some first_seen
      pub mature : first_seen + settings.release_delay ≤ now
      pub has_signature : text_eq (resolve_panel_assets latest).sig_url [] ≡ false

    -- What becomes of the files: nothing; or what an update makes of them.
    pub data Checked (settings : AutoUpdateSettings) (old : Text) (s : System)
        : System → Type 0 where
      idle : {after : System} → after.files ≡ s.files → Checked settings old s after
      attempted :
          {after : System}
          → (latest : GithubRelease) (result : System × UpdateReply) → IsDue settings latest
          → Fate print_time print sha256 ed25519 w.machine
              (auto_options print_time print print_duration parse_time sha256 ed25519 w current
                config_path cfg now)
              now
              old
              result
          → after.files ≡ result.0.files
          → Checked settings old s after

    module _ (settings : AutoUpdateSettings) (old : Text) (s : System) where
      if-Checked :
          (b : Bool) (x y : System)
          → (b ≡ true → Checked settings old s x)
          → (b ≡ false → Checked settings old s y)
          → Checked settings old s (if b then x else y)
      if-Checked true x y f g = f refl
      if-Checked false x y f g = g refl

      start_auto_update-files :
          (latest : GithubRelease) (before : System)
          → (start_auto_update print_time print print_duration parse_time sha256 ed25519 w current
              config_path cfg now latest before).files
            ≡ (execute_panel_update print_time print sha256 ed25519 w.machine
                (auto_options print_time print print_duration parse_time sha256 ed25519 w current
                  config_path cfg now)
                now
                before).0.files
      unfolding start_auto_update
      start_auto_update-files latest before = go (
          execute_panel_update print_time print sha256 ed25519 w.machine
            (auto_options print_time print print_duration parse_time sha256 ed25519 w current
              config_path cfg now)
            now before)
        where
          go :
              (result : System × UpdateReply)
              → (report_update print_time print print_duration parse_time sha256 ed25519 w current
                  config_path cfg now latest result).files
                ≡ result.0.files
          go (after, refused why) = refl
          go (after, waiting_signature release) = refl
          go (after, updated release) = refl

      delay_cases :
          (version : Text) (before : Journal)
          → ((wait : ℕ) × (j : Journal) × (should_wait_for_release_delay print_time print
                  print_duration parse_time settings version now before
                ≡ (some wait, j)))
            ⊎ ((at : ℕ) × (settings.last_target_version ≡ version)
                × (settings.last_attempt_at ≡ some at)
                × (at + settings.release_delay ≤ now)
                × (should_wait_for_release_delay print_time print print_duration parse_time settings
                      version now before
                    ≡ (none, before)))
      unfolding should_wait_for_release_delay
      delay_cases version before =
          elim (Bool-cases (text_eq settings.last_target_version version)) [
            | inr e ↦ rw e (inl (_, _, refl))
            | inl e ↦ elim (Option-cases settings.last_attempt_at) [
              | inl f ↦ rw (e, f) (inl (_, _, refl))
              | inr (at, f) ↦ elim (Bool-cases (ltb now (at + settings.release_delay))) [
                | inl g ↦ rw (e, f, g) (inl (_, _, refl))
                | inr g ↦ inr (at, eq-text_eq _ _ e, f, ground arith, rw (e, f, g) refl)
              ]
            ]
          ]

      on_reply-Checked :
          {A : Type 0} (r : Reply A) (bad : System) (good : A → System)
          → Checked settings old s bad
          → ((a : A) → r ≡ given a → Checked settings old s (good a))
          → Checked settings old s (on_reply r (λ why. bad) good)
      unfolding on_reply
      on_reply-Checked (broken why) bad good b g = b
      on_reply-Checked (given a) bad good b g = g a refl

      wait_or_start-Checked :
          (latest : GithubRelease) (before : System)
          → before.files ≡ s.files
          → s.files.installed ≡ some old
          → ((at : ℕ)
              → settings.last_target_version ≡ latest.tag_name
              → settings.last_attempt_at ≡ some at
              → at + settings.release_delay ≤ now
              → text_eq (resolve_panel_assets latest).sig_url [] ≡ false
              → IsDue settings latest)
          → Checked settings old s (
              wait_or_start print_time print print_duration parse_time sha256 ed25519 w current
                config_path cfg now settings latest before)
      unfolding wait_or_start after_delay
      wait_or_start-Checked latest before same here due =
          elim (delay_cases latest.tag_name before.journal) [
            | inl (wait, j, e) ↦ rw e (idle same)
            | inr (at, target, first, old_enough, e) ↦ rw e (
                if-Checked (text_eq (resolve_panel_assets latest).sig_url []) _ _
                  (λ unsigned. idle same)
                  (λ has_signature.
                    attempted latest _ (due at target first old_enough has_signature)
                      (execute_panel_update-Fate print_time print sha256 ed25519 w.machine _ now old
                        before (ap (λ files. files.installed) same ∙ here))
                      (start_auto_update-files latest before)))
          ]

      consider_release-Checked :
          (release : Option GithubRelease) (before : System)
          → before.files ≡ s.files
          → s.files.installed ≡ some old
          → w.fetched ≡ given release
          → settings.enabled ≡ true
          → within_auto_update_window settings.window w.clock ≡ true
          → is_cooling settings now ≡ false
          → Checked settings old s (
              consider_release print_time print print_duration parse_time sha256 ed25519 w current
                config_path cfg now settings release before)
      unfolding consider_release
      consider_release-Checked none before same here fetched enabled in_time cool = idle same
      consider_release-Checked (some latest) before same here fetched enabled in_time cool =
          if-Checked (text_eq latest.tag_name []) _ _ (λ empty. idle same)
            (λ named.
              if-Checked (not (is_newer latest.tag_name current)) _ _ (λ old_release. idle same)
                (λ newer.
                  if-Checked (not (is_stable_version latest.tag_name)) _ _ (λ unstable. idle same)
                    (λ stable.
                      if-Checked
                        (not (text_eq settings.mode (codes "all_stable"))
                          && not (is_patch_bump current latest.tag_name))
                        _ _ (λ forbidden. idle same)
                        (λ allowed. wait_or_start-Checked latest before same here (λ at e f g k.
                          record {
                            enabled = enabled;
                            in_time = in_time;
                            cool = cool;
                            seen = fetched;
                            newer = ground arith;
                            stable = ground arith;
                            allowed = ground arith;
                            same_target = e;
                            first_seen = at;
                            is_first_seen = f;
                            mature = g;
                            has_signature = k;
                          })))))

      check_by_settings-Checked :
          s.files.installed ≡ some old
          → Checked settings old s (
              check_by_settings print_time print print_duration parse_time sha256 ed25519 w current
                config_path cfg now settings s)
      unfolding check_by_settings on_reply
      check_by_settings-Checked here =
          if-Checked
            (not settings.enabled || not (within_auto_update_window settings.window w.clock)) _ _
            (λ shut. idle refl)
            (λ in_time.
              if-Checked (is_cooling settings now) _ _ (λ cooling. idle refl)
                (λ cool.
                  if-Checked (not (should_fetch_for_auto_update settings now)) _ _
                    (λ early. idle refl)
                    (λ due. on_reply-Checked w.fetched _ _ (idle refl) (λ release e.
                      consider_release-Checked release _ refl here e (ground arith) (ground arith)
                        cool))))

  -- A check of the scheduler changes no file, or it runs an update, and then the release that it saw
  -- was due: updates are enabled and the clock is in their window, the settings hold no failure of less
  -- than a day ago as the last status, and
  -- the release is newer, stable, of the kind that the settings allow, signed, and was seen at least
  -- the delay ago. The update that it runs then keeps the old binary, or puts a vetted one in its
  -- place, or fails to copy the old one back.
  pub run_panel_auto_update_check-Checked :
      (sha256 : Text → Text) (ed25519 : Text → Text → Bool) (w : CheckWorld)
      (current config_path : Text) (cfg : Option PanelConfig) (now : ℕ) (old : Text) (s : System)
      → s.files.installed ≡ some old
      → Checked sha256 ed25519 w current config_path cfg now
          (read_auto_update_settings parse_time s.journal)
          old
          s
          (run_panel_auto_update_check print_time print print_duration parse_time sha256 ed25519 w
            current config_path cfg now s)
  unfolding run_panel_auto_update_check
  run_panel_auto_update_check-Checked sha256 ed25519 w current config_path cfg now old s here =
      if-Checked sha256 ed25519 w current config_path cfg now _ old s
        (text_eq current [] || text_eq current (codes "dev")) _ _ (λ unversioned. idle refl)
        (λ versioned.
          check_by_settings-Checked sha256 ed25519 w current config_path cfg now _ old s here)
