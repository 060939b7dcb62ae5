-- ===== src/Update/Stall.antt =====
-- How the wait for a release's age and the wait for its signature, both of executor/panel_update_runner.go,
-- act on each other.
use wp_panel_en_private.Base.{
  ℕ, ◌+◌, ◌-◌, ◌≤◌, ◌<◌, ◌≡◌, refl, ap, subst, sym, ◌∙◌, arith, Bool, true, false, not, ◌&&◌, ◌||◌,
  Option, some, List, [], ◌∷◌, ltb, if_false,
}
use wp_panel_en_private.Base.Fault.{on_reply}
use wp_panel_en_private.Base.Text.{Text, codes, text_eq, text_eq_refl}
use wp_panel_en_private.Update.{
  GithubRelease, Journal, set_security_setting, record_panel_update_stage,
}
use wp_panel_en_private.Update.Policy.{is_patch_bump, within_auto_update_window}
use wp_panel_en_private.Update.Machine.{PanelConfig, System}
use wp_panel_en_private.Update.Auto.{
  AutoUpdateSettings, read_auto_update_settings, CheckWorld, is_cooling,
  should_wait_for_release_delay, should_fetch_for_auto_update, is_waiting_for_signature,
  after_delay, wait_or_start, consider_release, check_by_settings, run_panel_auto_update_check,
}
use wp_panel_en_private.Update.Waiting.{
  Wait, IsStalled, IsOffered, stalled-IsStalled, waits_on, waits_on-has_db, read-waits_on,
}

-- A panel that was not built as a release.
abbrev pub unversioned : Text → Bool
unversioned current = text_eq current [] || text_eq current (codes "dev")

not-true : (b : Bool) → b ≡ true → not b ≡ false
not-true b e = ap not e

neither : (a b : Bool) → (a || b) ≡ true → (not a && not b) ≡ false
neither true b e = refl
neither false true e = refl
neither false false e = cc

module _ (print_time print print_duration : ℕ → Text) (parse_time : Text → Option ℕ) where
  module _ (sha256 : Text → Text) (ed25519 : Text → Text → Bool) (current config_path : Text)
      (cfg : Option PanelConfig) where
    abbrev pub run_checks : List (ℕ × CheckWorld) → System → System
    run_checks [] s = s
    run_checks ((now, w) ∷ polls) s = run_checks polls (
        run_panel_auto_update_check print_time print print_duration parse_time sha256 ed25519 w
          current config_path cfg now s)

    -- Checks, each less than the delay after the one before and none after the signature timeout.
    unfoldable pub IsPolling : Wait → ℕ → List (ℕ × CheckWorld) → Type 0
    IsPolling wait at [] = Unit
    IsPolling wait at ((now, w) ∷ polls) =
        (now < at + wait.delay)
        × (now ≤ wait.began + wait.timeout)
        × IsOffered wait current w
        × IsPolling wait now polls

    abbrev pub last_time : ℕ → List (ℕ × CheckWorld) → ℕ
    last_time at [] = at
    last_time at ((now, w) ∷ polls) = last_time now polls

    module _ (w : CheckWorld) (now : ℕ) (wait : Wait) (at : ℕ) (settings : AutoUpdateSettings) where
      fetches :
          now ≤ wait.began + wait.timeout
          → IsStalled wait at settings
          → should_fetch_for_auto_update settings now ≡ true
      unfolding should_fetch_for_auto_update is_waiting_for_signature
      fetches in_wait h = rw (h.waits, h.awaits_signature, h.began, h.same_timeout) (ground arith)

      is_warm : IsStalled wait at settings → is_cooling settings now ≡ false
      is_warm h = rw h.waits refl

      still_young :
          (j : Journal)
          → now < at + wait.delay
          → IsStalled wait at settings
          → should_wait_for_release_delay print_time print print_duration parse_time settings
              wait.version now j
            ≡ (some (at + wait.delay - now), j)
      unfolding should_wait_for_release_delay
      still_young j close h =
          let young : ltb now (at + wait.delay) ≡ true = ground arith in
          rw (h.targets, text_eq_refl wait.version, h.attempted, h.same_delay, young) refl

      wait_stalled :
          (latest : GithubRelease) (s : System)
          → latest.tag_name ≡ wait.version
          → now < at + wait.delay
          → IsStalled wait at settings
          → (message : Text) × (wait_or_start print_time print print_duration parse_time sha256
                ed25519 w current config_path cfg now settings latest s
              ≡ record s {
                journal =
                    record_panel_update_stage print_time
                      (codes "auto")
                      latest.tag_name
                      (codes "waiting_release_delay")
                      (codes "waiting")
                      message
                      now
                      s.journal;
              })
      unfolding wait_or_start after_delay
      wait_stalled latest s is_version close h = (
        _,
        ap
            (λ delay.
              after_delay print_time print print_duration parse_time sha256 ed25519 w current
                config_path cfg now settings latest delay s)
            (ap
                (λ version.
                  should_wait_for_release_delay print_time print print_duration parse_time settings
                    version now s.journal)
                is_version
              ∙ still_young s.journal close h),
      )

      consider_stalled :
          (offer : IsOffered wait current w) (s : System)
          → now < at + wait.delay
          → IsStalled wait at settings
          → (message : Text) × (consider_release print_time print print_duration parse_time sha256
                ed25519 w current config_path cfg now settings
                (some offer.latest)
                s
              ≡ record s {
                journal =
                    record_panel_update_stage print_time
                      (codes "auto")
                      wait.version
                      (codes "waiting_release_delay")
                      (codes "waiting")
                      message
                      now
                      s.journal;
              })
      unfolding consider_release
      consider_stalled offer s close h =
          let (message, e) = wait_stalled offer.latest s offer.is_version close h in
          (
            message,
            if_false _ _ _ offer.named
                ∙ if_false _ _ _ (not-true _ offer.newer)
                ∙ if_false _ _ _ (not-true _ offer.stable)
                ∙ if_false
                    (not (text_eq settings.mode (codes "all_stable"))
                      && not (is_patch_bump current offer.latest.tag_name))
                    _ _ (rw h.same_mode (neither _ _ offer.allowed))
                ∙ e
                ∙ ap
                    (λ version. record s {
                      journal =
                          record_panel_update_stage print_time (codes "auto") version
                            (codes "waiting_release_delay") (codes "waiting") message now s.journal;
                    })
                    offer.is_version,
          )

      check_stalled :
          (s : System)
          → now < at + wait.delay
          → now ≤ wait.began + wait.timeout
          → IsOffered wait current w
          → IsStalled wait at settings
          → (message : Text) × (check_by_settings print_time print print_duration parse_time sha256
                ed25519 w current config_path cfg now settings s
              ≡ record s {
                journal =
                    waits_on print_time print print_duration parse_time wait.version message now
                      s.journal;
              })
      unfolding check_by_settings waits_on on_reply
      check_stalled s close in_wait offer h =
          let checked : System = record s {
            journal =
                set_security_setting (codes "panel_auto_update_last_check_at") (print_time now)
                  s.journal;
          } in
          let (message, e) = consider_stalled offer checked close h in
          (
            message,
            if_false
                  (not settings.enabled || not (within_auto_update_window settings.window w.clock))
                  _ _ (rw (h.enabled, h.same_window, offer.in_time) refl)
                ∙ if_false _ _ _ (is_warm h)
                ∙ if_false _ _ _ (not-true _ (fetches in_wait h))
                ∙ ap
                    (λ reply.
                      on_reply reply (λ why. checked)
                        (λ release.
                          consider_release print_time print print_duration parse_time sha256 ed25519
                            w current config_path cfg now settings release checked))
                    offer.seen
                ∙ e,
          )

    module _ (parsed : (now : ℕ) → parse_time (print_time now) ≡ some now)
        (nonempty : (now : ℕ) → text_eq (print_time now) [] ≡ false) (wait : Wait) where
      run_stalled :
          (w : CheckWorld) (at now : ℕ) (s : System)
          → unversioned current ≡ false
          → s.journal.has_db ≡ true
          → now < at + wait.delay
          → now ≤ wait.began + wait.timeout
          → IsOffered wait current w
          → IsStalled wait at (read_auto_update_settings parse_time s.journal)
          → (message : Text) × (run_panel_auto_update_check print_time print print_duration
                parse_time sha256 ed25519 w current config_path cfg now s
              ≡ record s {
                journal =
                    waits_on print_time print print_duration parse_time wait.version message now
                      s.journal;
              })
      unfolding run_panel_auto_update_check
      run_stalled w at now s named open_db close in_wait offer h =
          let (message, e) =
            check_stalled w now wait at (read_auto_update_settings parse_time s.journal) s close
              in_wait offer h in
          (message, if_false (text_eq current [] || text_eq current (codes "dev")) _ _ named ∙ e)

      -- A panel with a version and a database reads times as it wrote them, and waits for the signature
      -- of a release. Checks inside the window that get that release, which may be installed, each less
      -- than the release delay after the one before and none after the signature timeout, change no
      -- file, whether or not the signature has been published: each only makes the release delay begin
      -- anew, so that the panel waits as before, from the last check on.
      pub run_checks-IsStalled :
          (at : ℕ) (polls : List (ℕ × CheckWorld)) (s : System)
          → unversioned current ≡ false
          → s.journal.has_db ≡ true
          → IsPolling wait at polls
          → IsStalled wait at (read_auto_update_settings parse_time s.journal)
          → ((run_checks polls s).files ≡ s.files)
            × IsStalled wait
                (last_time at polls)
                (read_auto_update_settings parse_time (run_checks polls s).journal)
      unfolding IsPolling
      run_checks-IsStalled at [] s named open_db polling h = (refl, h)
      run_checks-IsStalled at ((now, w) ∷ polls) s named open_db (close, in_wait, offer, polling)
            h =
          let (message, e) = run_stalled w at now s named open_db close in_wait offer h in
          let next : System = record s {
            journal =
                waits_on print_time print print_duration parse_time wait.version message now
                  s.journal;
          } in
          let waiting : IsStalled wait now (read_auto_update_settings parse_time next.journal) =
            subst (IsStalled wait now)
              (sym (
                read-waits_on print_time print print_duration parse_time s.journal wait.version
                  message now open_db (parsed now) (nonempty now)))
              (stalled-IsStalled wait at now _ h) in
          subst
            (λ after.
              ((run_checks polls after).files ≡ s.files)
              × IsStalled wait (last_time now polls)
                  (read_auto_update_settings parse_time (run_checks polls after).journal))
            (sym e)
            (run_checks-IsStalled now polls next named
              (waits_on-has_db print_time print print_duration parse_time wait.version message now
                s.journal open_db)
              polling waiting)
