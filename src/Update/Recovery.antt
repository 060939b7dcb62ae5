-- ===== src/Update/Recovery.antt =====
-- What `RunUpdateWatchdog` of executor/panel_update_runner.go leaves behind.
use wp_panel_en_private.Base.{
  ℕ, zero, suc, ◌+◌, ◌*◌, ◌<◌, ◌≤◌, ◌≡◌, ◌≢◌, refl, ap, subst, arith, inl, inr, true, not, ◌||◌, [],
  if◌then◌else◌, if-Both, Option, none, some, ltb, leb, Bool-cases, Option-cases,
}
use wp_panel_en_private.Base.Fault.{Fault, on_fault, on_fault-Both}
use wp_panel_en_private.Base.Text.{Text, text_eq}
use wp_panel_en_private.Update.Machine.{copies, RollbackPlan}
use wp_panel_en_private.Update.Verified.{copy_back-cases}
use wp_panel_en_private.Update.Watchdog.{
  WatchWorld, Host, Health, healthy, timed_out, await_health, watch_fuel, accept_update,
  reject_update, finish_rollback, restore_database, restore_db_file, should_restore_db,
  run_update_watchdog,
}

module _ (health : ℕ → ℕ × Fault) where
  -- The seconds that pass before the k-th request is considered.
  abbrev pub time_before : ℕ → ℕ
  time_before zero = 0
  time_before (suc k) = time_before k + 3 + (health k).0

  pub AllRefused : ℕ → Type 0
  AllRefused n = (m : ℕ) → m < n → (health m).1 ≢ none

  -- The wait ends with the first request that succeeds, in a round entered before the deadline; or at the deadline,
  -- after requests that were all refused.
  pub data Waited : Option Health → Type 0 where
    answered :
        (k : ℕ)
        → AllRefused k
        → (health k).1 ≡ none
        → time_before k < 90
        → Waited (some (healthy k))
    expired :
        (n : ℕ) (failure : Option Text)
        → AllRefused n
        → 90 ≤ time_before n
        → Waited (some (timed_out failure))

  AllRefused-zero : AllRefused zero
  unfolding AllRefused
  AllRefused-zero m below = ground arith

  AllRefused-suc : (k : ℕ) → AllRefused k → (health k).1 ≢ none → AllRefused (suc k)
  unfolding AllRefused
  AllRefused-suc k refused now m below = elim (Bool-cases (ltb m k)) [
    | inl e ↦ refused m (ground arith)
    | inr e ↦ let same : k ≡ m = ground arith in subst (λ i. (health i).1 ≢ none) same now
  ]

  await_health-Waited :
      (fuel k : ℕ) (failure : Option Text)
      → AllRefused k
      → 93 ≤ time_before k + 3 * fuel
      → 1 ≤ fuel
      → Waited (await_health health fuel (time_before k) k failure)
  unfolding await_health
  await_health-Waited zero k failure refused enough some_fuel = ground arith
  await_health-Waited (suc fuel) k failure refused enough some_fuel =
      elim (Bool-cases (leb 90 (time_before k))) [
        | inl e ↦ rw e (expired k failure refused (ground arith))
        | inr e ↦ elim (Option-cases ((health k).1)) [
          | inl ok ↦ rw (e, ok) (answered k refused ok (ground arith))
          | inr (why, bad) ↦
              rw (e, bad)
                (await_health-Waited fuel (suc k) ((health k).1)
                  (AllRefused-suc k refused (λ e. cc)) (ground arith) (ground arith))
        ]
      ]

-- The new binary answered in time, at a request that follows refused ones only: it stays, and the plan
-- is gone. Or no request before the deadline was answered, and the old binary is back and its restart
-- is under way. Or none was answered, the copy back failed, and the plan is still there.
pub data Outcome (w : WatchWorld) (h : Host) (old new : Text) : Option Host → Type 0 where
  accepted :
      {after : Host} (k : ℕ)
      → AllRefused w.health k
      → (w.health k).1 ≡ none
      → time_before w.health k < 90
      → after.system.files.installed ≡ some new
      → after.system.files.plan ≡ none
      → after.database ≡ h.database
      → Outcome w h old new (some after)
  restored :
      {after : Host} (n : ℕ)
      → AllRefused w.health n
      → 90 ≤ time_before w.health n
      → w.copies_back ≡ copies
      → after.system.files.installed ≡ some old
      → after.system.files.plan ≡ none
      → after.system.files.restarting ≡ true
      → Outcome w h old new (some after)
  lost :
      {after : Host} (n : ℕ)
      → AllRefused w.health n
      → 90 ≤ time_before w.health n
      → w.copies_back ≢ copies
      → after.system.files.plan ≡ h.system.files.plan
      → after.system.files.restarting ≡ h.system.files.restarting
      → after.database ≡ h.database
      → Outcome w h old new (some after)

module _ (print_time print : ℕ → Text) (w : WatchWorld) (plan : RollbackPlan) (now : ℕ)
    (old new : Text) where
  restore_db_file-files :
      (h : Host) → (restore_db_file w plan.backup_db h).0.system.files ≡ h.system.files
  unfolding restore_db_file
  restore_db_file-files h = if-Both Same (not w.has_config || text_eq plan.backup_db []) refl (
      on_fault-Both Same w.verifies_backup (λ why. refl)
        (on_fault-Both Same (if h.system.journal.has_db then w.closes else none) (λ why. refl)
          refl))
    where
      Same : Host × Fault → Type 0
      Same result = result.0.system.files ≡ h.system.files

  restore_database-files :
      (h : Host) → (restore_database print_time print w plan now h).system.files ≡ h.system.files
  unfolding restore_database
  restore_database-files h =
      if-Both (λ (after : Host). after.system.files ≡ h.system.files)
        (should_restore_db plan.backup_db h.system.journal.has_db w.queries)
        (restore_db_file-files h) refl

  reject_update-Outcome :
      (h : Host) (n : ℕ) (failure : Option Text)
      → AllRefused w.health n
      → 90 ≤ time_before w.health n
      → h.system.files.backup ≡ some old
      → h.system.files.installed ≡ some new
      → Outcome w h old new (some (reject_update print_time print w plan now failure h))
  unfolding reject_update finish_rollback on_fault
  reject_update-Outcome h n failure refused late saved here =
      elim (copy_back-cases w.copies_back old new) [
        | inl (done, copied) ↦
            rw (saved, here, done)
              (restored n refused late copied
                (ap (λ files. files.installed) (restore_database-files _)) refl refl)
        | inr (i, why, e, failing, left) ↦
            rw (saved, here, e) (lost n refused late failing refl refl refl)
      ]

  -- Where the old binary is saved and the new one in place, the watchdog comes to an end, whatever the
  -- requests answer and however long they take, for 31 rounds reach its deadline. It ends in one of
  -- three ways: the new binary stays and the plan is removed, at the first request that succeeds, in a round
  -- that was entered before the deadline, the pause before the request included; or, no request of such a round having succeeded, the old binary is back, the plan
  -- is removed and the panel restarts; or the copy back failed, and the plan and the database stay as
  -- they were.
  pub run_update_watchdog-Outcome :
      (h : Host)
      → h.system.files.backup ≡ some old
      → h.system.files.installed ≡ some new
      → Outcome w h old new (run_update_watchdog print_time print w plan now h)
  unfolding run_update_watchdog accept_update
  run_update_watchdog-Outcome h saved here = go (
      await_health-Waited w.health watch_fuel 0 none (AllRefused-zero w.health) (omega arith)
        (omega arith))
    where
      go :
          {waited : Option Health}
          → Waited w.health waited
          → Outcome w h old new (elim waited [
            | none ↦ none
            | some (healthy k) ↦ some (accept_update print_time print w plan now h)
            | some (timed_out failure) ↦ some (reject_update print_time print w plan now failure h)
          ])
      go (answered k refused ok soon) = accepted k refused ok soon here refl refl
      go (expired n failure refused late) =
          reject_update-Outcome h n failure refused late saved here
