-- ===== src/Update/Status.antt =====
-- The status of an update that the page polls: the functions of executor/panel_update_runner.go that
-- change it, each under the status's mutex.
use wp_panel_en_private.Base.{
  ℕ, ◌+◌, ◌*◌, ◌/◌, ◌≤◌, ◌≡◌, refl, arith, Bool, true, false, not, ◌&&◌, ◌||◌, List, [], ◌∷◌, ltb,
  leb, if◌then◌else◌,
}
use wp_panel_en_private.Base.Text.{Text, codes, text_eq}
use wp_panel_en_private.Update.{PanelUpdateStatus, Journal, record_panel_update_stage}

abbrev pub update_terminal_status_ttl : ℕ
update_terminal_status_ttl = 5 * 60

-- A percentage is never negative, for it is computed from lengths.
unfoldable pub clamp_percent : ℕ → ℕ
clamp_percent percent = if ltb 100 percent then 100 else percent

unfoldable pub idle_status : ℕ → PanelUpdateStatus
idle_status now = record {
  running = false;
  completed = false;
  stage = codes "idle";
  message = codes "waiting for update";
  percent = 0;
  download_percent = 0;
  downloaded_bytes = 0;
  total_bytes = 0;
  has_total = false;
  failure = [];
  updated_at = now;
}

unfoldable pub status_expired : PanelUpdateStatus → ℕ → Bool
status_expired st now =
    if st.running
    then false
    else if not st.completed && text_eq st.failure []
    then false
    else ltb (st.updated_at + update_terminal_status_ttl) now

-- `SnapshotPanelUpdateStatus`: the status afterwards, which is what the page gets.
unfoldable pub snapshot_status : PanelUpdateStatus → ℕ → PanelUpdateStatus
unfolding status_expired
snapshot_status st now = if status_expired st now then idle_status now else st

unfoldable pub step_status : Text → Text → ℕ → ℕ → PanelUpdateStatus → PanelUpdateStatus
unfolding clamp_percent
step_status stage message percent now st = record st {
  running = true;
  completed = false;
  stage = stage;
  message = message;
  percent = clamp_percent percent;
  download_percent = 0;
  downloaded_bytes = 0;
  total_bytes = 0;
  has_total = false;
  failure = [];
  updated_at = now;
}

-- `total` is 0 where the server does not say it.
unfoldable pub download_status : ℕ → ℕ → ℕ → PanelUpdateStatus → PanelUpdateStatus
unfolding clamp_percent
download_status downloaded total now st =
    let has_total = ltb 0 total in
    let percent = if has_total then clamp_percent (downloaded * 100 / total) else 0 in
    record st {
      running = true;
      completed = false;
      stage = codes "download_binary";
      message = codes "downloading update package...";
      percent = clamp_percent (if has_total then 15 + percent * 45 / 100 else 15);
      download_percent = percent;
      downloaded_bytes = downloaded;
      total_bytes = total;
      has_total = has_total;
      failure = [];
      updated_at = now;
    }

unfoldable pub failed_status : Text → ℕ → PanelUpdateStatus → PanelUpdateStatus
failed_status message now st = record st {
  running = false;
  completed = false;
  message = message;
  failure = message;
  updated_at = now;
}

unfoldable pub completed_status : Text → ℕ → PanelUpdateStatus → PanelUpdateStatus
completed_status message now st = record st {
  running = false;
  completed = true;
  stage = codes "completed";
  message = message;
  percent = 100;
  download_percent = 100;
  failure = [];
  updated_at = now;
}

abbrev pub with_status : (PanelUpdateStatus → PanelUpdateStatus) → Journal → Journal
with_status f j = record j { status = f j.status }

-- `panelUpdateFail` without the error that it returns.
unfoldable pub panel_update_fail : (ℕ → Text) → Text → Text → Text → Text → ℕ → Journal → Journal
panel_update_fail print_time trigger version stage message now j =
    record_panel_update_stage print_time trigger version stage (codes "failed") message now
      (with_status (failed_status message now) j)

-- A change of the status.
pub data StatusEvent : Type 0 where
  resets : ℕ → StatusEvent
  steps : Text → Text → ℕ → ℕ → StatusEvent
  downloads : ℕ → ℕ → ℕ → StatusEvent
  fails : Text → ℕ → StatusEvent
  completes : Text → ℕ → StatusEvent
  polls : ℕ → StatusEvent

unfoldable pub status_after : StatusEvent → PanelUpdateStatus → PanelUpdateStatus
status_after (resets now) st = idle_status now
status_after (steps stage message percent now) st = step_status stage message percent now st
status_after (downloads downloaded total now) st = download_status downloaded total now st
status_after (fails message now) st = failed_status message now st
status_after (completes message now) st = completed_status message now st
status_after (polls now) st = snapshot_status st now

abbrev pub status_run : List StatusEvent → PanelUpdateStatus → PanelUpdateStatus
status_run [] st = st
status_run (e ∷ events) st = status_run events (status_after e st)

-- What the page relies on: both percentages are at most 100, a status that runs is not completed,
-- and a completed one shows 100 percent and no error.
pub record IsShown (st : PanelUpdateStatus) : Type 0 where
  pub bounded : st.percent ≤ 100
  pub download_bounded : st.download_percent ≤ 100
  pub exclusive : (st.running && st.completed) ≡ false
  pub finished : (not st.completed || (leb 100 st.percent && text_eq st.failure [])) ≡ true

status_after-IsShown :
    (e : StatusEvent) (st : PanelUpdateStatus) → IsShown st → IsShown (status_after e st)
unfolding status_after idle_status step_status download_status failed_status completed_status
    snapshot_status
status_after-IsShown (resets now) st h = ground arith
status_after-IsShown (steps stage message percent now) st h = ground arith
status_after-IsShown (downloads downloaded total now) st h = ground arith
status_after-IsShown (fails message now) st h = ground arith
status_after-IsShown (completes message now) st h = ground arith
status_after-IsShown (polls now) st h = ground arith

-- Whatever steps, downloads, failures, completions and polls follow one another from the idle status,
-- both percentages are at most 100, the status is not running and completed at once, and a completed
-- one shows 100 percent and no error.
pub status_run-IsShown :
    (now : ℕ) (events : List StatusEvent) → IsShown (status_run events (idle_status now))
unfolding idle_status
status_run-IsShown now events = go events (idle_status now) (record {
  bounded = omega arith;
  download_bounded = omega arith;
  exclusive = refl;
  finished = refl;
})
  where
    go :
        (events : List StatusEvent) (st : PanelUpdateStatus)
        → IsShown st
        → IsShown (status_run events st)
    go [] st h = h
    go (e ∷ events) st h = go events (status_after e st) (status_after-IsShown e st h)
