-- ===== src/Alert/Calls.antt =====
-- The calls of `checkSites` (executor/alert_monitor.go) one after the other, and when its rule warns.
use wp_panel_en_private.Base.{ℕ, ◌≡◌, ◌≢◌, arith, true, Option, none, some, List, [], ◌∷◌}
use wp_panel_en_private.Base.Text.{Text}
use wp_panel_en_private.Alert.Expiry.{verdict}
use wp_panel_en_private.Alert.Sites.{
  SiteChecks, no_checks, SiteInfo, readable, forget_unseen, CheckTarget, choose_due, CheckResult,
  record_results, check_sites,
}
use wp_panel_en_private.Alert.Streak.{
  HasFailedTwice, followed, Counted, followed-HasFailedTwice, record_results-Counted,
  record_results-HasFailedTwice, choose_due-IsChoice, forget_unseen-Counted, either_part,
}

-- What a call of checkSites is given: the time, the rows of its query, and the requests' results.
pub record SiteCall : Type 0 where
  pub now : ℕ
  pub rows : Option (List (Option SiteInfo))
  pub ask : List CheckTarget → List CheckResult

abbrev pub results_of : SiteCall → SiteChecks → List CheckResult
results_of call s = elim call.rows [
  | none ↦ []
  | some rows ↦ call.ask (choose_due call.now (readable rows) (forget_unseen (readable rows) s)).1
]

-- The state after calls, the last first, with all the results that came.
abbrev pub after_calls : List SiteCall → SiteChecks × List CheckResult
after_calls [] = (no_checks, [])
after_calls (call ∷ calls) =
    let before = after_calls calls in
    (
      (check_sites call.now call.rows call.ask before.0).0,
      followed (results_of call before.0) before.1,
    )

verdict_fires : (messages : List Text) → (verdict messages).0 ≡ true → messages ≢ []
verdict_fires [] h = cc (h)
verdict_fires (m ∷ ms) h = λ e. cc (e)

check_sites-Counted :
    (now : ℕ) (rows : Option (List (Option SiteInfo))) (ask : List CheckTarget → List CheckResult)
    (s : SiteChecks) (h : List CheckResult)
    → Counted s h
    → Counted
        (check_sites now rows ask s).0
        (followed (results_of (record { now = now; rows = rows; ask = ask }) s) h)
unfolding check_sites
check_sites-Counted now none ask s h c = c
check_sites-Counted now (some rows) ask s h c =
    let sites = readable rows in
    let choice =
      choose_due-IsChoice now sites (forget_unseen sites s) h (forget_unseen-Counted sites s h c) in
    let chosen = choose_due now sites (forget_unseen sites s) in
    record_results-Counted (ask chosen.1) chosen.0 h choice.0

check_sites-HasFailedTwice :
    (now : ℕ) (rows : Option (List (Option SiteInfo))) (ask : List CheckTarget → List CheckResult)
    (s : SiteChecks) (h : List CheckResult)
    → Counted s h
    → (check_sites now rows ask s).1.0 ≡ true
    → HasFailedTwice (followed (results_of (record { now = now; rows = rows; ask = ask }) s) h)
unfolding check_sites
check_sites-HasFailedTwice now none ask s h c fires = cc (fires)
check_sites-HasFailedTwice now (some rows) ask s h c fires =
    let sites = readable rows in
    let chosen = choose_due now sites (forget_unseen sites s) in
    let choice =
      choose_due-IsChoice now sites (forget_unseen sites s) h (forget_unseen-Counted sites s h c) in
    either_part chosen.2 (record_results (ask chosen.1) chosen.0).1
      (λ known. followed-HasFailedTwice (ask chosen.1) h (choice.1 known))
      (λ found. record_results-HasFailedTwice (ask chosen.1) chosen.0 h choice.0 found)
      (verdict_fires _ fires)

after_calls-Counted : (calls : List SiteCall) → Counted (after_calls calls).0 (after_calls calls).1
after_calls-Counted [] id = omega arith
after_calls-Counted (call ∷ calls) id =
    check_sites-Counted call.now call.rows call.ask (after_calls calls).0 (after_calls calls).1
      (after_calls-Counted calls) id

-- The rule for sites finds a fault only when a site has failed twice in a row: after any calls of
-- checkSites, whatever sites come and go and however the results arrive, a call that fires has among
-- all the results so far two or more failures of one site with no good answer of it between them.
pub after_calls-HasFailedTwice :
    (calls : List SiteCall) (call : SiteCall)
    → (check_sites call.now call.rows call.ask (after_calls calls).0).1.0 ≡ true
    → HasFailedTwice (after_calls (call ∷ calls)).1
after_calls-HasFailedTwice calls call fires =
    check_sites-HasFailedTwice call.now call.rows call.ask (after_calls calls).0
      (after_calls calls).1 (after_calls-Counted calls) fires
