-- ===== src/Alert/Streak.antt =====
-- When the rule for sites of executor/alert_monitor.go warns: a site has failed twice in a row.
use wp_panel_en_private.Base.{
  ℕ, suc, ◌≤◌, ◌≡◌, ◌≢◌, refl, sym, ap, subst, arith, inl, inr, Bool, true, false, Option, none,
  some, List, [], ◌∷◌, ◌++◌, leb, if◌then◌else◌, Bool-cases, if-By,
}
use wp_panel_en_private.Base.Text.{Text, text_eq, text_eq_refl, eq-text_eq}
use wp_panel_en_private.Alert.Sites.{
  site_failure_alert_threshold, SiteChecks, SiteInfo, seen, forget_unseen, CheckTarget, is_recent,
  known_message, known_failure, marked, choose_due, CheckResult, failure_of, record_outcome,
  record_result, record_results,
}

abbrev lengthened : ℕ → Option Text → ℕ
lengthened n none = 0
lengthened n (some msg) = suc n

-- How often a site has failed since it last answered well; the last result stands first.
unfoldable pub streak : Text → List CheckResult → ℕ
unfolding failure_of
streak id [] = 0
streak id (r ∷ results) =
    let before = streak id results in
    if text_eq r.id id then lengthened before (failure_of r) else before

-- These results, after those before.
abbrev pub followed : List CheckResult → List CheckResult → List CheckResult
followed [] before = before
followed (r ∷ results) before = followed results (r ∷ before)

-- At some time a site had failed twice in a row.
abbrev pub HasFailedTwice : List CheckResult → Type 0
HasFailedTwice results =
    (id : Text) × (newer : List CheckResult) × (older : List CheckResult) × (results
      ≡ newer ++ older)
    × (2 ≤ streak id older)

abbrev pub Counted : SiteChecks → List CheckResult → Type 0
Counted s h = (id : Text) → s.counts id ≤ streak id h

later-HasFailedTwice :
    (r : CheckResult) (h : List CheckResult) → HasFailedTwice h → HasFailedTwice (r ∷ h)
later-HasFailedTwice r h (id, newer, older, e, twice) =
    (id, r ∷ newer, older, ap (λ t. r ∷ t) e, twice)

pub followed-HasFailedTwice :
    (results h : List CheckResult) → HasFailedTwice h → HasFailedTwice (followed results h)
followed-HasFailedTwice [] h t = t
followed-HasFailedTwice (r ∷ results) h t =
    followed-HasFailedTwice results (r ∷ h) (later-HasFailedTwice r h t)

set_counted :
    (key id : Text) (f : Option Text) (s : SiteChecks) (n : ℕ)
    → (text_eq key id ≡ true → s.counts key ≤ n)
    → s.counts id ≤ n
    → (record_outcome key s f).0.counts id ≤ (if text_eq key id then lengthened n f else n)
set_counted key id none s n same h = elim (Bool-cases (text_eq key id)) [
  | inl e ↦ rw e (omega arith)
  | inr e ↦ rw e h
]
set_counted key id (some msg) s n same h = elim (Bool-cases (text_eq key id)) [
  | inl e ↦ rw e (omega (arith, same e))
  | inr e ↦ rw e h
]

record_result-Counted :
    (r : CheckResult) (s : SiteChecks) (h : List CheckResult) (id : Text)
    → Counted s h
    → (record_result r s).0.counts id ≤ streak id (r ∷ h)
unfolding record_result streak
record_result-Counted r s h id c =
    set_counted r.id id (failure_of r) s (streak id h)
      (λ e. subst (λ key. s.counts key ≤ streak id h) (sym (eq-text_eq r.id id e)) (c id)) (c id)

outcome_failed :
    (id : Text) (s : SiteChecks) (f : Option Text) (n : ℕ)
    → s.counts id ≤ n
    → (record_outcome id s f).1 ≢ []
    → 2 ≤ lengthened n f
outcome_failed id s none n h some_message = absurd (some_message refl)
outcome_failed id s (some msg) n h some_message =
    elim (Bool-cases (leb site_failure_alert_threshold (suc (s.counts id)))) [
      | inl e ↦ ground (arith, e)
      | inr e ↦ absurd (some_message (ap (λ b. if b then msg ∷ [] else []) e))
    ]

record_result-HasFailedTwice :
    (r : CheckResult) (s : SiteChecks) (h : List CheckResult)
    → Counted s h
    → (record_result r s).1 ≢ []
    → HasFailedTwice (r ∷ h)
unfolding record_result streak
record_result-HasFailedTwice r s h c some_message = (
  r.id,
  [],
  r ∷ h,
  refl,
  subst (λ b. 2 ≤ (if b then lengthened (streak r.id h) (failure_of r) else streak r.id h))
      (sym (text_eq_refl r.id))
      (outcome_failed r.id s (failure_of r) (streak r.id h) (c r.id) some_message),
)

-- A sum that is not empty has a part that is not.
pub either_part : {P : Type 0} (a b : List Text) → (a ≢ [] → P) → (b ≢ [] → P) → (a ++ b) ≢ [] → P
either_part [] b p q h = q h
either_part (m ∷ a) b p q h = p (λ e. cc (e))

pub record_results-Counted :
    (results : List CheckResult) (s : SiteChecks) (h : List CheckResult)
    → Counted s h
    → Counted (record_results results s).0 (followed results h)
record_results-Counted [] s h c = c
record_results-Counted (r ∷ results) s h c =
    record_results-Counted results (record_result r s).0 (r ∷ h)
      (λ id. record_result-Counted r s h id c)

pub record_results-HasFailedTwice :
    (results : List CheckResult) (s : SiteChecks) (h : List CheckResult)
    → Counted s h
    → (record_results results s).1 ≢ []
    → HasFailedTwice (followed results h)
record_results-HasFailedTwice [] s h c some_message = absurd (some_message refl)
record_results-HasFailedTwice (r ∷ results) s h c some_message =
    either_part (record_result r s).1 (record_results results (record_result r s).0).1
      (λ now. followed-HasFailedTwice results (r ∷ h) (record_result-HasFailedTwice r s h c now))
      (λ later.
        record_results-HasFailedTwice results (record_result r s).0 (r ∷ h)
          (λ id. record_result-Counted r s h id c) later)
      some_message

known_message-HasFailedTwice :
    (id : Text) (msg : Option Text) (count : ℕ) (h : List CheckResult)
    → count ≤ streak id h
    → known_message msg count ≢ []
    → HasFailedTwice h
known_message-HasFailedTwice id none count h c some_message = absurd (some_message refl)
known_message-HasFailedTwice id (some msg) count h c some_message =
    elim (Bool-cases (leb site_failure_alert_threshold count)) [
      | inl e ↦ (id, [], h, refl, ground (arith, e))
      | inr e ↦ absurd (some_message (ap (λ b. if b then msg ∷ [] else []) e))
    ]

abbrev pub IsChoice : List CheckResult → SiteChecks × List CheckTarget × List Text → Type 0
IsChoice h t = Counted t.0 h × (t.2 ≢ [] → HasFailedTwice h)

pub choose_due-IsChoice :
    (now : ℕ) (sites : List SiteInfo) (s : SiteChecks) (h : List CheckResult)
    → Counted s h
    → IsChoice h (choose_due now sites s)
unfolding choose_due
choose_due-IsChoice now [] s h c = (c, (λ some_message. absurd (some_message refl)))
choose_due-IsChoice now (site ∷ sites) s h c =
    let recent = is_recent now site s in
    let rest =
      choose_due-IsChoice now sites _ h
        (if-By (λ t. Counted t h) recent {x = s} {y = marked now site s} (λ e. c) (λ e. c)) in
    if-By (IsChoice h) recent
      (λ e. (
        rest.0,
        either_part (known_failure site s) _
            (known_message-HasFailedTwice site.id (s.messages site.id) (s.counts site.id) h
              (c site.id))
            rest.1,
      ))
      (λ e. (rest.0, rest.1))

forgotten_le :
    (msg : Option Text) (is_seen : Bool) (count n : ℕ)
    → count ≤ n
    → (elim msg [ none ↦ count | some m ↦ if is_seen then count else 0 ]) ≤ n
forgotten_le none is_seen count n h = h
forgotten_le (some m) true count n h = h
forgotten_le (some m) false count n h = omega arith

pub forget_unseen-Counted :
    (sites : List SiteInfo) (s : SiteChecks) (h : List CheckResult)
    → Counted s h
    → Counted (forget_unseen sites s) h
unfolding forget_unseen
forget_unseen-Counted sites s h c id =
    forgotten_le (s.messages id) (seen sites id) (s.counts id) (streak id h) (c id)
