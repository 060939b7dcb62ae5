-- ===== src/Alert/Sustained.antt =====
-- An alert with a threshold in executor/alert_monitor.go comes only when what it warns of has lasted.
use wp_panel_en_private.Base.{
  ℕ, ◌-◌, ◌≤◌, ◌<◌, ◌≡◌, refl, sym, subst, arith, inl, inr, ◌⊎◌, Bool, true, false, Option, none,
  some, List, [], ◌∷◌, ltb, leb, ◌==◌, Bool-cases,
}
use wp_panel_en_private.Base.Text.{Text}
use wp_panel_en_private.Alert.Rules.{
  AlertRule, new_rule, alert_resend_interval, sustained_firing, AlertRow, Channels, Look, Round,
  run_rule, alert_begins, alert_ends, alert_goes_on,
}

-- The rounds of a rule, the last first: whether it was enabled, and what its check found.
abbrev pub Looks : Type 0
Looks = List (Bool × Look)

unfoldable pub rounds : Channels → AlertRule → List AlertRow → Looks → Round
unfolding run_rule
rounds c r log [] = record { rule = r; log = log; sent = [] }
rounds c r log ((enabled, l) ∷ looks) =
    let before = rounds c r log looks in run_rule c enabled l before.rule before.log

-- From a round at time `t` to the last, the rule was enabled and its check found the fault.
abbrev pub FoundSince : ℕ → Looks → Type 0
FoundSince t [] = ⊥
FoundSince t ((enabled, l) ∷ looks) =
    (enabled ≡ true) × (l.instant_firing ≡ true) × ((t ≡ l.now) ⊎ FoundSince t looks)

-- The last round comes `d` or more after the time `t`.
abbrev pub Lasted : ℕ → ℕ → Looks → Type 0
Lasted d t [] = ⊥
Lasted d t ((enabled, l) ∷ looks) = d ≤ l.now - t

abbrev pub Sustained : ℕ → Looks → Type 0
Sustained d looks = (t : ℕ) × FoundSince t looks × Lasted d t looks

record IsTracked (d : ℕ) (looks : Looks) (r : AlertRule) : Type 0 where
  same : r.threshold_duration ≡ d
  pending : (t : ℕ) → r.pending_since ≡ some t → FoundSince t looks
  lasting : r.firing ≡ true → Sustained d looks

some_injective : {t u : ℕ} → some t ≡ some u → t ≡ u
some_injective p = cc (p)

module _ (c : Channels) (log : List AlertRow) (looks : Looks) (d : ℕ)
    (positive : (d == 0) ≡ false) where
  quiet :
      (e : Bool) {l : Look} (key : Text) (last : ℕ) (msg : Text)
      → IsTracked d ((e, l) ∷ looks) (record {
        key = key;
        threshold_duration = d;
        pending_since = none;
        last_fired = last;
        firing = false;
        last_alert_msg = msg;
      })
  quiet e key last msg = record { same = refl; pending = λ t p. cc (p); lasting = λ p. cc (p) }

  begun :
      (l : Look) (key : Text) (last : ℕ) (msg : Text)
      → IsTracked d ((true, record l { instant_firing = true }) ∷ looks) (record {
        key = key;
        threshold_duration = d;
        pending_since = some l.now;
        last_fired = last;
        firing = false;
        last_alert_msg = msg;
      })
  begun l key last msg = record {
    same = refl;
    pending = λ t p. (refl, refl, inl (cc (p)));
    lasting = λ p. cc (p);
  }

  kept :
      (l : Look) (key : Text) (since last : ℕ) (firing : Bool) (msg : Text)
      → FoundSince since looks
      → (firing ≡ true → d ≤ l.now - since)
      → IsTracked d ((true, record l { instant_firing = true }) ∷ looks) (record {
        key = key;
        threshold_duration = d;
        pending_since = some since;
        last_fired = last;
        firing = firing;
        last_alert_msg = msg;
      })
  kept l key since last firing msg found long = record {
    same = refl;
    pending = λ t p. (refl, refl, inr (subst (λ u. FoundSince u looks) (some_injective p) found));
    lasting = λ p. (since, (refl, refl, inr found), long p);
  }

  alert_goes_on-IsTracked :
      {looks' : Looks} (l : Look) (r : AlertRule)
      → IsTracked d looks' r
      → IsTracked d looks' (alert_goes_on c l r log).rule
  unfolding alert_goes_on
  alert_goes_on-IsTracked l r i =
      elim (Bool-cases (ltb (alert_resend_interval r.key) (l.later - r.last_fired))) [
        | inl e ↦ rw e (record { same = i.same; pending = i.pending; lasting = i.lasting })
        | inr e ↦ rw e (record { same = i.same; pending = i.pending; lasting = i.lasting })
      ]

  with_fields :
      (e : Bool) (l : Look) (instant : Bool) (key : Text) (pend : Option ℕ) (last : ℕ)
      (firing : Bool) (msg : Text)
      → ((t : ℕ) → pend ≡ some t → FoundSince t looks)
      → IsTracked d
          ((e, record l { instant_firing = instant }) ∷ looks)
          (run_rule c e
            (record l { instant_firing = instant })
            (record {
              key = key;
              threshold_duration = d;
              pending_since = pend;
              last_fired = last;
              firing = firing;
              last_alert_msg = msg;
            })
            log).rule
  unfolding run_rule sustained_firing alert_begins alert_ends
  with_fields false l instant key pend last firing msg h = record {
    same = refl;
    pending = λ t p. cc (p);
    lasting = λ p. cc (p);
  }
  with_fields true l false key pend last false msg h = rw positive (quiet true key last msg)
  with_fields true l false key pend last true msg h = rw positive (quiet true key last msg)
  with_fields true l true key none last false msg h = rw positive (begun l key last msg)
  with_fields true l true key none last true msg h = rw positive (begun l key last msg)
  with_fields true l true key (some since) last false msg h =
      rw positive (elim (Bool-cases (leb d (l.now - since))) [
        | inl e ↦ rw e (kept l key since l.now true l.msg (h since refl) (λ q. ground (arith, e)))
        | inr e ↦ rw e (kept l key since last false msg (h since refl) (λ q. cc (q)))
      ])
  with_fields true l true key (some since) last true msg h =
      rw positive (elim (Bool-cases (leb d (l.now - since))) [
        | inl e ↦ rw e (
            alert_goes_on-IsTracked l _
              (kept l key since last true msg (h since refl) (λ q. ground (arith, e))))
        | inr e ↦ rw e (kept l key since last false msg (h since refl) (λ q. cc (q)))
      ])

  run_rule-IsTracked :
      (e : Bool) (l : Look) (r : AlertRule)
      → IsTracked d looks r
      → IsTracked d ((e, l) ∷ looks) (run_rule c e l r log).rule
  run_rule-IsTracked e l r i =
      subst
        (λ t.
          IsTracked d ((e, l) ∷ looks)
            (run_rule c e l (record r { threshold_duration = t }) log).rule)
        (sym i.same)
        (with_fields e l l.instant_firing r.key r.pending_since r.last_fired r.firing
          r.last_alert_msg i.pending)

rounds-IsTracked :
    (c : Channels) (key : Text) (d : ℕ) (log : List AlertRow) (looks : Looks)
    → (d == 0) ≡ false
    → IsTracked d looks (rounds c (new_rule key d) log looks).rule
unfolding rounds
rounds-IsTracked c key d log [] positive = record {
  same = refl;
  pending = λ t p. cc (p);
  lasting = λ p. cc (p);
}
rounds-IsTracked c key d log ((e, l) ∷ looks) positive =
    run_rule-IsTracked c (rounds c (new_rule key d) log looks).log looks d positive e l _
      (rounds-IsTracked c key d log looks positive)

-- A rule with a threshold warns only of what has lasted: whenever it is firing after its rounds, there
-- was a round, the threshold or more before the last one, from which on it was enabled in every round
-- and its check found the fault in every round.
pub rounds-Sustained :
    (c : Channels) (key : Text) (d : ℕ) (log : List AlertRow) (looks : Looks)
    → 0 < d
    → (rounds c (new_rule key d) log looks).rule.firing ≡ true
    → Sustained d looks
rounds-Sustained c key d log looks positive firing =
    let tracked = rounds-IsTracked c key d log looks (ground arith) in tracked.lasting firing
