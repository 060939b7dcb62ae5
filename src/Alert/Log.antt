-- ===== src/Alert/Log.antt =====
-- The bound on the log of alerts in executor/alert_monitor.go.
use wp_panel_en_private.Base.{
  ℕ, ◌-◌, ◌&&◌, not, ◌≤◌, ◌≡◌, refl, sym, subst, arith, Bool, true, false, Option, none, some, List,
  [], ◌∷◌, length, length-take, ltb, if◌then◌else◌, if-By,
}
use wp_panel_en_private.Base.Text.{Text}
use wp_panel_en_private.Alert.Texts.{build_recovery_detail}
use wp_panel_en_private.Alert.Rules.{
  AlertRule, sustained_firing, alert_resend_interval, Level, critical, info, AlertRow, kept_rows,
  Channels, Look, Round, run_rule, run_rules, run_checks, log_alert, resolve, alert_begins,
  alert_ends, alert_goes_on,
}

log_alert_short :
    (key : Text) (level : Level) (msg : Text) (at : ℕ) (log : List AlertRow)
    → length (log_alert key level msg at log) ≤ kept_rows
unfolding log_alert
log_alert_short key level msg at log = omega (
  arith,
  length-take kept_rows (
      record { alert_type = key; level = level; message = msg; resolved = false; created_at = at }
      ∷ log),
)

length-resolve : (key : Text) (log : List AlertRow) → length (resolve key log) ≡ length log
unfolding resolve
length-resolve key [] = refl
length-resolve key (row ∷ log) = omega (arith, length-resolve key log)

alert_goes_on_short :
    (c : Channels) (l : Look) (r : AlertRule) (log : List AlertRow)
    → length log ≤ kept_rows
    → length (alert_goes_on c l r log).log ≤ kept_rows
unfolding alert_goes_on
alert_goes_on_short c l r log h =
    if-By (λ (round : Round). length round.log ≤ kept_rows)
      (ltb (alert_resend_interval r.key) (l.later - r.last_fired))
      (λ e. log_alert_short r.key critical l.msg l.db_now log) (λ e. h)

run_rule_short :
    (c : Channels) (e : Bool) (l : Look) (r : AlertRule) (log : List AlertRow)
    → length log ≤ kept_rows
    → length (run_rule c e l r log).log ≤ kept_rows
unfolding run_rule alert_begins alert_ends
run_rule_short c false l r log h = h
run_rule_short c true l r log h =
    let next = sustained_firing r l.instant_firing l.now in
    if-By (λ (round : Round). length round.log ≤ kept_rows) (next.1 && not next.0.firing)
      (λ e. log_alert_short next.0.key critical l.msg l.db_now log)
      (λ e.
        if-By (λ (round : Round). length round.log ≤ kept_rows) (not next.1 && next.0.firing)
          (λ e'.
            let detail = build_recovery_detail next.0.key next.0.last_alert_msg in
            subst (λ n. n ≤ kept_rows)
              (sym (length-resolve next.0.key (log_alert next.0.key info detail l.db_now log)))
              (log_alert_short next.0.key info detail l.db_now log))
          (λ e'.
            if-By (λ (round : Round). length round.log ≤ kept_rows) (next.1 && next.0.firing)
              (λ e''. alert_goes_on_short c l next.0 log h) (λ e''. h)))

run_rules_short :
    (c : Channels) (enabled : Text → Bool) (check : Text → List AlertRow → Look)
    (site : Option (Bool × Text)) (rules : List AlertRule) (log : List AlertRow)
    → length log ≤ kept_rows
    → length (run_rules c enabled check site rules log).1 ≤ kept_rows
run_rules_short c enabled check site [] log h = h
run_rules_short c enabled check site (r ∷ rules) log h =
    run_rules_short c enabled check site rules _ (run_rule_short c (enabled r.key) _ r log h)

-- However many rules warn or recover in a round of checks, the log of alerts keeps at most 30 rows.
pub run_checks_short :
    (c : Channels) (before : Bool) (sites : Bool × Text) (enabled : Text → Bool)
    (check : Text → List AlertRow → Look) (rules : List AlertRule) (log : List AlertRow)
    → length log ≤ kept_rows
    → length (run_checks c before sites enabled check rules log).1 ≤ kept_rows
unfolding run_checks
run_checks_short c before sites enabled check rules log h =
    run_rules_short c enabled check (if before then some sites else none) rules log h
