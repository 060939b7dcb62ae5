-- ===== src/Alert/Recovery.antt =====
-- The check for expiring sites and the rules of executor/alert_monitor.go together.
use wp_panel_en_private.Base.{
  ℕ, ◌+◌, ◌<◌, ◌≡◌, refl, sym, ap, ap₂, ◌∙◌, subst, ◌-◌, ◌*◌, arith, inl, inr, Bool, true, false,
  not, ◌||◌, Option, some, List, [], ◌∷◌, ◌++◌, ltb, if◌then◌else◌, Bool-cases,
}
use wp_panel_en_private.Base.Int.{pos}
use wp_panel_en_private.Base.Text.{Text, codes}
use wp_panel_en_private.Cron.Render.{print_int}
use wp_panel_en_private.Alert.Texts.{build_recovery_detail, alert_label, get_email_tip}
use wp_panel_en_private.Alert.Rules.{
  minute, AlertRule, AlertRow, sustained_firing, Channels, critical, Round, Notice, mail, hook,
  notices, run_rule, log_alert, alert_begins, alert_ends,
}
use wp_panel_en_private.Alert.Expiry.{
  ExpiringSite, website_expiry, day_seconds, days_left, is_milestone, alerted, check_website_expiry,
  verdict,
}

-- A round of the rule for expiring sites with what the check found, at a time of the panel and of the
-- database.
unfoldable pub round_with : Channels → ℕ × ℕ → AlertRule → List AlertRow → Bool × Text → Round
unfolding run_rule
round_with c (now, db_now) r log (found, msg) =
    run_rule c true
      (record {
        instant_firing = found;
        msg = msg;
        now = now;
        later = now;
        stamp = now;
        db_now = db_now;
      })
      r log

unfoldable pub expiry_round :
    (Text → Text → Bool)
    → Channels
    → Option (List (Option ExpiringSite))
    → ℕ × ℕ
    → AlertRule
    → List AlertRow
    → Round
unfolding check_website_expiry round_with
expiry_round like c sites (now, db_now) r log =
    round_with c (now, db_now) r log (check_website_expiry like now db_now log sites)

-- What a recovery of the rule sends.
abbrev pub recovered : Channels → List Notice
recovered c =
    let subject = c.panel_title ++ codes " Recovery notice" in
    let detail = codes "Website expiring soon has returned to normal" in
    notices c (mail subject detail detail (get_email_tip website_expiry true) false)
      (hook subject detail)

-- The rule for expiring sites while it is not firing.
abbrev pub expiry_rule : Option ℕ → ℕ → Text → AlertRule
expiry_rule pending last msg = record {
  key = website_expiry;
  threshold_duration = 0;
  pending_since = pending;
  last_fired = last;
  firing = false;
  last_alert_msg = msg;
}

module _ (like : Text → Text → Bool) (site : ExpiringSite) where
  abbrev warning : ℕ → Text
  warning now =
      site.domain
      ++ (codes " expires in "
          ++ (print_int (pos (days_left site.expires_at now)) ++ codes " days"))

  check_due :
      (now db_now : ℕ) (log : List AlertRow)
      → is_milestone (days_left site.expires_at now) ≡ true
      → alerted like site.domain db_now log ≡ false
      → check_website_expiry like now db_now log (some (some site ∷ [])) ≡ (true, warning now)
  unfolding check_website_expiry
  check_due now db_now log m a =
      ap₂ (λ b b'. verdict (if not b || b' then [] else warning now ∷ [])) m a

  check_told :
      (now db_now : ℕ) (log : List AlertRow)
      → alerted like site.domain db_now log ≡ true
      → check_website_expiry like now db_now log (some (some site ∷ [])) ≡ (false, [])
  unfolding check_website_expiry
  check_told now db_now log a =
      ap
        (λ b. verdict (
          if not (is_milestone (days_left site.expires_at now)) || b then [] else warning now ∷ []))
        a
      ∙ elim (Bool-cases (is_milestone (days_left site.expires_at now))) [
        | inl e ↦ rw e refl
        | inr e ↦ rw e refl
      ]

  alerted_after :
      (now db_now db_later : ℕ) (log : List AlertRow)
      → ((d rest : Text) → like (d ++ (b'%' ∷ [])) (d ++ rest) ≡ true)
      → db_later < db_now + day_seconds
      → alerted like site.domain db_later
          (log_alert website_expiry critical (warning now) db_now log)
        ≡ true
  unfolding alerted log_alert
  alerted_after now db_now db_later log likes soon =
      rw
        (likes site.domain (
          codes " expires in "
          ++ (print_int (pos (days_left site.expires_at now)) ++ codes " days")))
        (let e : ltb db_later (db_now + day_seconds) ≡ true = ground arith in rw e refl)

-- The rule once it has warned.
abbrev told_rule : Option ℕ → ℕ → Text → AlertRule
told_rule pending now msg = record (expiry_rule pending now msg) { firing = true }

round_with_warning :
    (c : Channels) (now db_now : ℕ) (pending : Option ℕ) (last : ℕ) (old msg : Text)
    (log : List AlertRow)
    → let round = round_with c (now, db_now) (expiry_rule pending last old) log (true, msg) in
      (round.rule ≡ told_rule pending now msg)
      × (round.log ≡ log_alert website_expiry critical msg db_now log)
unfolding round_with run_rule sustained_firing alert_begins
round_with_warning c now db_now pending last old msg log = (refl, refl)

round_with_nothing :
    (c : Channels) (now db_now : ℕ) (pending : Option ℕ) (last : ℕ) (msg : Text)
    (log : List AlertRow)
    → let round = round_with c (now, db_now) (told_rule pending last msg) log (false, []) in
      (round.rule.firing ≡ false) × (round.sent ≡ recovered c)
unfolding round_with run_rule sustained_firing alert_ends build_recovery_detail alert_label
round_with_nothing c now db_now pending last msg log =
    elim (Bool-cases (ltb (5 * minute) (now - last))) [
      | inl e ↦ rw e (refl, refl)
      | inr e ↦ rw e (refl, refl)
    ]

-- A round that follows the warning.
AllClear :
    (Text → Text → Bool) → Channels → ExpiringSite → ℕ × ℕ → AlertRule → List AlertRow → Type 0
AllClear like c site at r log =
    let second = expiry_round like c (some (some site ∷ [])) at r log in
    (r.firing ≡ true) × (second.rule.firing ≡ false) × (second.sent ≡ recovered c)

round_after_warning :
    (like : Text → Text → Bool) (c : Channels) (site : ExpiringSite) (now now' db_later : ℕ)
    (pending : Option ℕ) (msg : Text) (log : List AlertRow)
    → alerted like site.domain db_later log ≡ true
    → AllClear like c site (now', db_later) (told_rule pending now msg) log
unfolding expiry_round AllClear
round_after_warning like c site now now' db_later pending msg log a =
    let after =
      subst
        (λ found.
          let second = round_with c (now', db_later) (told_rule pending now msg) log found in
          (second.rule.firing ≡ false) × (second.sent ≡ recovered c))
        (sym (check_told like site now' db_later log a))
        (round_with_nothing c now' db_later pending now msg log) in
    (refl, after.0, after.1)

-- Where one site is to expire, its warning is followed by a false recovery: at a milestone, with no
-- warning of it in the log of the last 24 hours, the rule, not firing before, warns; the round after it,
-- less than 24 hours later, finds nothing whatever time the site has left, and sends a recovery. LIKE
-- finds a text that begins with what stands before the percent sign.
pub expiry_round_recovers :
    (like : Text → Text → Bool) (c : Channels) (site : ExpiringSite) (now now' db_now db_later : ℕ)
    (pending : Option ℕ) (last : ℕ) (msg : Text) (log : List AlertRow)
    → ((d rest : Text) → like (d ++ (b'%' ∷ [])) (d ++ rest) ≡ true)
    → is_milestone (days_left site.expires_at now) ≡ true
    → alerted like site.domain db_now log ≡ false
    → db_later < db_now + day_seconds
    → let sites = some (some site ∷ []) in
      let first = expiry_round like c sites (now, db_now) (expiry_rule pending last msg) log in
      let second = expiry_round like c sites (now', db_later) first.rule first.log in
      (first.rule.firing ≡ true) × (second.rule.firing ≡ false) × (second.sent ≡ recovered c)
unfolding expiry_round AllClear
expiry_round_recovers like c site now now' db_now db_later pending last msg log likes m a soon =
    let told = warning like site now in
    let warned = log_alert website_expiry critical told db_now log in
    let begun = round_with_warning c now db_now pending last msg told log in
    subst
      (λ found.
        let first = round_with c (now, db_now) (expiry_rule pending last msg) log found in
        AllClear like c site (now', db_later) first.rule first.log)
      (sym (check_due like site now db_now log m a))
      (subst
        (λ r.
          AllClear like c site (now', db_later) r
            (round_with c (now, db_now) (expiry_rule pending last msg) log (true, told)).log)
        (sym begun.0)
        (subst (λ l. AllClear like c site (now', db_later) (told_rule pending now told) l)
          (sym begun.1)
          (round_after_warning like c site now now' db_later pending told warned
            (alerted_after like site now db_now db_later log likes soon))))
