-- ===== src/Alert/Rules.antt =====
-- The rules of executor/alert_monitor.go: `alertRule`, `sustainedFiring`, `logAlert` and `runChecks` with
-- what it stores and sends. Times of the panel are nanoseconds, those of the database seconds.
use wp_panel_en_private.Base.{
  ℕ, ◌-◌, ◌*◌, Bool, true, false, not, ◌&&◌, ◌||◌, Option, none, some, List, [], ◌∷◌, ◌++◌, map,
  take, ltb, leb, ◌==◌, if◌then◌else◌,
}
use wp_panel_en_private.Base.Text.{Text, codes, text_eq}
use wp_panel_en_private.Alert.Texts.{alert_label, get_email_tip, build_recovery_detail}

abbrev pub minute : ℕ
minute = 60000000000

-- `pending_since` is none for the zero time. `last_fired` is read only once it is set.
pub record AlertRule : Type 0 where
  pub key : Text
  pub threshold_duration : ℕ
  pub pending_since : Option ℕ
  pub last_fired : ℕ
  pub firing : Bool
  pub last_alert_msg : Text

abbrev pub new_rule : Text → ℕ → AlertRule
new_rule key threshold = record {
  key = key;
  threshold_duration = threshold;
  pending_since = none;
  last_fired = 0;
  firing = false;
  last_alert_msg = [];
}

unfoldable pub initial_rules : List AlertRule
initial_rules =
    new_rule (codes "alert_cpu") (5 * minute)
    ∷ new_rule (codes "alert_memory") (5 * minute)
    ∷ map (λ key. new_rule key 0)
        (codes "alert_disk"
          ∷ codes "alert_service"
          ∷ codes "alert_ssl"
          ∷ codes "alert_backup"
          ∷ codes "alert_website_expiry"
          ∷ codes "alert_remote_backup"
          ∷ codes "alert_cron_fail"
          ∷ codes "alert_site"
          ∷ codes "alert_system_update"
          ∷ codes "alert_panel_update"
          ∷ [])

unfoldable pub sustained_firing : AlertRule → Bool → ℕ → AlertRule × Bool
sustained_firing r instant_firing now =
    if r.threshold_duration == 0
    then (if instant_firing then (r, true) else (record r { pending_since = none }, false))
    else if not instant_firing
    then (record r { pending_since = none }, false)
    else (elim r.pending_since [
      | none ↦ (record r { pending_since = some now }, false)
      | some since ↦ (r, leb r.threshold_duration (now - since))
    ])

abbrev pub alert_resend_interval : Text → ℕ
alert_resend_interval key =
    if text_eq key (codes "alert_system_update") || text_eq key (codes "alert_panel_update")
    then 1440 * minute
    else 30 * minute

pub data Level : Type 0 where
  critical : Level
  info : Level

-- A row of alert_log; the newest stands first.
pub record AlertRow : Type 0 where
  pub alert_type : Text
  pub level : Level
  pub message : Text
  pub resolved : Bool
  pub created_at : ℕ

abbrev pub kept_rows : ℕ
kept_rows = 30

unfoldable pub log_alert : Text → Level → Text → ℕ → List AlertRow → List AlertRow
log_alert alert_type level message created_at log = take kept_rows (
    record {
      alert_type = alert_type;
      level = level;
      message = message;
      resolved = false;
      created_at = created_at;
    }
    ∷ log)

-- UPDATE alert_log SET resolved = 1 WHERE alert_type = ?
unfoldable pub resolve : Text → List AlertRow → List AlertRow
resolve alert_type log =
    map (λ row. if text_eq row.alert_type alert_type then record row { resolved = true } else row)
      log

-- SendMail with the arguments of formatEmailHTML, and SendWebhook.
pub data Notice : Type 0 where
  mail : Text → Text → Text → Text → Bool → Notice
  hook : Text → Text → Notice

pub record Channels : Type 0 where
  pub has_smtp : Bool
  pub has_webhook : Bool
  pub panel_title : Text

abbrev pub notices : Channels → Notice → Notice → List Notice
notices c m h = (if c.has_smtp then m ∷ [] else []) ++ (if c.has_webhook then h ∷ [] else [])

-- What the check of a rule finds, with the clock as the code reads it: for the threshold, for the time
-- since the last alert, for the new alert, and in the database.
pub record Look : Type 0 where
  pub instant_firing : Bool
  pub msg : Text
  pub now : ℕ
  pub later : ℕ
  pub stamp : ℕ
  pub db_now : ℕ

-- A rule, the log and what is sent.
pub record Round : Type 0 where
  pub rule : AlertRule
  pub log : List AlertRow
  pub sent : List Notice

unfoldable pub alert_begins : Channels → Look → AlertRule → List AlertRow → Round
unfolding log_alert alert_label get_email_tip
alert_begins c l r log =
    let subject = c.panel_title ++ (codes " Alert — " ++ alert_label r.key) in
    record {
      rule = record r { firing = true; last_fired = l.now; last_alert_msg = l.msg };
      log = log_alert r.key critical l.msg l.db_now log;
      sent =
          notices c (mail subject (alert_label r.key) l.msg (get_email_tip r.key false) true)
            (hook subject l.msg);
    }

unfoldable pub alert_ends : Channels → Look → AlertRule → List AlertRow → Round
unfolding log_alert resolve build_recovery_detail alert_label get_email_tip
alert_ends c l r log =
    let subject = c.panel_title ++ codes " Recovery notice" in
    let detail = build_recovery_detail r.key r.last_alert_msg in
    let send_recovery = ltb (5 * minute) (l.later - r.last_fired) || r.threshold_duration == 0 in
    record {
      rule = record r { firing = false };
      log = resolve r.key (log_alert r.key info detail l.db_now log);
      sent =
          if send_recovery
          then notices c
              (mail subject (alert_label r.key ++ codes " has returned to normal") detail
                (get_email_tip r.key true) false)
              (hook subject detail)
          else [];
    }

unfoldable pub alert_goes_on : Channels → Look → AlertRule → List AlertRow → Round
unfolding log_alert alert_label get_email_tip
alert_goes_on c l r log =
    let told = record r { last_alert_msg = l.msg } in
    let title = alert_label r.key ++ codes " (ongoing)" in
    let subject = c.panel_title ++ (codes " Alert — " ++ title) in
    if ltb (alert_resend_interval r.key) (l.later - r.last_fired)
    then record {
      rule = record told { last_fired = l.stamp };
      log = log_alert r.key critical l.msg l.db_now log;
      sent =
          notices c (mail subject title l.msg (get_email_tip r.key false) true)
            (hook subject l.msg);
    }
    else record { rule = told; log = log; sent = [] }

-- The body of the loop of runChecks, for one rule.
unfoldable pub run_rule : Channels → Bool → Look → AlertRule → List AlertRow → Round
unfolding sustained_firing alert_begins alert_ends alert_goes_on
run_rule c enabled l r log =
    if not enabled
    then record { rule = record r { firing = false; pending_since = none }; log = log; sent = [] }
    else (let (r', firing) = sustained_firing r l.instant_firing l.now in
        if firing && not r'.firing
        then alert_begins c l r' log
        else if not firing && r'.firing
        then alert_ends c l r' log
        else if firing && r'.firing
        then alert_goes_on c l r' log
        else record { rule = r'; log = log; sent = [] })

-- The rules in their order. `enabled` and `check` are what isRuleEnabled and the rule's check answer, a
-- check with the log as it stands then; `site` is the check of the sites before, where it was made.
abbrev pub run_rules :
    Channels
    → (Text → Bool)
    → (Text → List AlertRow → Look)
    → Option (Bool × Text)
    → List AlertRule
    → List AlertRow
    → List AlertRule × List AlertRow × List Notice
run_rules c enabled check site [] log = ([], log, [])
run_rules c enabled check site (r ∷ rules) log =
    let found = check r.key log in
    let look =
      if text_eq r.key (codes "alert_site")
      then (elim site [
        | none ↦ found
        | some (firing, msg) ↦ record found { instant_firing = firing; msg = msg }
      ])
      else found in
    let round = run_rule c (enabled r.key) look r log in
    let rest = run_rules c enabled check site rules round.log in
    (round.rule ∷ rest.0, rest.1, round.sent ++ rest.2)

-- `enabled_before` and `sites` are the answers before the lock is taken.
unfoldable pub run_checks :
    Channels
    → Bool
    → Bool × Text
    → (Text → Bool)
    → (Text → List AlertRow → Look)
    → List AlertRule
    → List AlertRow
    → List AlertRule × List AlertRow × List Notice
unfolding run_rule
run_checks c enabled_before sites enabled check rules log =
    run_rules c enabled check (if enabled_before then some sites else none) rules log
