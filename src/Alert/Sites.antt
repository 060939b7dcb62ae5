-- ===== src/Alert/Sites.antt =====
-- `checkSites` of executor/alert_monitor.go with its three maps: when a site was checked last, what its
-- failure says, and how often it failed in a row.
use wp_panel_en_private.Base.{
  ℕ, suc, ◌-◌, ◌*◌, ◌/◌, Bool, false, not, ◌||◌, Option, none, some, List, [], ◌∷◌, ◌++◌, length,
  any, ltb, leb, ◌==◌, if◌then◌else◌,
}
use wp_panel_en_private.Base.Int.{ℤ, pos, negsuc}
use wp_panel_en_private.Base.Text.{Text, codes, text_eq}
use wp_panel_en_private.Cron.Render.{print_int}
use wp_panel_en_private.Alert.Rules.{minute}
use wp_panel_en_private.Alert.Expiry.{verdict}

abbrev pub site_failure_alert_threshold : ℕ
site_failure_alert_threshold = 2

pub record SiteChecks : Type 0 where
  pub last_check : List (Text × ℕ)
  pub messages : Text → Option Text
  pub counts : Text → ℕ

abbrev pub no_checks : SiteChecks
no_checks = record { last_check = []; messages = λ id. none; counts = λ id. 0 }

pub record SiteInfo : Type 0 where
  pub id : Text
  pub domain : Text
  pub ssl : Bool
  pub interval : ℤ

-- Minutes; what is not positive counts as 5.
abbrev pub interval_of : SiteInfo → ℕ
interval_of s = elim s.interval [ pos n ↦ if n == 0 then 5 else n | negsuc n ↦ 5 ]

-- The rows that can be read.
abbrev pub readable : List (Option SiteInfo) → List SiteInfo
readable [] = []
readable (none ∷ rows) = readable rows
readable (some s ∷ rows) = s ∷ readable rows

abbrev pub seen : List SiteInfo → Text → Bool
seen sites id = any (λ s. text_eq s.id id) sites

abbrev pub last_of : Text → List (Text × ℕ) → Option ℕ
last_of id [] = none
last_of id ((key, at) ∷ checks) =
    let rest = last_of id checks in if text_eq key id then some at else rest

-- The entries whose key passes.
abbrev pub only : (Text → Bool) → List (Text × ℕ) → List (Text × ℕ)
only keep [] = []
only keep ((key, at) ∷ checks) =
    let rest = only keep checks in if keep key then (key, at) ∷ rest else rest

unfoldable pub forget_unseen : List SiteInfo → SiteChecks → SiteChecks
forget_unseen sites s = record {
  last_check =
      if ltb 100 (length s.last_check) then only (seen sites) s.last_check else s.last_check;
  messages = λ id. if seen sites id then s.messages id else none;
  counts = λ id. (elim (s.messages id) [
    | none ↦ s.counts id
    | some msg ↦ if seen sites id then s.counts id else 0
  ]);
}

pub record CheckTarget : Type 0 where
  pub id : Text
  pub domain : Text
  pub url : Text

abbrev pub target_of : ℕ → SiteInfo → CheckTarget
target_of now s = record {
  id = s.id;
  domain = s.domain;
  url =
      codes (if s.ssl then "https" else "http")
      ++ (codes "://" ++ (s.domain ++ (codes "/?wp_hc=" ++ print_int (pos (now / 1000000000)))));
}

unfoldable pub is_recent : ℕ → SiteInfo → SiteChecks → Bool
is_recent now site s = elim (last_of site.id s.last_check) [
  | none ↦ false
  | some last ↦ ltb (now - last) (interval_of site * minute)
]

-- siteLastCheck at the site's id set to the time.
abbrev pub marked : ℕ → SiteInfo → SiteChecks → SiteChecks
marked now site s = record s {
  last_check = (site.id, now) ∷ only (λ key. not (text_eq key site.id)) s.last_check;
}

-- The message of a site that was checked a short while ago.
abbrev pub known_message : Option Text → ℕ → List Text
known_message none count = []
known_message (some msg) count = if leb site_failure_alert_threshold count then msg ∷ [] else []

abbrev pub known_failure : SiteInfo → SiteChecks → List Text
known_failure site s = known_message (s.messages site.id) (s.counts site.id)

-- The sites that are due, and what is known of the others.
unfoldable pub choose_due :
    ℕ → List SiteInfo → SiteChecks → SiteChecks × List CheckTarget × List Text
unfolding is_recent
choose_due now [] s = (s, [], [])
choose_due now (site ∷ sites) s =
    let recent = is_recent now site s in
    let rest = choose_due now sites (if recent then s else marked now site s) in
    if recent
    then (rest.0, rest.1, known_failure site s ++ rest.2)
    else (rest.0, target_of now site ∷ rest.1, rest.2)

-- What a request answers.
pub data Answer : Type 0 where
  unreachable : Text → Answer
  returned : ℕ → Answer

pub record CheckResult : Type 0 where
  pub id : Text
  pub domain : Text
  pub answer : Answer

unfoldable pub failure_of : CheckResult → Option Text
failure_of r = elim r.answer [
  | unreachable why ↦ some (r.domain ++ (codes " unreachable (" ++ (why ++ codes ")")))
  | returned code ↦
      if ltb code 200 || leb 400 code
      then some (r.domain ++ (codes " returned " ++ print_int (pos code)))
      else none
]

abbrev pub set_at {ℓ} : {A : Type ℓ} → Text → A → (Text → A) → Text → A
set_at id value f id' = if text_eq id id' then value else f id'

-- A result with what its failure says, and the messages that it adds.
abbrev pub record_outcome : Text → SiteChecks → Option Text → SiteChecks × List Text
record_outcome id s none =
    (record s { messages = set_at id none s.messages; counts = set_at id 0 s.counts }, [])
record_outcome id s (some msg) =
    let count = suc (s.counts id) in
    (
      record s { messages = set_at id (some msg) s.messages; counts = set_at id count s.counts },
      if leb site_failure_alert_threshold count then msg ∷ [] else [],
    )

unfoldable pub record_result : CheckResult → SiteChecks → SiteChecks × List Text
unfolding failure_of
record_result r s = record_outcome r.id s (failure_of r)

abbrev pub record_results : List CheckResult → SiteChecks → SiteChecks × List Text
record_results [] s = (s, [])
record_results (r ∷ results) s =
    let next = record_result r s in
    let rest = record_results results next.0 in (rest.0, next.1 ++ rest.1)

-- `ask` gives the results of the requests in the order in which they arrive.
unfoldable pub check_sites :
    ℕ
    → Option (List (Option SiteInfo))
    → (List CheckTarget → List CheckResult)
    → SiteChecks
    → SiteChecks × (Bool × Text)
unfolding forget_unseen choose_due record_result
check_sites now none ask s = (s, (false, []))
check_sites now (some rows) ask s =
    let sites = readable rows in
    let (chosen, due, known) = choose_due now sites (forget_unseen sites s) in
    let (after, found) = record_results (ask due) chosen in (after, verdict (known ++ found))
