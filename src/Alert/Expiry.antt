-- ===== src/Alert/Expiry.antt =====
-- `checkWebsiteExpiry` of executor/alert_monitor.go over the sites and the log of alerts.
use wp_panel_en_private.Base.{
  ℕ, ◌+◌, ◌-◌, ◌*◌, ◌/◌, Bool, true, false, not, ◌&&◌, ◌||◌, Option, none, some, List, [], ◌∷◌,
  ◌++◌, ltb, ◌==◌, if◌then◌else◌, any,
}
use wp_panel_en_private.Base.Text.{Text, codes, text_eq}
use wp_panel_en_private.Base.Int.{pos}
use wp_panel_en_private.Cron.Render.{print_int}
use wp_panel_en_private.Alert.Texts.{join_with, separator}
use wp_panel_en_private.Alert.Rules.{AlertRow, minute}

-- A row of websites; `expires_at` in nanoseconds.
pub record ExpiringSite : Type 0 where
  pub domain : Text
  pub expires_at : ℕ

abbrev pub day_seconds : ℕ
day_seconds = 86400

abbrev pub website_expiry : Text
website_expiry = codes "alert_website_expiry"

abbrev pub is_milestone : ℕ → Bool
is_milestone days = days == 14 || days == 7 || days == 3 || days == 1

-- int(expiresAt.Sub(now).Hours() / 24), which is no milestone where the time is past.
abbrev pub days_left : ℕ → ℕ → ℕ
days_left expires_at now = (expires_at - now) / (1440 * minute)

abbrev pub verdict : List Text → Bool × Text
verdict [] = (false, [])
verdict (m ∷ ms) = (true, join_with (separator ∷ []) (m ∷ ms))

module _ (like : Text → Text → Bool) where
  -- Whether the log has an alert of the last 24 hours whose message is like `domain%`.
  unfoldable pub alerted : Text → ℕ → List AlertRow → Bool
  alerted domain db_now log =
      any
        (λ row.
          text_eq row.alert_type website_expiry
          && like (domain ++ (b'%' ∷ [])) row.message
          && ltb db_now (row.created_at + day_seconds))
        log

  -- A row that cannot be read is skipped.
  abbrev pub expiry_messages : ℕ → ℕ → List AlertRow → List (Option ExpiringSite) → List Text
  expiry_messages now db_now log [] = []
  expiry_messages now db_now log (none ∷ sites) = expiry_messages now db_now log sites
  expiry_messages now db_now log (some site ∷ sites) =
      let rest = expiry_messages now db_now log sites in
      let days = days_left site.expires_at now in
      if not (is_milestone days) || alerted site.domain db_now log
      then rest
      else (site.domain ++ (codes " expires in " ++ (print_int (pos days) ++ codes " days"))) ∷ rest

  -- `sites` are those whose time is to come, or none where the query fails.
  unfoldable pub check_website_expiry :
      ℕ → ℕ → List AlertRow → Option (List (Option ExpiringSite)) → Bool × Text
  unfolding alerted
  check_website_expiry now db_now log none = (false, [])
  check_website_expiry now db_now log (some sites) = verdict (expiry_messages now db_now log sites)
