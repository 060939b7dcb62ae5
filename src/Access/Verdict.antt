-- ===== src/Access/Verdict.antt =====
-- What `executeManualBan` of executor/fail2ban.go leaves behind.
use mathlib.Core.Option
use wp_panel_en_private.Base.{
  ℕ, ◌+◌, ◌≡◌, ◌≢◌, Bool, true, ◌&&◌, ◌||◌, Option, none, some, ◌∷◌, leb,
}
use wp_panel_en_private.Base.Fault.{Fault}
use wp_panel_en_private.Base.Int.{ℤ, pos}
use wp_panel_en_private.Base.Text.{Text, text_eq}
use wp_panel_en_private.Nginx.{is_valid_ip_or_cidr}
use wp_panel_en_private.Nginx.Refines.{held}
use wp_panel_en_private.Access.Bans.{Ban, Tables}
use wp_panel_en_private.Access.Manual.{BanReply, banned, failed, BanState, ban_message}

-- The level and the duration in seconds of a manual ban, by the duration that is asked for: none is a
-- ban without an end.
pub data ManualSentence : ℤ → ℕ → Option ℕ → Type 0 where
  for_ever : ManualSentence (pos 0) 5 none
  an_hour : ManualSentence (pos 3600) 3 (some 3600)
  a_day : ManualSentence (pos 86400) 3 (some 86400)
  ten_minutes :
      {asked : ℤ}
      → asked ≢ pos 0
      → asked ≢ pos 3600
      → asked ≢ pos 86400
      → ManualSentence asked 2 (some 600)

module _ (is_ip is_cidr : Text → Bool) (print : ℤ → Text) (stored : ℕ → ℕ) where
  abbrev pub is_valid : Text → Bool
  is_valid = is_valid_ip_or_cidr is_ip is_cidr

  -- The row of a manual ban, besides the rows there were, and the set of nftables.
  pub record NewBan (ip : Text) (asked : ℤ) (now : ℕ) (old new : Tables) : Type 0 where
    pub row : Ban
    pub duration : Option ℕ
    pub inserted : new.bans ≡ row ∷ old.bans
    pub named : row.ip_address ≡ ip
    pub by_hand : row.is_manual ≡ true
    pub dated : row.banned_at ≡ now
    pub standing : row.unbanned_at ≡ none
    pub sentenced : ManualSentence asked row.ban_level duration
    pub ends : row.expires_at ≡ Option.map (λ seconds. stored (now + seconds)) duration
    pub listed : (j : Text) → new.persist j ≡ (leb 3 row.ban_level && text_eq ip j || old.persist j)
    pub attempts : new.attempts ≡ old.attempts

  -- How a manual ban of an address ends.
  pub data Verdict (ip : Text) (asked : ℤ) (now : ℕ) (s : BanState)
      : BanState × BanReply → Type 0 where
    banned_by :
        {after : BanState}
        → NewBan ip asked now s.tables after.tables
        → ((j : Text) → held is_valid after.file j ≡ (text_eq ip j || held is_valid s.file j))
        → Verdict ip asked now s (after, banned (ban_message is_ip is_cidr print stored ip asked))
    refused :
        {after : BanState} (why : Text)
        → after.tables ≡ s.tables
        → Verdict ip asked now s (after, failed why)
