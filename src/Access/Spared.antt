-- ===== src/Access/Spared.antt =====
-- What a failed login leaves alone: `RecordAttempt` of middleware/login_attempt.go.
use wp_panel_en_private.Base.{ℕ, ◌≡◌, Bool, false, arith}
use wp_panel_en_private.Base.Text.{Text, text_eq, trim_space}
use wp_panel_en_private.Access.Bans.{Tables, add_persist_ban}
use wp_panel_en_private.Access.Login.{Tracker, Db, record_attempt, ban_ip, count_recent, is_banned}

-- A failed login of one address, however many have failed before and whichever statements the
-- database refuses, changes for no other address whether it is banned at any time, nor whether the
-- firewall was asked to drop it; the other address differs from the given one with and without the spaces around
-- it.
pub record_attempt_spares :
    (is_ip : Text → Bool) (print : ℕ → Text) (t : Tracker) (db : Db) (s : Tables) (ip kind : Text)
    (now : ℕ)
    → (j : Text) (later : ℕ) → text_eq ip j ≡ false
    → text_eq (trim_space ip) j ≡ false
    → (is_banned db (record_attempt is_ip print t db s ip kind now) j later
        ≡ is_banned db s j later)
      × ((record_attempt is_ip print t db s ip kind now).persist j ≡ s.persist j)
unfolding record_attempt ban_ip count_recent is_banned add_persist_ban
record_attempt_spares is_ip print t db s ip kind now j later other trimmed =
    (ground arith, ground arith)
