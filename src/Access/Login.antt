-- ===== src/Access/Login.antt =====
-- `LoginAttemptTracker` of middleware/login_attempt.go, and `BasicAuth` of
-- middleware/basic_auth.go that asks it. Each method runs under the tracker's mutex.
use wp_panel_en_private.Base.{
  ℕ, ◌+◌, ◌*◌, Bool, true, false, not, ◌&&◌, ◌||◌, Option, none, some, List, [], ◌∷◌, ◌++◌, ltb,
  leb, if◌then◌else◌,
}
use wp_panel_en_private.Base.Text.{Text, codes, text_eq}
use wp_panel_en_private.Access.Bans.{Ban, Attempt, Tables, count_where, is_active, add_persist_ban}

-- The window in seconds, the ban in hours. `print` is fmt's %d.
pub record Tracker : Type 0 where
  pub max_attempts : ℕ
  pub attempt_window : ℕ
  pub ban_duration_hours : ℕ

-- NewLoginAttemptTracker
unfoldable pub new_login_attempt_tracker : ℕ → ℕ → ℕ → Tracker
new_login_attempt_tracker max_attempts window_minutes ban_hours = record {
  max_attempts = max_attempts;
  attempt_window = window_minutes * 60;
  ban_duration_hours = ban_hours;
}

-- Which statements of one call the database carries out; a query that fails counts as 0.
pub record Db : Type 0 where
  pub inserts_attempt : Bool
  pub counts_attempts : Bool
  pub counts_bans : Bool
  pub inserts_ban : Bool

abbrev pub sound_db : Db
sound_db = record {
  inserts_attempt = true;
  counts_attempts = true;
  counts_bans = true;
  inserts_ban = true;
}

abbrev pub recent : Tracker → Text → ℕ → Attempt → Bool
recent t ip now a = text_eq a.ip_address ip && ltb now (a.created_at + t.attempt_window)

unfoldable pub count_recent : Tracker → Db → Tables → Text → ℕ → ℕ
count_recent t db s ip now =
    if db.counts_attempts then count_where (recent t ip now) s.attempts else 0

unfoldable pub is_banned : Db → Tables → Text → ℕ → Bool
is_banned db s ip now =
    if db.counts_bans then ltb 0 (count_where (is_active ip now) s.bans) else false

module _ (is_ip : Text → Bool) (print : ℕ → Text) (t : Tracker) where
  abbrev pub login_ban : Text → Text → ℕ → Ban
  login_ban ip attempt_type now = record {
    ip_address = ip;
    ban_level = 3;
    reason =
        codes "panel_"
        ++ attempt_type
        ++ codes ": "
        ++ print t.max_attempts
        ++ codes " consecutive authentication failures";
    source_jail = codes "panel";
    banned_at = now;
    expires_at = some (now + t.ban_duration_hours * 3600);
    unbanned_at = none;
    ban_count = 1;
    is_manual = false;
  }

  unfoldable pub ban_ip : Db → Tables → Text → Text → ℕ → Tables
  ban_ip db s ip attempt_type now =
      let existing = if db.counts_bans then count_where (is_active ip now) s.bans else 0 in
      if ltb 0 existing then s else record s {
        bans = if db.inserts_ban then login_ban ip attempt_type now ∷ s.bans else s.bans;
        persist = add_persist_ban is_ip ip s.persist;
      }

  unfoldable pub record_attempt : Db → Tables → Text → Text → ℕ → Tables
  unfolding ban_ip count_recent
  record_attempt db s ip attempt_type now =
      let s' : Tables = record s {
        attempts =
            if db.inserts_attempt
            then record { ip_address = ip; attempt_type = attempt_type; created_at = now }
              ∷ s.attempts
            else s.attempts;
      } in
      if leb t.max_attempts (count_recent t db s' ip now)
      then ban_ip db s' ip attempt_type now
      else s'

-- DELETE of the rows that pass a test.
abbrev pub delete_where {ℓ} : {A : Type ℓ} → (A → Bool) → List A → List A
delete_where p [] = []
delete_where p (x ∷ xs) = let rest = delete_where p xs in if p x then rest else x ∷ rest

unfoldable pub clear_attempts : Tables → Text → Tables
clear_attempts s ip = record s { attempts = delete_where (λ a. text_eq a.ip_address ip) s.attempts }

unfoldable pub cleanup_old_attempts : Tracker → Tables → ℕ → Tables
cleanup_old_attempts t s now = record s {
  attempts = delete_where (λ a. ltb (a.created_at + t.attempt_window) now) s.attempts;
}

-- What `BasicAuth` reads of the configuration, and what it answers.
pub record Credentials : Type 0 where
  pub username : Text
  pub password : Text

pub data AuthReply : Type 0 where
  temporarily_banned : AuthReply
  unauthorized : AuthReply
  authenticated : Text → AuthReply

-- `accepts` is bcrypt's comparison of a hash and a password.
module _ (is_ip : Text → Bool) (print : ℕ → Text) (accepts : Text → Text → Bool) (t : Tracker) where
  abbrev check_credentials : Db → Tables → Text → ℕ → Credentials → Credentials → Tables × AuthReply
  check_credentials db s ip now config given =
      if not (text_eq given.username config.username)
        || not (accepts config.password given.password)
      then (record_attempt is_ip print t db s ip (codes "basic_auth") now, unauthorized)
      else (s, authenticated given.username)

  -- The header's credentials may be missing, and so may the configuration, whose `password` is the
  -- stored hash.
  unfoldable pub basic_auth :
      Db → Tables → Text → ℕ → Option Credentials → Option Credentials → Tables × AuthReply
  basic_auth db s ip now config given =
      if is_banned db s ip now then (s, temporarily_banned) else (elim given [
        | none ↦ (s, unauthorized)
        | some g ↦ (elim config [
          | none ↦ (s, unauthorized)
          | some c ↦ check_credentials db s ip now c g
        ])
      ])
