-- ===== src/Access/Lockout.antt =====
-- A run of requests to `BasicAuth` (middleware/basic_auth.go) and to `Login` behind it
-- (handlers/auth.go) that shares the tables: what a guesser of the password meets.
use Prim.Native.Nat.{ℕ, ◌+◌, ◌*◌, ◌≤◌, ◌<◌}
use wp_panel_en_private.Base.{◌≡◌, ◌⊎◌, Bool, true, not, ◌&&◌, ◌||◌, ltb, leb, any, all}
use wp_panel_en_private.Base.Text.{Text}
use wp_panel_en_private.Access.Bans.{Ban, Attempt, Tables, count_where, is_active}
use wp_panel_en_private.Access.Login.{Tracker, Credentials}
use wp_panel_en_private.Access.Counting.{covers, since}

-- A time of the window that starts at `t0`.
abbrev pub within : ℕ → ℕ → ℕ → Bool
within t0 width now = leb t0 now && ltb now (t0 + width)

module _ (is_ip : Text → Bool) (print : ℕ → Text) (accepts : Text → Text → Bool) (t : Tracker)
    (c : Credentials) where
  module _ (ip : Text) (t0 : ℕ) where
    abbrev until : ℕ
    until = t0 + t.ban_duration_hours * 3600

    -- What holds after k failed guesses: no ban of the address ends too early, and it is banned, or
    -- the guesses are counted and are too few.
    abbrev Guarded : ℕ → Tables → Type 0
    Guarded k s =
        (all (λ b. not (is_active ip t0 b) || covers ip until b) s.bans ≡ true)
        × ((any (covers ip until) s.bans ≡ true)
            ⊎ ((k ≤ count_where (since ip t0) s.attempts) × (k < t.max_attempts)))

    abbrev starts_late : Ban → Bool
    starts_late b = not (is_active ip t0 b) || covers ip until b

    -- The row that an attempt of the address adds.
    abbrev row : Text → ℕ → Attempt
    row kind now = record { ip_address = ip; attempt_type = kind; created_at = now }
