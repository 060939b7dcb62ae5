-- ===== src/Access/Visits.antt =====
-- Requests to `BasicAuth` (middleware/basic_auth.go) and to `Login` behind it (handlers/auth.go) that
-- share the tables, and what each may do to them.
use Prim.Native.Nat.{ℕ}
use native.Mathlib.Omega.{arith}
use wp_panel_en_private.Base.{
  ◌≡◌, refl, inl, inr, Bool, true, false, not, ◌&&◌, ◌||◌, Option, none, some, List, [], ◌∷◌,
  Bool-cases, if◌then◌else◌, if-By,
}
use wp_panel_en_private.Base.Text.{Text, codes, text_eq}
use wp_panel_en_private.Access.Bans.{Tables}
use wp_panel_en_private.Access.Login.{
  Tracker, sound_db, Credentials, AuthReply, temporarily_banned, unauthorized, authenticated,
  basic_auth, record_attempt, is_banned, clear_attempts,
}

-- What `Login` gets: a password, and the hash that the database has for the user, if any. That the
-- comparison with a dummy hash takes as long is left out.
pub record LoginForm : Type 0 where
  pub stored : Option Text
  pub typed : Text

-- One request: who sends it, when, with which credentials, if any, and the form where it is one to
-- `Login` that can be read.
pub record Visit : Type 0 where
  pub ip : Text
  pub at : ℕ
  pub given : Option Credentials
  pub form : Option LoginForm

module _ (is_ip : Text → Bool) (print : ℕ → Text) (accepts : Text → Text → Bool) (t : Tracker)
    (c : Credentials) where
  abbrev pub is_accepted : LoginForm → Bool
  is_accepted f = elim f.stored [ none ↦ false | some hash ↦ accepts hash f.typed ]

  -- What `Login` does to the tables.
  unfoldable pub login : Tables → Text → ℕ → LoginForm → Tables
  unfolding record_attempt clear_attempts
  login s ip now f =
      if is_accepted f
      then clear_attempts s ip
      else record_attempt is_ip print t sound_db s ip (codes "web_login") now

  -- What the handler behind `BasicAuth` does, for each answer of `BasicAuth`.
  abbrev pub next_of : Tables × AuthReply → Text → ℕ → Option LoginForm → Tables
  next_of (s, authenticated user) ip now (some f) = login s ip now f
  next_of (s, authenticated user) ip now none = s
  next_of (s, temporarily_banned) ip now form = s
  next_of (s, unauthorized) ip now form = s

  unfoldable pub visit : Tables → Visit → Tables
  unfolding basic_auth login
  visit s v =
      next_of (basic_auth is_ip print accepts t sound_db s v.ip v.at (some c) v.given) v.ip v.at
        v.form

  -- The tables after a run of requests.
  abbrev pub visit_all : Tables → List Visit → Tables
  visit_all s [] = s
  visit_all s (v ∷ vs) = visit_all (visit s v) vs

  abbrev pub is_wrong : Option Credentials → Bool
  is_wrong none = false
  is_wrong (some g) = not (text_eq g.username c.username) || not (accepts c.password g.password)

  -- A form that `Login` refuses.
  abbrev pub is_refused : Option LoginForm → Bool
  is_refused none = false
  is_refused (some f) = not (is_accepted f)

  -- Wrong credentials, or right ones with a form that `Login` refuses.
  abbrev pub fails : Option Credentials → Option LoginForm → Bool
  fails none form = false
  fails (some g) form = is_wrong (some g) || is_refused form

  -- A form that `Login` accepts, behind credentials that are right.
  abbrev pub signs_in : Option Credentials → Option LoginForm → Bool
  signs_in (some g) (some f) = not (is_wrong (some g)) && is_accepted f
  signs_in _ _ = false

  -- What a visit of an address does to the tables.
  pub data Visited (s : Tables) (ip : Text) (now : ℕ) (given : Option Credentials)
      (form : Option LoginForm) : Tables → Type 0 where
    refused : is_banned sound_db s ip now ≡ true → Visited s ip now given form s
    passed : fails given form ≡ false → Visited s ip now given form s
    recorded :
        (kind : Text)
        → is_banned sound_db s ip now ≡ false
        → Visited s ip now given form (record_attempt is_ip print t sound_db s ip kind now)
    signed_in :
        signs_in given form ≡ true
        → fails given form ≡ false
        → Visited s ip now given form (clear_attempts s ip)

  refused-Visited :
      (s : Tables) (ip : Text) (now : ℕ) (given : Option Credentials) (form : Option LoginForm)
      → is_banned sound_db s ip now ≡ true
      → Visited s ip now given form
          (next_of (basic_auth is_ip print accepts t sound_db s ip now (some c) given) ip now form)
  unfolding basic_auth
  refused-Visited s ip now given form banned = rw banned (refused banned)

  login-Visited :
      (s : Tables) (ip : Text) (now : ℕ) (g : Credentials) (f : LoginForm)
      → is_banned sound_db s ip now ≡ false
      → is_wrong (some g) ≡ false
      → Visited s ip now (some g) (some f) (login s ip now f)
  unfolding login
  login-Visited s ip now g f free right =
      if-By (Visited s ip now (some g) (some f)) (is_accepted f)
        (λ e. signed_in (ground arith) (ground arith)) (λ e. recorded (codes "web_login") free)

  open-Visited :
      (s : Tables) (ip : Text) (now : ℕ) (given : Option Credentials) (form : Option LoginForm)
      → is_banned sound_db s ip now ≡ false
      → Visited s ip now given form
          (next_of (basic_auth is_ip print accepts t sound_db s ip now (some c) given) ip now form)
  unfolding basic_auth
  open-Visited s ip now none form free = rw free (passed refl)
  open-Visited s ip now (some g) form free = elim (Bool-cases (is_wrong (some g))) [
    | inl wrong ↦ rw (free, wrong) (recorded (codes "basic_auth") free)
    | inr right ↦ rw (free, right) (right-Visited form right)
  ]
    where
      right-Visited :
          (form : Option LoginForm)
          → is_wrong (some g) ≡ false
          → Visited s ip now (some g) form (next_of (s, authenticated g.username) ip now form)
      right-Visited none right = passed (ground arith)
      right-Visited (some f) right = login-Visited s ip now g f free right

  pub visit-Visited : (s : Tables) (v : Visit) → Visited s v.ip v.at v.given v.form (visit s v)
  unfolding visit
  visit-Visited s v = elim (Bool-cases (is_banned sound_db s v.ip v.at)) [
    | inl banned ↦ refused-Visited s v.ip v.at v.given v.form banned
    | inr free ↦ open-Visited s v.ip v.at v.given v.form free
  ]

  -- A failed request of the address, and one that signs in.
  abbrev pub is_guess : Text → Visit → Bool
  is_guess ip v = text_eq v.ip ip && fails v.given v.form

  abbrev pub is_login : Text → Visit → Bool
  is_login ip v = text_eq v.ip ip && signs_in v.given v.form
