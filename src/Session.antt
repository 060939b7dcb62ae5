-- ===== src/Session.antt =====
-- The session store of the panel: the type `SessionStore` of middleware/session.go and its methods.
-- Times are nanoseconds. The map is the function from tokens to the sessions stored; `time.Now()`
-- and the new token of `Create` are arguments, and each method runs under the store's mutex.
pub mod Renewal
pub mod Cleaning
pub mod Request
mod Examples
use wp_panel_en_private.Base.{
  ℕ, ◌+◌, ◌*◌, ◌^◌, String, Bool, true, false, Option, none, some, if◌then◌else◌, ltb, str_eq,
}

pub record Session : Type 0 where
  pub token : String
  pub username : String
  pub created_at : ℕ
  pub expires_at : ℕ

abbrev pub SessionStore : Type 0
SessionStore = String → Option Session

-- 30 * time.Minute
abbrev pub lifetime : ℕ
lifetime = 30 * (60 * 10 ^ 9)

abbrev pub no_sessions : SessionStore
no_sessions token = none

-- s.sessions[token] = …, and delete(s.sessions, token) with `none`
abbrev pub write : SessionStore → String → Option Session → SessionStore
write s token entry j = if str_eq token j then entry else s j

-- now.After(session.ExpiresAt)
abbrev pub expired : Session → ℕ → Bool
expired session now = ltb session.expires_at now

unfoldable pub create : SessionStore → String → String → ℕ → SessionStore × Session
create s token username now =
    let session : Session = record {
      token = token;
      username = username;
      created_at = now;
      expires_at = now + lifetime;
    } in
    (write s token (some session), session)

-- The two calls of `time.Now()`: the first for the test, the second for the renewal.
unfoldable pub get : SessionStore → String → ℕ → ℕ → SessionStore × Option Session
get s token now later = elim (s token) [
  | none ↦ (s, none)
  | some session ↦
      if expired session now
      then (write s token none, none)
      else (let renewed : Session = record session { expires_at = later + lifetime } in
          (write s token (some renewed), some renewed))
]

unfoldable pub clean_expired : SessionStore → ℕ → SessionStore
clean_expired s now token = elim (s token) [
  | none ↦ none
  | some session ↦ if expired session now then none else some session
]

unfoldable pub delete : SessionStore → String → SessionStore
delete s token = write s token none
