-- ===== src/Session/Request.antt =====
-- The handler `SessionRequired` of middleware/session.go, and the helpers that it calls to refuse a
-- request. Of a request the parts stand here that the handler reads.
use wp_panel_en_private.Base.{
  ℕ, ◌≡◌, String, Bool, true, false, ◌&&◌, Option, none, some, [], ◌∷◌, ◌++◌, arith, str_eq, ltb,
  ◌==◌, if◌then◌else◌,
}
use wp_panel_en_private.Base.Text.{Text, codes, contains, trim}
use wp_panel_en_private.Session.{Session, SessionStore, get}

pub record Request : Type 0 where
  pub path : Text
  pub accept : Text
  pub session_cookie : Option String

-- What the handler makes of the request. With `next` the renewed cookie is set and the name of the
-- user is passed on; both others delete the cookie.
pub data Reply : Type 0 where
  next : String → String → Reply
  redirect : Text → Reply
  unauthorized : String → Reply

abbrev slash : ℕ
slash = b'/'

-- strings.Contains(accept, "text/html")
unfoldable pub is_page_request : Request → Bool
is_page_request r = contains r.accept (codes "text/html")

-- "/" and what stands before the next slash: the first part of strings.SplitN(path, "/", 2).
unfoldable pub before_slash : Text → Text
before_slash [] = []
before_slash (c ∷ s) = if c == slash then [] else c ∷ before_slash s

unfoldable pub extract_prefix : Request → Text
unfolding before_slash
extract_prefix r = slash ∷ before_slash (trim (λ c. c == slash) r.path)

unfoldable pub abort_session : Request → String → Reply
unfolding is_page_request extract_prefix
abort_session r message =
    if is_page_request r
    then redirect (extract_prefix r ++ codes "/login")
    else unauthorized message

abbrev admit : Request → SessionStore × Option Session → SessionStore × Reply
admit r (s, none) = (s, abort_session r "Session expired, please Login")
admit r (s, some session) = (s, next session.token session.username)

unfoldable pub session_required : SessionStore → Request → ℕ → ℕ → SessionStore × Reply
unfolding abort_session
session_required s r now later = elim r.session_cookie [
  | none ↦ (s, abort_session r "Please Login")
  | some token ↦
      if str_eq token ""
      then (s, abort_session r "Please Login")
      else admit r (get s token now later)
]

-- The token and the user that a reply lets in.
abbrev pub admitted : Reply → Option (String × String)
admitted (next token username) = some (token, username)
admitted _ = none

abbrev pub is_redirect : Reply → Bool
is_redirect (redirect location) = true
is_redirect _ = false

-- The session that the request's cookie names and that has not expired.
abbrev pub live : SessionStore → ℕ → Option String → Option Session
live s now none = none
live s now (some token) = if str_eq token "" then none else (elim (s token) [
  | none ↦ none
  | some session ↦ if ltb session.expires_at now then none else some session
])

abbrev pub identity : Option Session → Option (String × String)
identity none = none
identity (some session) = some (session.token, session.username)

abbrev pub is_none : Option Session → Bool
is_none none = true
is_none (some session) = false

-- A request is let in exactly if its cookie names a session that has not expired, and then with the
-- token and the user of that session. A request that is not let in is redirected to the login page
-- exactly if it asks for a page.
pub session_required_lem :
    (s : SessionStore) (r : Request) (now later : ℕ)
    → let reply = (session_required s r now later).1 in
      (admitted reply ≡ identity (live s now r.session_cookie))
      × (is_redirect reply ≡ (is_none (live s now r.session_cookie) && is_page_request r))
unfolding session_required get
session_required_lem s r now later = ground arith
