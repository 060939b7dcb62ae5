-- ===== src/Session/Renewal.antt =====
-- How long a session lives: until thirty minutes without an access.
use wp_panel_en_private.Base.{
  ℕ, ◌+◌, ◌*◌, ◌≤◌, ◌<◌, ◌≡◌, ◌≢◌, refl, String, Bool, true, false, none, some, List, [], ◌∷◌,
  arith, eq_iff,
}
use wp_panel_en_private.Session.{Session, SessionStore, lifetime, write, create, get, delete}

-- A session is found under its own token, and each other token as before.
pub create-get :
    (s : SessionStore) (token username : String) (now at later : ℕ)
    → at ≤ now + lifetime
    → (get (create s token username now).0 token at later).1
      ≡ some (record {
        token = token;
        username = username;
        created_at = now;
        expires_at = later + lifetime;
      })
unfolding create get
create-get s token username now at later h = ground (arith, eq_iff token token)

-- Accesses, in order of time, each not more than `lifetime` after the renewal before it. The pairs
-- are the two times that `get` reads.
abbrev pub Lively : ℕ → List (ℕ × ℕ) → Type 0
Lively renewed [] = Unit
Lively renewed ((now, later) ∷ rest) = (now ≤ renewed + lifetime) × Lively later rest

-- The store after the accesses, and whether each found a session.
unfoldable pub get_all : SessionStore → String → List (ℕ × ℕ) → SessionStore × Bool
get_all s token [] = (s, true)
get_all s token ((now, later) ∷ rest) =
    let (s', found) = get s token now later in
    let others = get_all s' token rest in
    elim found [ none ↦ (others.0, false) | some session ↦ others ]

get-live :
    (s : SessionStore) (token : String) (x : Session) (now later : ℕ)
    → s token ≡ some x
    → now ≤ x.expires_at
    → let renewed : Session = record x { expires_at = later + lifetime } in
      get s token now later ≡ (write s token (some renewed), some renewed)
unfolding get
get-live s token x now later e h = ground arith

get_all-found :
    (s : SessionStore) (token : String) (x : Session) (renewed : ℕ) (accesses : List (ℕ × ℕ))
    → s token ≡ some x
    → x.expires_at ≡ renewed + lifetime
    → Lively renewed accesses
    → (get_all s token accesses).1 ≡ true
unfolding get_all
get_all-found s token x renewed [] e t l = refl
get_all-found s token x renewed ((now, later) ∷ rest) e t l =
    let x' : Session = record x { expires_at = later + lifetime } in
    ground (
      arith,
      get-live s token x now later e (omega arith),
      get_all-found (write s token (some x')) token x' later rest
          (ground (arith, eq_iff token token)) refl l.1,
    )

-- A session that is used at least every thirty minutes is found at each of its accesses, however
-- long that goes on.
pub session_renewed :
    (s : SessionStore) (token username : String) (now : ℕ) (accesses : List (ℕ × ℕ))
    → Lively now accesses
    → (get_all (create s token username now).0 token accesses).1 ≡ true
unfolding create
session_renewed s token username now accesses l =
    get_all-found _ token
      (record { token = token; username = username; created_at = now; expires_at = now + lifetime })
      now accesses (ground (arith, eq_iff token token)) refl l

-- 30 * time.Minute in nanoseconds.
abbrev pub thirty_minutes : ℕ
thirty_minutes = 30 * 60 * 1000000000

-- When the session was used last.
abbrev pub last_use : ℕ → List (ℕ × ℕ) → ℕ
last_use renewed [] = renewed
last_use renewed ((now, later) ∷ rest) = last_use later rest

get_all-kept :
    (s : SessionStore) (token : String) (x : Session) (renewed : ℕ) (accesses : List (ℕ × ℕ))
    → s token ≡ some x
    → x.expires_at ≡ renewed + lifetime
    → Lively renewed accesses
    → (y : Session) × ((get_all s token accesses).0 token ≡ some y)
      × (y.expires_at ≡ last_use renewed accesses + lifetime)
unfolding get_all
get_all-kept s token x renewed [] e t l = (x, e, t)
get_all-kept s token x renewed ((now, later) ∷ rest) e t l =
    let x' : Session = record x { expires_at = later + lifetime } in
    let (y, found, until) =
      get_all-kept (write s token (some x')) token x' later rest
        (ground (arith, eq_iff token token)) refl l.1 in
    (y, ground (arith, get-live s token x now later e (omega arith), found), until)

get-lapsed :
    (s : SessionStore) (token : String) (x : Session) (now later now' later' : ℕ) (other : String)
    → s token ≡ some x
    → x.expires_at < now
    → token ≢ other
    → let s' = (get s token now later).0 in
      ((get s token now later).1 ≡ none)
      × ((get s' token now' later').1 ≡ none)
      × (s' other ≡ s other)
unfolding get
get-lapsed s token x now later now' later' other e h ne =
    ground (arith, eq_iff token token, eq_iff token other)

-- A session that was used at least every thirty minutes and then not for more than thirty minutes
-- since its last use, or since it was made, is not found, is removed, and is not found at any later
-- access either; the other tokens keep their sessions.
pub session_lapsed :
    (s : SessionStore) (token username : String) (made : ℕ) (accesses : List (ℕ × ℕ))
    (now later now' later' : ℕ) (other : String)
    → Lively made accesses
    → last_use made accesses + thirty_minutes < now
    → token ≢ other
    → let used = (get_all (create s token username made).0 token accesses).0 in
      let s' = (get used token now later).0 in
      ((get used token now later).1 ≡ none)
      × ((get s' token now' later').1 ≡ none)
      × (s' other ≡ used other)
unfolding create
session_lapsed s token username made accesses now later now' later' other l late ne =
    let first : Session = record {
      token = token;
      username = username;
      created_at = made;
      expires_at = made + lifetime;
    } in
    let (y, found, until) =
      get_all-kept (create s token username made).0 token first made accesses
        (ground (arith, eq_iff token token)) refl l in
    get-lapsed _ token y now later now' later' other found (omega (arith, until)) ne

-- After `Delete` no access finds the session, whenever it is made; the other tokens keep theirs.
pub delete-get :
    (s : SessionStore) (token other : String) (now later : ℕ)
    → token ≢ other
    → ((get (delete s token) token now later).1 ≡ none)
      × ((get (delete s token) other now later).1 ≡ (get s other now later).1)
unfolding delete get
delete-get s token other now later ne = ground (arith, eq_iff token token, eq_iff token other)
