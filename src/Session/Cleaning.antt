-- ===== src/Session/Cleaning.antt =====
-- `CleanExpired` only frees memory: no access can tell whether it ran.
use wp_panel_en_private.Base.{
  ℕ, ◌≤◌, ◌≡◌, refl, ap₂, String, Option, none, some, List, [], ◌∷◌, arith, eq_iff, if◌then◌else◌,
}
use wp_panel_en_private.Session.{Session, SessionStore, expired, create, get, clean_expired, delete}

-- What a client calls: `Create` with a token and a user, `Get` and `Delete`, each at a time.
pub data Call : Type 0 where
  creates : String → String → Call
  gets : String → Call
  deletes : String → Call

-- A call at time `now`; `later` is the second time that `Get` reads. The reply is the session.
unfoldable pub call : SessionStore → ℕ → ℕ → Call → SessionStore × Option Session
unfolding create get delete
call s now later (creates token username) =
    let (s', x) = create s token username now in (s', some x)
call s now later (gets token) = get s token now later
call s now later (deletes token) = (delete s token, none)

-- What can be seen of a store at a time, now or later.
abbrev view : ℕ → Option Session → Option Session
view now none = none
view now (some x) = if expired x now then none else some x

-- Two stores that differ only in sessions that have expired by then.
abbrev pub SameAt : ℕ → SessionStore → SessionStore → Type 0
SameAt now s t = (token : String) → view now (s token) ≡ view now (t token)

clean_expired-SameAt : (s : SessionStore) (now : ℕ) → SameAt now (clean_expired s now) s
unfolding clean_expired
clean_expired-SameAt s now token = ground arith

SameAt-later : (s t : SessionStore) (now at : ℕ) → now ≤ at → SameAt now s t → SameAt at s t
SameAt-later s t now at h same token = ground (arith, same token)

call-SameAt :
    (s t : SessionStore) (now later : ℕ) (c : Call)
    → SameAt now s t
    → ((call s now later c).1 ≡ (call t now later c).1)
      × SameAt now (call s now later c).0 (call t now later c).0
unfolding call
call-SameAt s t now later (creates token username) same =
    (refl, λ j. ground (arith, same j, eq_iff token j))
call-SameAt s t now later (gets token) same =
    (ground (arith, same token), λ j. ground (arith, same j, same token, eq_iff token j))
call-SameAt s t now later (deletes token) same = (refl, λ j. ground (arith, same j, eq_iff token j))

-- Calls with their two times, in order of time from `now` on.
abbrev pub Timed : ℕ → List (ℕ × ℕ × Call) → Type 0
Timed now [] = Unit
Timed now ((at, later, c) ∷ rest) = (now ≤ at) × (at ≤ later) × Timed later rest

-- The replies to a list of calls.
unfoldable pub replies : SessionStore → List (ℕ × ℕ × Call) → List (Option Session)
replies s [] = []
replies s ((at, later, c) ∷ rest) = let (s', reply) = call s at later c in reply ∷ replies s' rest

replies-SameAt :
    (s t : SessionStore) (now : ℕ) (calls : List (ℕ × ℕ × Call))
    → SameAt now s t
    → Timed now calls
    → replies s calls ≡ replies t calls
unfolding replies
replies-SameAt s t now [] same timed = refl
replies-SameAt s t now ((at, later, c) ∷ rest) same timed =
    let (reply, after) = call-SameAt s t at later c (SameAt-later s t now at timed.0 same) in
    ap₂ ◌∷◌ reply (
      replies-SameAt (call s at later c).0 (call t at later c).0 later rest
        (SameAt-later (call s at later c).0 (call t at later c).0 at later timed.1 after) timed.2)

-- Cleaning changes no reply: whatever is called from then on, the replies are those that the store
-- would have given without it.
pub clean_expired-replies :
    (s : SessionStore) (now : ℕ) (calls : List (ℕ × ℕ × Call))
    → Timed now calls
    → replies (clean_expired s now) calls ≡ replies s calls
clean_expired-replies s now calls timed =
    replies-SameAt (clean_expired s now) s now calls (clean_expired-SameAt s now) timed
