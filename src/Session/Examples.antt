-- ===== src/Session/Examples.antt =====
-- The theorems about sessions at a concrete session.
use wp_panel_en_private.Base.{ℕ, ◌*◌, ◌≡◌, true, none, some, [], ◌∷◌, arith, eq_iff}
use wp_panel_en_private.Base.Text.{codes}
use wp_panel_en_private.Session.{
  Session, SessionStore, lifetime, no_sessions, create, get, clean_expired,
}
use wp_panel_en_private.Session.Renewal.{get_all, session_renewed, session_lapsed}
use wp_panel_en_private.Session.Cleaning.{replies, gets, clean_expired-replies}
use wp_panel_en_private.Session.Request.{Request}

abbrev minute : ℕ
minute = 60_000_000_000

abbrev store : SessionStore
store = (create no_sessions "k1" "admin" 0).0

abbrev session : Session
session = record { token = "k1"; username = "admin"; created_at = 0; expires_at = lifetime }

session_renewed_example :
    (get_all
      (create no_sessions "k1" "admin" 0).0
      "k1"
      ((29 * minute, 29 * minute) ∷ (50 * minute, 51 * minute) ∷ [])).1
    ≡ true
session_renewed_example =
    session_renewed no_sessions "k1" "admin" 0
      ((29 * minute, 29 * minute) ∷ (50 * minute, 51 * minute) ∷ []) (omega arith)

session_lapsed_example :
    let used =
      (get_all (create no_sessions "k1" "admin" 0).0 "k1" ((29 * minute, 30 * minute) ∷ [])).0 in
    let s' = (get used "k1" (61 * minute) (61 * minute)).0 in
    ((get used "k1" (61 * minute) (61 * minute)).1 ≡ none)
    × ((get s' "k1" 5 5).1 ≡ none)
    × (s' "k2" ≡ used "k2")
session_lapsed_example =
    session_lapsed no_sessions "k1" "admin" 0 ((29 * minute, 30 * minute) ∷ []) (61 * minute)
      (61 * minute) 5 5 "k2" (omega arith) (omega arith) (λ e. ground (arith, eq_iff "k1" "k2"))

clean_expired-replies_example :
    replies (clean_expired store (40 * minute)) ((41 * minute, 41 * minute, gets "k1") ∷ [])
    ≡ replies store ((41 * minute, 41 * minute, gets "k1") ∷ [])
clean_expired-replies_example =
    clean_expired-replies store (40 * minute) ((41 * minute, 41 * minute, gets "k1") ∷ [])
      (omega arith)

abbrev page : Request
page = record {
  path = codes "/x7/sites";
  accept = codes "text/html,*/*";
  session_cookie = some "k1";
}
