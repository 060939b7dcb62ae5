-- ===== src/Access/Scan.antt =====
-- `ScanDefense` of middleware/scan_defense.go: a request beside the panel's path that no browser sends
-- bans its address.
use wp_panel_en_private.Base.{
  ℕ, ◌+◌, ◌*◌, ◌≡◌, refl, arith, Bool, true, false, not, ◌&&◌, ◌||◌, some, none, List, [], ◌∷◌,
  ◌++◌, ltb, leb, if◌then◌else◌, any, length, take, map,
}
use wp_panel_en_private.Base.Text.{
  Text, codes, text_eq, text_eq_refl, has_prefix, has_suffix, contains, trim_space, fields, join,
  to_lower,
}
use wp_panel_en_private.Access.Bans.{Ban, Tables, count_where, stands, add_persist_ban}
use wp_panel_en_private.Access.Counting.{count-any}

abbrev pub browser_uas : List Text
browser_uas =
    codes "Mozilla"
    ∷ codes "Chrome"
    ∷ codes "Safari"
    ∷ codes "Firefox"
    ∷ codes "Edge"
    ∷ codes "Opera"
    ∷ codes "MSIE"
    ∷ codes "Trident"
    ∷ codes "Edg"
    ∷ codes "OPR"
    ∷ codes "Brave"
    ∷ codes "Vivaldi"
    ∷ []

-- The path and the two headers that are read, empty where the header is missing.
pub record Probe : Type 0 where
  pub path : Text
  pub user_agent : Text
  pub authorization : Text

unfoldable pub is_browser_like : Probe → Bool
is_browser_like c =
    if text_eq c.user_agent [] then false else any (λ b. contains c.user_agent b) browser_uas

unfoldable pub is_common_probe_path : Text → Bool
is_common_probe_path path =
    if text_eq path (codes "/") || text_eq path (codes "/favicon.ico")
    then true
    else if text_eq path (codes "/apple-touch-icon.png")
        || text_eq path (codes "/apple-touch-icon-precomposed.png")
    then true
    else if has_prefix path (codes "/apple-touch-icon") && has_suffix path (codes ".png")
    then true
    else has_prefix path (codes "/.well-known/")

-- `lower_rest` is unicode.ToLower beyond ASCII.
unfoldable pub has_basic_auth_header : (ℕ → ℕ) → Probe → Bool
has_basic_auth_header lower_rest c =
    has_prefix (map (to_lower lower_rest) (trim_space c.authorization)) (codes "basic ")

unfoldable pub truncate_runes : Text → ℕ → Text
truncate_runes s max =
    if leb max 0 then [] else if leb (length s) max then s else take max s ++ codes "..."

abbrev or_dash : Text → Text
or_dash s = if text_eq s [] then codes "-" else s

unfoldable pub scan_reason : Probe → Text
scan_reason c =
    codes "High-risk scan: non-browser probe detected on panel port (path="
    ++ truncate_runes (or_dash (trim_space c.path)) 120
    ++ codes ", ua="
    ++ truncate_runes (or_dash (trim_space (join 32 (fields c.user_agent)))) 160
    ++ codes ")"

-- Whether the database answers the count and carries out the insertion.
pub record ScanDb : Type 0 where
  pub counts : Bool
  pub inserts : Bool

abbrev pub scan_ban : Text → Text → ℕ → ℕ → Ban
scan_ban ip reason hours now = record {
  ip_address = ip;
  ban_level = 4;
  reason = reason;
  source_jail = codes "panel_scan";
  banned_at = now;
  expires_at = some (now + hours * 3600);
  unbanned_at = none;
  ban_count = 1;
  is_manual = false;
}

unfoldable pub ban_scan_ip : (Text → Bool) → ScanDb → Tables → Text → Text → ℕ → ℕ → Tables
ban_scan_ip is_ip db s ip reason hours now =
    let count = if db.counts then count_where (stands ip) s.bans else 0 in
    if ltb 0 count then s else if not db.inserts then s else record s {
      bans = scan_ban ip reason hours now ∷ s.bans;
      persist = add_persist_ban is_ip ip s.persist;
    }

-- The tables afterwards, and whether the request goes on; otherwise it is answered with 403.
unfoldable pub scan_defense :
    (Text → Bool) → (ℕ → ℕ) → Text → ScanDb → Tables → Text → ℕ → Probe → Tables × Bool
scan_defense is_ip lower_rest random_suffix db s ip now c =
    if has_prefix c.path (b'/' ∷ random_suffix)
    then (s, true)
    else if is_common_probe_path c.path || has_basic_auth_header lower_rest c
    then (s, true)
    else if not (is_browser_like c)
    then (ban_scan_ip is_ip db s ip (scan_reason c) 720 now, false)
    else (s, true)

-- Neither under the panel's path, nor to a path that browsers ask for by themselves, nor with Basic
-- credentials, nor of a browser.
abbrev pub is_scan : (ℕ → ℕ) → Text → Probe → Bool
is_scan lower_rest random_suffix c =
    not (has_prefix c.path (b'/' ∷ random_suffix))
    && not (is_common_probe_path c.path || has_basic_auth_header lower_rest c)
    && not (is_browser_like c)

abbrev pub sound_scan_db : ScanDb
sound_scan_db = record { counts = true; inserts = true }

scan_defense-scan :
    (is_ip : Text → Bool) (lower_rest : ℕ → ℕ) (suffix : Text) (db : ScanDb) (s : Tables)
    (ip : Text) (now : ℕ)
    → (c : Probe) → is_scan lower_rest suffix c ≡ true
    → scan_defense is_ip lower_rest suffix db s ip now c
      ≡ (ban_scan_ip is_ip db s ip (scan_reason c) 720 now, false)
unfolding scan_defense
scan_defense-scan is_ip lower_rest suffix db s ip now c h = ground arith

ban_scan_ip-stands :
    (is_ip : Text → Bool) (s : Tables) (ip reason : Text) (hours now : ℕ)
    → any (stands ip) (ban_scan_ip is_ip sound_scan_db s ip reason hours now).bans ≡ true
unfolding ban_scan_ip
ban_scan_ip-stands is_ip s ip reason hours now =
    ground (arith, count-any (stands ip) s.bans, text_eq_refl ip)

ban_scan_ip-again :
    (is_ip : Text → Bool) (s : Tables) (ip reason : Text) (hours now : ℕ)
    → any (stands ip) s.bans ≡ true
    → ban_scan_ip is_ip sound_scan_db s ip reason hours now ≡ s
unfolding ban_scan_ip
ban_scan_ip-again is_ip s ip reason hours now h = ground (arith, count-any (stands ip) s.bans)

-- The database works. A request that is neither under the panel's path, nor to a path that browsers
-- ask for by themselves, nor with Basic credentials, nor of a browser is refused, and a ban of its
-- address that is not lifted stands from then on; a second such request, at any time and with any
-- path and headers, is refused too and changes nothing.
pub scan_defense_once :
    (is_ip : Text → Bool) (lower_rest : ℕ → ℕ) (suffix : Text) (s : Tables) (ip : Text)
    (now later : ℕ)
    → (c again : Probe) → is_scan lower_rest suffix c ≡ true
    → is_scan lower_rest suffix again ≡ true
    → let first = scan_defense is_ip lower_rest suffix sound_scan_db s ip now c in
      (first.1 ≡ false)
      × (any (stands ip) first.0.bans ≡ true)
      × (scan_defense is_ip lower_rest suffix sound_scan_db first.0 ip later again
          ≡ (first.0, false))
scan_defense_once is_ip lower_rest suffix s ip now later c again h h' =
    let banned = ban_scan_ip is_ip sound_scan_db s ip (scan_reason c) 720 now in
    let stands' = ban_scan_ip-stands is_ip s ip (scan_reason c) 720 now in
    rw (scan_defense-scan is_ip lower_rest suffix sound_scan_db s ip now c h) (
      refl,
      stands',
      rw (scan_defense-scan is_ip lower_rest suffix sound_scan_db banned ip later again h')
          (rw (ban_scan_ip-again is_ip banned ip (scan_reason again) 720 later stands') refl),
    )
