-- ===== src/Update/Policy.antt =====
-- Which release the panel may install by itself, and when: the tests of
-- executor/panel_update_runner.go.
use wp_panel_en_private.Base.{
  ℕ, ◌+◌, ◌-◌, ◌*◌, Bool, true, false, ◌&&◌, ◌||◌, Option, none, some, List, [], ◌∷◌, ◌++◌, ltb,
  leb, ◌==◌, if◌then◌else◌,
}
use wp_panel_en_private.Base.Text.{
  Text, codes, text_eq, split, contains, trim_space, trim_right, is_digit,
}
use wp_panel_en_private.Base.Int.{ℤ, pos, negsuc, atoi}
use wp_panel_en_private.Version.{trim_v}
use wp_panel_en_private.Update.{Asset, GithubRelease}

-- [3]int
pub record Semver : Type 0 where
  pub major : ℕ
  pub minor : ℕ
  pub patch : ℕ

-- A part that is a number, and not negative.
abbrev pub natural : Option ℤ → Option ℕ
natural none = none
natural (some (pos n)) = some n
natural (some (negsuc n)) = none

abbrev pub semver_of : Option ℕ → Option ℕ → Option ℕ → Option Semver
semver_of (some a) (some b) (some c) = some (record { major = a; minor = b; patch = c })
semver_of (some a) (some b) none = none
semver_of (some a) none c = none
semver_of none b c = none

abbrev pub three_parts : List Text → Option Semver
three_parts (a ∷ b ∷ c ∷ []) = semver_of (natural (atoi a)) (natural (atoi b)) (natural (atoi c))
three_parts _ = none

unfoldable pub parse_stable_semver : Text → Option Semver
parse_stable_semver version =
    let v = trim_v (trim_space version) in
    if text_eq v [] || contains v (codes "-") then none else three_parts (split b'.' v)

unfoldable pub is_stable_version : Text → Bool
is_stable_version version = elim (parse_stable_semver version) [ none ↦ false | some v ↦ true ]

abbrev pub bumps_patch : Option Semver → Option Semver → Bool
bumps_patch none t = false
bumps_patch (some c) none = false
bumps_patch (some c) (some t) = c.major == t.major && c.minor == t.minor && ltb c.patch t.patch

unfoldable pub is_patch_bump : Text → Text → Bool
is_patch_bump current target =
    bumps_patch (parse_stable_semver current) (parse_stable_semver target)

-- The addresses of the three files, empty where the release lacks one; the last of a name counts.
pub record PanelAssets : Type 0 where
  pub binary_url : Text
  pub sha256_url : Text
  pub sig_url : Text

abbrev pub resolve_from : PanelAssets → List Asset → PanelAssets
resolve_from found [] = found
resolve_from found (a ∷ assets) =
    resolve_from
      (if text_eq a.name (codes "wp-panel")
        then record found { binary_url = a.browser_download_url }
        else if text_eq a.name (codes "wp-panel.sha256")
        then record found { sha256_url = a.browser_download_url }
        else if text_eq a.name (codes "wp-panel.sha256.sig")
        then record found { sig_url = a.browser_download_url }
        else found)
      assets

unfoldable pub resolve_panel_assets : GithubRelease → PanelAssets
resolve_panel_assets latest =
    resolve_from (record { binary_url = []; sha256_url = []; sig_url = [] }) latest.assets

unfoldable pub proxy_url : Text → Text → Text
proxy_url proxy original =
    if text_eq proxy [] then original else trim_right (λ c. c == b'/') proxy ++ b'/' ∷ original

-- time.Parse("15:04", s): one or two digits, a colon and two digits, an hour below 24 and a minute
-- below 60.
abbrev pub digit : ℕ → ℕ
digit c = c - b'0'

abbrev pub minutes_of : ℕ → Text → Option ℕ
minutes_of hour (c ∷ d ∷ e ∷ []) =
    if c == b':' && is_digit d && is_digit e && ltb hour 24 && ltb (digit d * 10 + digit e) 60
    then some (hour * 60 + (digit d * 10 + digit e))
    else none
minutes_of hour _ = none

abbrev pub clock_of : Text → Option ℕ
clock_of (a ∷ b ∷ rest) =
    if is_digit a
    then if is_digit b
      then minutes_of (digit a * 10 + digit b) rest
      else minutes_of (digit a) (b ∷ rest)
    else none
clock_of _ = none

-- The minute of the day.
unfoldable pub parse_clock : Text → Option ℕ
parse_clock s = clock_of (trim_space s)

abbrev pub in_window : Option ℕ → Option ℕ → ℕ → Bool
in_window (some start) (some end) cur =
    if leb start end then leb start cur && leb cur end else leb start cur || leb cur end
in_window (some start) none cur = true
in_window none end cur = true

abbrev pub window_parts : List Text → ℕ → Bool
window_parts (start ∷ end ∷ []) cur = in_window (parse_clock start) (parse_clock end) cur
window_parts _ cur = true

-- `cur` is the minute of the day of the server's clock.
unfoldable pub within_auto_update_window : Text → ℕ → Bool
unfolding parse_clock
within_auto_update_window window cur = window_parts (split b'-' window) cur
