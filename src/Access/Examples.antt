-- ===== src/Access/Examples.antt =====
-- Runs of the login guard, the scan defense and the CSRF check on small tables.
use wp_panel_en_private.Base.{
  ℕ, ◌≡◌, refl, Bool, true, false, some, none, List, [], ◌∷◌, ◌&&◌, any, ◌==◌,
}
use wp_panel_en_private.Base.{Option}
use wp_panel_en_private.Base.Text.{
  split, fields, Text, codes, text_eq, trim_space, to_lower, is_space,
}
use wp_panel_en_private.Nginx.{missing, NginxWorld}
use wp_panel_en_private.Nginx.RoundTrip.{is_ip_text}
use wp_panel_en_private.Access.Manual.{BanState, BanWorld}
use wp_panel_en_private.Access.Verdict.{Verdict}
use wp_panel_en_private.Access.Bans.{Tables, stands}
use wp_panel_en_private.Access.Login.{
  Tracker, Credentials, authenticated, sound_db, basic_auth, record_attempt, is_banned,
  new_login_attempt_tracker, ban_ip, count_recent,
}
use wp_panel_en_private.Access.Visits.{Visit, visit, login, visit_all}
use wp_panel_en_private.Access.Ladder.{parse_banned_ips}
use wp_panel_en_private.Access.Escalation.{record_all, record_all-ladder, levels_of, ladder}
use wp_panel_en_private.Access.Spared.{record_attempt_spares}
use wp_panel_en_private.Access.Scan.{
  Probe, scan_defense, scan_defense_once, is_browser_like, is_common_probe_path,
  has_basic_auth_header, sound_scan_db,
}
use wp_panel_en_private.Access.Csrf.{Form}

-- Every text is an address, a number prints as nothing, and a password is its own hash.
abbrev any_ip : Text → Bool
any_ip s = true

abbrev no_digits : ℕ → Text
no_digits n = []

abbrev no_tables : Tables
no_tables = record { bans = []; attempts = []; persist = λ j. false }

-- Two attempts in ten minutes, then an hour.
abbrev tracker : Tracker
unfolding new_login_attempt_tracker
tracker = new_login_attempt_tracker 2 10 1

abbrev admin : Credentials
admin = record { username = codes "admin"; password = codes "right" }

abbrev guess : ℕ → Visit
guess t = record {
  ip = codes "10.0.0.9";
  at = t;
  given = some (record { username = codes "admin"; password = codes "wrong" });
  form = none;
}

-- The right credentials, with a password that `Login` refuses.
abbrev wrong_login : ℕ → Visit
wrong_login t = record {
  ip = codes "10.0.0.9";
  at = t;
  given = some admin;
  form = some (record { stored = some (codes "secret"); typed = codes "wrong" });
}

abbrev guesses : List Visit
guesses = guess 100 ∷ wrong_login 160 ∷ []

abbrev after_guesses : Tables
after_guesses = visit_all any_ip no_digits text_eq tracker admin no_tables guesses

-- One guess bans nobody.
one_guess :
    (basic_auth any_ip no_digits text_eq tracker sound_db
      (visit any_ip no_digits text_eq tracker admin no_tables (guess 100))
      (codes "10.0.0.9")
      101
      (some admin)
      (some admin)).1
    ≡ authenticated (codes "admin")
unfolding basic_auth visit is_banned login record_attempt ban_ip count_recent tracker
one_guess = refl

record_attempt_spares_example :
    (is_banned sound_db
        (record_attempt any_ip no_digits tracker sound_db after_guesses
          (codes "10.0.0.9")
          (codes "login")
          170)
        (codes "10.0.0.7")
        180
      ≡ is_banned sound_db after_guesses (codes "10.0.0.7") 180)
    × ((record_attempt any_ip no_digits tracker sound_db after_guesses
            (codes "10.0.0.9")
            (codes "login")
            170).persist
          (codes "10.0.0.7")
        ≡ after_guesses.persist (codes "10.0.0.7"))
unfolding trim_space is_space
record_attempt_spares_example =
    record_attempt_spares any_ip no_digits tracker sound_db after_guesses (codes "10.0.0.9")
      (codes "login") 170 (codes "10.0.0.7") 180 refl refl

abbrev probe : Probe
probe = record { path = codes "/.env"; user_agent = codes "curl/8"; authorization = [] }

abbrev second_probe : Probe
second_probe = record { path = codes "/admin"; user_agent = []; authorization = codes "Bearer" }

abbrev same_code : ℕ → ℕ
same_code c = c

abbrev first_scan : Tables × Bool
first_scan =
    scan_defense any_ip same_code (codes "k3y") sound_scan_db no_tables (codes "10.0.0.9") 100 probe

scan_defense_once_example :
    (first_scan.1 ≡ false)
    × (any (stands (codes "10.0.0.9")) first_scan.0.bans ≡ true)
    × (scan_defense any_ip same_code
          (codes "k3y")
          sound_scan_db
          first_scan.0
          (codes "10.0.0.9")
          200
          second_probe
        ≡ (first_scan.0, false))
unfolding is_browser_like is_common_probe_path has_basic_auth_header trim_space is_space to_lower
scan_defense_once_example =
    scan_defense_once any_ip same_code (codes "k3y") no_tables (codes "10.0.0.9") 100 200 probe
      second_probe refl refl

abbrev form : Form
form = record {
  method = codes "POST";
  header_token = codes "ab12";
  cookie_token = some (codes "ab12");
}

-- No jail answers.
abbrev no_jails : Text → Option Text
no_jails jail = none

abbrev four_times : List ℕ
four_times = 1000 ∷ 2000 ∷ 30000 ∷ 80000 ∷ []

record_all-ladder_example :
    (levels_of
        (codes "10.0.0.9")
        (record_all any_ip no_jails
          (codes "10.0.0.9")
          (codes "wppanel")
          500
          no_tables
          four_times).bans
      ≡ ladder 4)
    × ((record_all any_ip no_jails
            (codes "10.0.0.9")
            (codes "wppanel")
            500
            no_tables
            four_times).persist
          (codes "10.0.0.9")
        ≡ true)
unfolding trim_space is_space
record_all-ladder_example =
    record_all-ladder any_ip no_jails (codes "10.0.0.9") (codes "wppanel") 500 no_tables four_times
      refl refl refl refl refl

four_levels : ladder 4 ≡ 5 ∷ 3 ∷ 3 ∷ 2 ∷ []
four_levels = refl

listed :
    parse_banned_ips (codes "Status\n   `- Banned IP list:\t10.0.0.9 10.0.0.7")
    ≡ codes "10.0.0.9" ∷ codes "10.0.0.7" ∷ []
unfolding parse_banned_ips split fields trim_space is_space
listed = refl

-- Addresses are the texts of their code points with a full stop; no network is accepted.
abbrev dotted : Text → Bool
dotted s = is_ip_text s && any (λ c. c == b'.') s

abbrev no_text : Text → Bool
no_text s = false

abbrev fine_nginx : NginxWorld
fine_nginx = record {
  makes_dir = none;
  writes_tmp = none;
  renames = none;
  tests = none;
  reloads = none;
  botched_restore = none;
  botched_removal = none;
}

abbrev fine_ban : BanWorld
fine_ban = record {
  add_lock = none;
  add = fine_nginx;
  remove_lock = none;
  remove = fine_nginx;
  has_db = true;
  inserts = true;
}

abbrev open_state : BanState
open_state = record {
  tables = record { bans = []; attempts = []; persist = no_text };
  file = missing;
}
