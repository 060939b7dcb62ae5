-- ===== src/Alert/Examples.antt =====
-- Runs of the alert monitor (executor/alert_monitor.go), and the theorems at concrete rounds.
use wp_panel_en_private.Base.{
  Option, List, ℕ, ◌==◌, ◌&&◌, ◌||◌, ◌*◌, ◌≡◌, refl, arith, Bool, true, false, none, some, [], ◌∷◌,
  ◌++◌, map,
}
use wp_panel_en_private.Base.Text.{Text, codes, text_eq, split, trim_space, is_space}
use wp_panel_en_private.Cron.Render.{print_int, digits_of}
use wp_panel_en_private.Alert.Texts.{extract_domains}
use wp_panel_en_private.Alert.Rules.{
  minute, Channels, Look, sustained_firing, run_rule, alert_begins, alert_goes_on,
}
use wp_panel_en_private.Alert.Expiry.{ExpiringSite, alerted}
use wp_panel_en_private.Alert.Sites.{
  SiteInfo, CheckTarget, CheckResult, returned, no_checks, check_sites, forget_unseen, choose_due,
  is_recent, record_result, failure_of,
}
use wp_panel_en_private.Alert.Streak.{HasFailedTwice}
use wp_panel_en_private.Alert.Calls.{SiteCall, after_calls, after_calls-HasFailedTwice}
use wp_panel_en_private.Base.Int.{pos}
use wp_panel_en_private.Alert.Sustained.{Looks, rounds, Sustained, rounds-Sustained}
use wp_panel_en_private.Alert.Recovery.{expiry_round, expiry_rule, recovered, expiry_round_recovers}

abbrev channels : Channels
channels = record { has_smtp = true; has_webhook = false; panel_title = codes "Panel" }

abbrev busy : ℕ → Look
busy now = record {
  instant_firing = true;
  msg = codes "CPU usage 95%";
  now = now;
  later = now;
  stamp = now;
  db_now = 0;
}

-- Seven rounds, a minute apart.
abbrev seven : Looks
seven = map (λ n. (true, busy (n * minute))) (7 ∷ 6 ∷ 5 ∷ 4 ∷ 3 ∷ 2 ∷ 1 ∷ [])

domains_test :
    extract_domains (codes "a.com unreachable (timeout)；b.com returned 500") ≡ codes "a.com, b.com"
unfolding extract_domains split trim_space is_space
domains_test = refl

rounds-Sustained_example : Sustained (5 * minute) seven
unfolding rounds run_rule sustained_firing alert_begins alert_goes_on
rounds-Sustained_example =
    rounds-Sustained channels (codes "alert_cpu") (5 * minute) [] seven (omega arith) refl

abbrev site : ExpiringSite
site = record { domain = codes "a.com"; expires_at = 10100 * minute }

-- LIKE for a pattern whose only sign is the percent sign at its end.
abbrev like : Text → Text → Bool
like [] [] = true
like [] (d ∷ s) = false
like (c ∷ p) [] = c == b'%' && text_eq p []
like (c ∷ p) (d ∷ s) = (c == b'%' && text_eq p []) || (c == d && like p s)

like_itself : (d rest : Text) → like (d ++ (b'%' ∷ [])) (d ++ rest) ≡ true
like_itself [] [] = refl
like_itself [] (r ∷ rest) = refl
like_itself (c ∷ d) rest = ground (arith, like_itself d rest)

expiry_round_recovers_example :
    let first =
      expiry_round like channels (some (some site ∷ [])) (1, 1) (expiry_rule none 0 []) [] in
    let second =
      expiry_round like channels (some (some site ∷ [])) (minute, 61) first.rule first.log in
    (first.rule.firing ≡ true) × (second.rule.firing ≡ false) × (second.sent ≡ recovered channels)
unfolding alerted
expiry_round_recovers_example =
    expiry_round_recovers like channels site 1 minute 1 61 none 0 [] [] like_itself refl refl
      (omega arith)

abbrev shop : Option (List (Option SiteInfo))
shop = some (
    some (record { id = codes "1"; domain = codes "a.com"; ssl = true; interval = pos 1 })
    ∷ none
    ∷ [])

abbrev all_down : List CheckTarget → List CheckResult
all_down [] = []
all_down (t ∷ targets) =
    record { id = t.id; domain = t.domain; answer = returned 502 } ∷ all_down targets

abbrev call_at : ℕ → SiteCall
call_at now = record { now = now; rows = shop; ask = all_down }

after_calls-HasFailedTwice_example :
    HasFailedTwice (after_calls (call_at (2 * minute) ∷ call_at minute ∷ [])).1
unfolding check_sites forget_unseen choose_due is_recent record_result failure_of print_int
    digits_of
after_calls-HasFailedTwice_example =
    after_calls-HasFailedTwice (call_at minute ∷ []) (call_at (2 * minute)) refl

-- One failure is not reported.
once_test : (check_sites minute shop all_down no_checks).1.0 ≡ false
unfolding check_sites forget_unseen choose_due is_recent record_result failure_of
once_test = refl
