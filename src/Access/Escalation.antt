-- ===== src/Access/Escalation.antt =====
-- Repeated bans of one address within a day, recorded by `RecordFail2banBan` (executor/fail2ban.go) on a
-- server whose clock shows UTC.
use wp_panel_en_private.Base.{
  ℕ, zero, suc, ◌+◌, ◌-◌, ◌*◌, ◌≤◌, ◌≡◌, refl, arith, Bool, true, false, not, ◌&&◌, ◌||◌, Option,
  some, List, [], ◌∷◌, ltb, leb, ◌==◌, if◌then◌else◌, all, length, subst,
}
use wp_panel_en_private.Base.Text.{Text, text_eq, text_eq_refl, trim_space}
use wp_panel_en_private.Access.Bans.{Ban, Tables, count_where, add_persist_ban}
use wp_panel_en_private.Access.Ladder.{
  since_ban, max_level, Sentence, ban_sentence, jail_of, sentence_of, insert_ban,
  record_fail2ban_ban, count_ban_history, count_level3,
}

abbrev pub same_clock : ℕ → ℕ
same_clock t = t

-- The level of the ban that follows n others: two, then twice three, then five, for ever.
abbrev pub level_after : ℕ → ℕ
level_after n = if n == 0 then 2 else if leb 3 n then 5 else 3

-- The levels of n bans, newest first.
abbrev pub ladder : ℕ → List ℕ
ladder zero = []
ladder (suc n) = level_after n ∷ ladder n

-- The levels of the bans of the address.
abbrev pub levels_of : Text → List Ban → List ℕ
levels_of ip [] = []
levels_of ip (b ∷ bans) =
    let rest = levels_of ip bans in if text_eq b.ip_address ip then b.ban_level ∷ rest else rest

-- A time of the day that follows t0.
abbrev pub in_day : ℕ → ℕ → Bool
in_day t0 x = ltb t0 x && leb x (t0 + 86400)

module _ (is_ip : Text → Bool) (status : Text → Option Text) (ip jail : Text) (t0 : ℕ) where
  abbrev pub record_all : Tables → List ℕ → Tables
  record_all s [] = s
  record_all s (now ∷ times) =
      record_all (record_fail2ban_ban is_ip same_clock status (some true) s ip jail now).0 times

  abbrev of_ip : Ban → Bool
  of_ip b = text_eq b.ip_address ip

  abbrev severe : Ban → Bool
  severe b = text_eq b.ip_address ip && leb 3 b.ban_level

  abbrev of_day : Ban → Bool
  of_day b = not (text_eq b.ip_address ip) || in_day t0 b.banned_at

  count-recent :
      (cutoff : ℕ) (bans : List Ban)
      → cutoff ≤ t0
      → all of_day bans ≡ true
      → count_where (since_ban ip cutoff) bans ≡ count_where of_ip bans
  count-recent cutoff [] le h = refl
  count-recent cutoff (b ∷ bans) le h = ground (arith, count-recent cutoff bans le)

  count-severe :
      (cutoff : ℕ) (bans : List Ban)
      → cutoff ≤ t0
      → all of_day bans ≡ true
      → count_where (λ b. since_ban ip cutoff b && leb 3 b.ban_level) bans ≡ count_where severe bans
  count-severe cutoff [] le h = refl
  count-severe cutoff (b ∷ bans) le h = ground (arith, count-severe cutoff bans le)

  max_level-none :
      (p : Ban → Bool) (bans : List Ban) → count_where p bans ≡ 0 → max_level p bans ≡ 0
  max_level-none p [] h = refl
  max_level-none p (b ∷ bans) h = ground (arith, max_level-none p bans)

  -- The address was banned n times, all in the day.
  abbrev Banned : ℕ → Tables → Type 0
  Banned n s =
      (count_where of_ip s.bans ≡ n)
      × (count_where severe s.bans ≡ n - 1)
      × (all of_day s.bans ≡ true)
      × (levels_of ip s.bans ≡ ladder n)
      × ((not (leb 2 n) || s.persist ip) ≡ true)

  sentence-level :
      (s : Tables) (j : Text) (now n : ℕ)
      → in_day t0 now ≡ true
      → count_where of_ip s.bans ≡ n
      → count_where severe s.bans ≡ n - 1
      → all of_day s.bans ≡ true
      → (sentence_of is_ip same_clock s ip j now).level ≡ level_after n
  unfolding sentence_of ban_sentence count_ban_history count_level3
  sentence-level s j now n d count worse days = ground (
    arith,
    count-recent (now - 24 * 3600) s.bans,
    count-severe (now - 30 * 24 * 3600) s.bans,
    max_level-none (since_ban ip (now - 24 * 3600)) s.bans,
  )

  asked_to_drop :
      (persist : Text → Bool)
      → trim_space ip ≡ ip
      → is_ip ip ≡ true
      → text_eq ip [] ≡ false
      → add_persist_ban is_ip ip persist ip ≡ true
  unfolding add_persist_ban
  asked_to_drop persist trimmed valid some_text =
      rw (trimmed, some_text, valid, text_eq_refl ip) refl

  insert_ban-Banned :
      (s : Tables) (j : Text) (now n : ℕ) (v : Sentence)
      → in_day t0 now ≡ true
      → trim_space ip ≡ ip
      → is_ip ip ≡ true
      → text_eq ip [] ≡ false
      → v.level ≡ level_after n
      → Banned n s
      → Banned (suc n) (insert_ban is_ip same_clock s ip j now v)
  unfolding insert_ban count_ban_history add_persist_ban
  insert_ban-Banned s j now n v d trimmed valid some_text level (count, worse, days, levels, kept) =
      (
        ground (arith, text_eq_refl ip),
        ground (arith, text_eq_refl ip),
        ground (arith, text_eq_refl ip),
        rw (text_eq_refl ip) (cc (level, levels)),
        ground (arith, level, asked_to_drop s.persist trimmed valid some_text),
      )

  record-Banned :
      (s : Tables) (now n : ℕ)
      → in_day t0 now ≡ true
      → trim_space ip ≡ ip
      → is_ip ip ≡ true
      → text_eq ip [] ≡ false
      → Banned n s
      → Banned (suc n) (record_fail2ban_ban is_ip same_clock status (some true) s ip jail now).0
  unfolding record_fail2ban_ban
  record-Banned s now n d trimmed valid some_text b =
      let j = jail_of status ip jail in
      rw (trimmed, valid)
        (insert_ban-Banned s j now n (sentence_of is_ip same_clock s ip j now) d trimmed valid
          some_text (sentence-level s j now n d b.0 b.1 b.2) b)

  record_all-Banned :
      (s : Tables) (times : List ℕ) (n : ℕ)
      → trim_space ip ≡ ip
      → is_ip ip ≡ true
      → text_eq ip [] ≡ false
      → all (in_day t0) times ≡ true
      → Banned n s
      → Banned (length times + n) (record_all s times)
  record_all-Banned s [] n trimmed valid some_text d b = subst (λ m. Banned m s) (omega arith) b
  record_all-Banned s (now ∷ times) n trimmed valid some_text d b =
      let next = (record_fail2ban_ban is_ip same_clock status (some true) s ip jail now).0 in
      subst (λ m. Banned m (record_all next times)) (omega arith)
        (record_all-Banned next times (suc n) trimmed valid some_text (ground arith)
          (record-Banned s now n (ground arith) trimmed valid some_text b))

  fresh-Banned : (s : Tables) → count_where of_ip s.bans ≡ 0 → Banned 0 s
  fresh-Banned s fresh =
      (fresh, none_severe s.bans fresh, none_late s.bans fresh, none_levels s.bans fresh, refl)
    where
      none_severe : (bans : List Ban) → count_where of_ip bans ≡ 0 → count_where severe bans ≡ 0 - 1
      none_severe [] h = omega arith
      none_severe (b ∷ bans) h = ground (arith, none_severe bans)

      none_late : (bans : List Ban) → count_where of_ip bans ≡ 0 → all of_day bans ≡ true
      none_late [] h = refl
      none_late (b ∷ bans) h = ground (arith, none_late bans)

      none_levels : (bans : List Ban) → count_where of_ip bans ≡ 0 → levels_of ip bans ≡ []
      none_levels [] h = refl
      none_levels (b ∷ bans) h = ground (arith, none_levels bans)

  -- An address is written without spaces around it and is valid, and was never banned. However many bans
  -- of it are recorded within a day, their levels are 2, 3, 3 and from the fourth on 5, with no level between
  -- the second 3 and 5, and from the
  -- second ban on the firewall was asked to drop the address; the server's clock shows UTC, and the
  -- database works.
  pub record_all-ladder :
      (s : Tables) (times : List ℕ)
      → trim_space ip ≡ ip
      → is_ip ip ≡ true
      → text_eq ip [] ≡ false
      → count_where (λ b. text_eq b.ip_address ip) s.bans ≡ 0
      → all (in_day t0) times ≡ true
      → (levels_of ip (record_all s times).bans ≡ ladder (length times))
        × ((not (leb 2 (length times)) || (record_all s times).persist ip) ≡ true)
  record_all-ladder s times trimmed valid some_text fresh d =
      let same : length times + 0 ≡ length times = omega arith in
      let (count, worse, days, levels, kept) =
        subst (λ m. Banned m (record_all s times)) same
          (record_all-Banned s times 0 trimmed valid some_text d (fresh-Banned s fresh)) in
      (levels, kept)
