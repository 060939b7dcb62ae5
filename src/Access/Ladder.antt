-- ===== src/Access/Ladder.antt =====
-- `RecordFail2banBan` of executor/fail2ban.go with its helpers: what one more ban by fail2ban becomes,
-- by the bans that the address had. `local` gives the wall clock that `Format` prints of a time, read
-- as the tables' UTC; `status` is the answer of `fail2ban-client status` for a jail.
use wp_panel_en_private.Base.{
  ℕ, ◌+◌, ◌-◌, ◌*◌, Bool, false, not, ◌&&◌, ◌||◌, Option, none, some, List, [], ◌∷◌, ◌++◌, ltb, leb,
  if◌then◌else◌, any, drop, length,
}
use wp_panel_en_private.Base.Text.{Text, codes, text_eq, trim_space, split, fields, has_prefix}
use wp_panel_en_private.Access.Bans.{Ban, Tables, count_where, add_persist_ban}

-- A ban of the address after a time.
abbrev pub since_ban : Text → ℕ → Ban → Bool
since_ban ip cutoff b = text_eq b.ip_address ip && ltb cutoff b.banned_at

-- COALESCE(MAX(ban_level), 0) of the rows that pass a test.
abbrev pub max_level : (Ban → Bool) → List Ban → ℕ
max_level p [] = 0
max_level p (b ∷ bans) =
    let rest = max_level p bans in if p b && ltb rest b.ban_level then b.ban_level else rest

unfoldable pub count_ban_history : (ℕ → ℕ) → List Ban → Text → ℕ → ℕ × ℕ
count_ban_history local bans ip now =
    let recent = since_ban ip (local (now - 24 * 3600)) in
    (count_where recent bans, max_level recent bans)

unfoldable pub count_level3 : (ℕ → ℕ) → List Ban → Text → ℕ → ℕ
count_level3 local bans ip now =
    count_where (λ b. since_ban ip (local (now - 30 * 24 * 3600)) b && leb 3 b.ban_level) bans

unfoldable pub normalize_jail : Text → Text
normalize_jail jail =
    let j = trim_space jail in
    if text_eq j (codes "wppanel")
      || (text_eq j (codes "wppanel-404") || text_eq j (codes "wppanel-sshd"))
    then j
    else []

-- The level of a ban, its duration, none for ever, and its reason.
pub record Sentence : Type 0 where
  pub level : ℕ
  pub seconds : Option ℕ
  pub cause : Text

abbrev pub sentence : ℕ → Option ℕ → Text → Text → Text → Sentence
sentence level seconds jail flood other = record {
  level = level;
  seconds = seconds;
  cause = if text_eq jail (codes "wppanel-404") then flood else other;
}

unfoldable pub ban_sentence : Text → ℕ → ℕ → ℕ → Sentence
ban_sentence jail prev_bans prev_max_level l3_count =
    if leb 2 prev_max_level || ltb 0 prev_bans
    then if leb 2 l3_count
      then sentence 5 none jail
          (codes "404 flood detection (high risk: 3 cumulative severe violations, permanent ban)")
          (codes "Fail2ban auto ban (high risk: 3 cumulative severe violations, permanent ban)")
      else sentence 3 (some 86400) jail
          (codes "404 flood detection (repeat violation within 24h, upgraded to 24h)")
          (codes "Fail2ban auto ban (repeat violation within 24h, upgraded to 24h)")
    else sentence 2 (some 600) jail (codes "404 flood detection") (codes "Fail2ban auto ban")

abbrev pub expiry : ℕ → Option ℕ → Option ℕ
expiry now none = none
expiry now (some seconds) = some (now + seconds)

abbrev pub fail2ban_ban : Text → Text → ℕ → ℕ → Sentence → Ban
fail2ban_ban ip jail now count s = record {
  ip_address = ip;
  ban_level = s.level;
  reason = s.cause;
  source_jail = jail;
  banned_at = now;
  expires_at = expiry now s.seconds;
  unbanned_at = none;
  ban_count = count;
  is_manual = false;
}

pub data Recorded : Type 0 where
  recorded : Recorded
  no_database : Recorded
  invalid_ip : Recorded
  not_inserted : Recorded

-- What stands after the first place of a pattern: strings.Index, and the slice behind it.
abbrev pub after_first : Text → Text → Option Text
after_first p [] = if has_prefix [] p then some [] else none
after_first p (c ∷ s) =
    let rest = after_first p s in
    if has_prefix (c ∷ s) p then some (drop (length p) (c ∷ s)) else rest

abbrev pub trimmed_fields : List Text → List Text
trimmed_fields [] = []
trimmed_fields (ip ∷ ips) =
    let rest = trimmed_fields ips in
    if text_eq (trim_space ip) [] then rest else trim_space ip ∷ rest

abbrev pub line_ips : Option Text → List Text
line_ips none = []
line_ips (some rest) = trimmed_fields (fields (trim_space rest))

abbrev pub lines_ips : List Text → List Text
lines_ips [] = []
lines_ips (line ∷ lines) = line_ips (after_first (codes "Banned IP list:") line) ++ lines_ips lines

unfoldable pub parse_banned_ips : Text → List Text
parse_banned_ips status = lines_ips (split b'\n' status)

-- Whether the status of a jail, none where the command fails, lists the address.
abbrev pub is_listed : Text → Option Text → Bool
is_listed ip none = false
is_listed ip (some out) = any (λ banned. text_eq banned ip) (parse_banned_ips out)

-- The first of the two jails whose status lists the address.
unfoldable pub detect_fail2ban_jail : (Text → Option Text) → Text → Text
unfolding parse_banned_ips
detect_fail2ban_jail status ip =
    if is_listed ip (status (codes "wppanel"))
    then codes "wppanel"
    else if is_listed ip (status (codes "wppanel-404"))
    then codes "wppanel-404"
    else []

-- The jail that was named, or else the one detected, or else wppanel.
unfoldable pub jail_of : (Text → Option Text) → Text → Text → Text
unfolding normalize_jail detect_fail2ban_jail
jail_of status ip jail =
    if not (text_eq (normalize_jail jail) [])
    then normalize_jail jail
    else if not (text_eq (detect_fail2ban_jail status ip) [])
    then detect_fail2ban_jail status ip
    else codes "wppanel"

module _ (is_ip : Text → Bool) (local : ℕ → ℕ) where
  unfoldable pub sentence_of : Tables → Text → Text → ℕ → Sentence
  unfolding ban_sentence count_ban_history count_level3
  sentence_of s ip jail now =
      let history = count_ban_history local s.bans ip now in
      ban_sentence jail history.0 history.1 (count_level3 local s.bans ip now)

  unfoldable pub insert_ban : Tables → Text → Text → ℕ → Sentence → Tables
  unfolding count_ban_history
  insert_ban s ip jail now verdict = record s {
    bans =
        fail2ban_ban ip jail now ((count_ban_history local s.bans ip now).0 + 1) verdict ∷ s.bans;
    persist = if leb 3 verdict.level then add_persist_ban is_ip ip s.persist else s.persist;
  }

  -- The row's insertion, if there is a database: none is none, false is one that refuses the row.
  unfoldable pub record_fail2ban_ban :
      (Text → Option Text) → Option Bool → Tables → Text → Text → ℕ → Tables × Recorded
  unfolding jail_of sentence_of insert_ban
  record_fail2ban_ban status none s ip_text jail_text now = (s, no_database)
  record_fail2ban_ban status (some inserts) s ip_text jail_text now =
      let ip = trim_space ip_text in
      let jail = jail_of status ip jail_text in
      if not (is_ip ip)
      then (s, invalid_ip)
      else if not inserts
      then (s, not_inserted)
      else (insert_ban s ip jail now (sentence_of s ip jail now), recorded)
