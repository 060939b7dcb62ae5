-- ===== src/Nginx.antt =====
-- The file of banned addresses that nginx reads, executor/nginx_ban.go. `is_valid` is isValidIPOrCIDR;
-- `is_ip` and `is_cidr` are the questions whether net.ParseIP and net.ParseCIDR accept a text.
use wp_panel_en_private.Base.{
  ℕ, zero, suc, ◌+◌, Bool, true, false, not, ◌&&◌, ◌||◌, Option, none, some, List, [], ◌∷◌, ◌++◌,
  any, ltb, leb, ◌==◌, if◌then◌else◌,
}
use wp_panel_en_private.Base.Fault.{Fault, on_fault}
use wp_panel_en_private.Base.Text.{
  Text, codes, text_eq, has_prefix, split, fields, trim_space, trim_right,
}
pub mod Lines
pub mod RoundTrip
pub mod Refines
pub mod Lock
mod Examples

-- map[string]bool as an association list.
abbrev pub BanMap : Type 0
BanMap = List (Text × Bool)

abbrev pub put_ip : Text → BanMap → BanMap
put_ip ip [] = (ip, true) ∷ []
put_ip ip ((key, banned) ∷ ips) =
    let rest = put_ip ip ips in if text_eq key ip then (key, true) ∷ ips else (key, banned) ∷ rest

abbrev pub delete_ip : Text → BanMap → BanMap
delete_ip ip [] = []
delete_ip ip ((key, banned) ∷ ips) =
    let rest = delete_ip ip ips in if text_eq key ip then rest else (key, banned) ∷ rest

-- An entry for the address that is true.
abbrev pub is_banned : BanMap → Text → Bool
is_banned ips ip = any (λ (key, banned). banned && text_eq key ip) ips

-- sort.Strings, by code points.
abbrev pub text_leb : Text → Text → Bool
text_leb [] t = true
text_leb (c ∷ s) [] = false
text_leb (c ∷ s) (d ∷ t) = ltb c d || (c == d && text_leb s t)

abbrev pub insert_sorted : Text → List Text → List Text
insert_sorted s [] = s ∷ []
insert_sorted s (t ∷ ts) =
    let rest = insert_sorted s ts in if text_leb s t then s ∷ t ∷ ts else t ∷ rest

abbrev pub sort_strings : List Text → List Text
sort_strings [] = []
sort_strings (s ∷ ts) = insert_sorted s (sort_strings ts)

abbrev pub with_newlines : List Text → Text
with_newlines [] = []
with_newlines (line ∷ lines) = line ++ b'\n' ∷ with_newlines lines

abbrev pub entry_line : Text → Text
entry_line ip = codes "    " ++ ip ++ codes " 1;"

abbrev pub entry_lines : List Text → List Text
entry_lines [] = codes "}" ∷ []
entry_lines (ip ∷ ips) = entry_line ip ∷ entry_lines ips

abbrev pub file_lines : List Text → List Text
file_lines entries =
    codes "# WP Panel Generated - DO NOT EDIT MANUALLY"
    ∷ codes "geo $wppanel_banned_ip {"
    ∷ codes "    default 0;"
    ∷ entry_lines entries

abbrev pub is_valid_ip_or_cidr : (Text → Bool) → (Text → Bool) → Text → Bool
is_valid_ip_or_cidr is_ip is_cidr s = is_ip s || is_cidr s

-- The file: not there, or not to be read, or with a content.
pub data BanFile : Type 0 where
  missing : BanFile
  unreadable : Text → BanFile
  holds : Text → BanFile

-- The answers of the calls of one write; the last two are what a restoring or a removal that fails
-- leaves behind.
pub record NginxWorld : Type 0 where
  pub makes_dir : Fault
  pub writes_tmp : Fault
  pub renames : Fault
  pub tests : Fault
  pub reloads : Fault
  pub botched_restore : Option BanFile
  pub botched_removal : Option BanFile

module _ (is_valid : Text → Bool) where
  abbrev pub entries_of : BanMap → List Text
  entries_of [] = []
  entries_of ((ip, banned) ∷ ips) =
      let rest = entries_of ips in if banned && is_valid ip then ip ∷ rest else rest

  unfoldable pub render_nginx_banned_ips : BanMap → Text
  render_nginx_banned_ips ips = with_newlines (file_lines (sort_strings (entries_of ips)))

  abbrev pub field_ip : List Text → Option Text
  field_ip (first ∷ second ∷ rest) =
      if not (text_eq second (codes "1"))
      then none
      else if is_valid (trim_space first)
      then some (trim_space first)
      else none
  field_ip _ = none

  abbrev pub skips : Text → Bool
  skips line =
      text_eq line []
      || has_prefix line (codes "#")
      || has_prefix line (codes "geo ")
      || text_eq line (codes "}")

  -- The address of a line.
  unfoldable pub line_ip : Text → Option Text
  line_ip text =
      let line = trim_space text in
      if skips line then none else field_ip (fields (trim_right (λ c. c == b';') line))

  abbrev pub put_found : Option Text → BanMap → BanMap
  put_found none ips = ips
  put_found (some ip) ips = put_ip ip ips

  abbrev pub read_lines : List Text → BanMap → BanMap
  read_lines [] ips = ips
  read_lines (line ∷ lines) ips = read_lines lines (put_found (line_ip line) ips)

  unfoldable pub read_content : Text → BanMap
  unfolding line_ip
  read_content content = read_lines (split b'\n' content) []

  abbrev pub restored : NginxWorld → BanFile → BanFile
  restored w (holds old) = elim w.botched_restore [ none ↦ holds old | some left ↦ left ]
  restored w missing = elim w.botched_removal [ none ↦ missing | some left ↦ left ]
  restored w (unreadable why) = elim w.botched_removal [ none ↦ missing | some left ↦ left ]

  abbrev pub is_same : BanFile → Text → Bool
  is_same (holds old) content = text_eq old content
  is_same missing content = false
  is_same (unreadable why) content = false

  abbrev pub after_rename : NginxWorld → Bool → BanFile → Text → BanFile × Fault
  after_rename w reload old content =
      if not reload
      then (holds content, none)
      else on_fault w.tests (λ out. (restored w old, some (codes "nginx -t failed: " ++ out)))
          (on_fault w.reloads (λ out. (holds content, some (codes "nginx reload failed: " ++ out)))
            (holds content, none))

  -- The file afterwards, and the error.
  unfoldable pub write_nginx_banned_ips : NginxWorld → BanMap → Bool → BanFile → BanFile × Fault
  unfolding render_nginx_banned_ips on_fault
  write_nginx_banned_ips w ips reload old =
      let content = render_nginx_banned_ips ips in
      on_fault w.makes_dir (λ why. (old, some why))
        (if is_same old content
          then (old, none)
          else on_fault w.writes_tmp (λ why. (old, some why))
              (on_fault w.renames (λ why. (old, some why)) (after_rename w reload old content)))

  unfoldable pub read_nginx_banned_ips :
      BanFile → (Text → BanFile × Fault) → (BanMap → BanFile × Fault) → BanFile × Fault
  unfolding read_content
  read_nginx_banned_ips missing bad good = good []
  read_nginx_banned_ips (unreadable why) bad good = bad why
  read_nginx_banned_ips (holds content) bad good = good (read_content content)

  -- `lock` is the answer of the lock.
  unfoldable pub update_nginx_banned_ips :
      Fault → NginxWorld → Text → Bool → BanFile → BanFile × Fault
  unfolding read_nginx_banned_ips write_nginx_banned_ips on_fault
  update_nginx_banned_ips lock w text banned file =
      let ip = trim_space text in
      if not (is_valid ip)
      then (file, some (codes "invalid IP: " ++ ip))
      else on_fault lock (λ why. (file, some why))
          (read_nginx_banned_ips file (λ why. (file, some why))
            (λ ips.
              write_nginx_banned_ips w (if banned then put_ip ip ips else delete_ip ip ips) true
                file))

  unfoldable pub replace_nginx_banned_ips : Fault → NginxWorld → BanMap → BanFile → BanFile × Fault
  unfolding write_nginx_banned_ips on_fault
  replace_nginx_banned_ips lock w ips file =
      on_fault lock (λ why. (file, some why)) (write_nginx_banned_ips w ips true file)

  abbrev pub is_there : BanFile → Bool
  is_there missing = false
  is_there (unreadable why) = true
  is_there (holds content) = true

  -- `now_there` is the file once the lock is held.
  unfoldable pub ensure_nginx_banned_ips_config :
      Fault → NginxWorld → BanFile → BanFile → BanFile × Fault
  unfolding write_nginx_banned_ips on_fault
  ensure_nginx_banned_ips_config lock w file now_there =
      if is_there file
      then (file, none)
      else on_fault lock (λ why. (file, some why))
          (if is_there now_there
            then (now_there, none)
            else write_nginx_banned_ips w [] false now_there)
