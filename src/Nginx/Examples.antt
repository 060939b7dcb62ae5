-- ===== src/Nginx/Examples.antt =====
-- The theorems on the file of banned addresses at concrete addresses, files and answers of the system.
use wp_panel_en_private.Base.{
  ℕ, ◌≡◌, ◌≢◌, refl, arith, Bool, true, false, ◌&&◌, none, some, [], ◌∷◌, any, ltb, ◌==◌,
  if◌then◌else◌,
}
use wp_panel_en_private.Base.Text.{Text, codes, trim_space}
use wp_panel_en_private.Nginx.{
  BanMap, is_banned, missing, NginxWorld, render_nginx_banned_ips, read_content,
  update_nginx_banned_ips,
}
use wp_panel_en_private.Nginx.RoundTrip.{is_ip_text, read_content-render}
use wp_panel_en_private.Nginx.Refines.{Change, changed, held, update_nginx_banned_ips-Change}
use wp_panel_en_private.Nginx.Lock.{
  LockRound, taken, stale, await_lock, await_lock-ends, await_lock_spins,
}

-- A test that accepts some addresses.
abbrev is_valid : Text → Bool
is_valid s = is_ip_text s && any (λ c. c == b'.') s

is_valid_spells : (s : Text) → is_valid s ≡ true → is_ip_text s ≡ true
is_valid_spells s h = ground arith

abbrev bans : BanMap
bans =
    (codes "203.0.113.9", true) ∷ (codes "198.51.100.0/24", true) ∷ (codes "192.0.2.1", false) ∷ []

read_content-render_example :
    is_banned
      (read_content is_valid (render_nginx_banned_ips is_valid bans))
      (codes "198.51.100.0/24")
    ≡ (is_banned bans (codes "198.51.100.0/24") && is_valid (codes "198.51.100.0/24"))
read_content-render_example =
    read_content-render is_valid is_valid_spells bans (codes "198.51.100.0/24")

abbrev world : NginxWorld
world = record {
  makes_dir = none;
  writes_tmp = none;
  renames = none;
  tests = none;
  reloads = some (codes "signal failed");
  botched_restore = none;
  botched_removal = none;
}

update_nginx_banned_ips-Change_example :
    Change is_valid missing
      (changed is_valid (trim_space (codes " 203.0.113.9")) true (held is_valid missing))
      world
      (update_nginx_banned_ips is_valid none world (codes " 203.0.113.9") true missing)
update_nginx_banned_ips-Change_example =
    update_nginx_banned_ips-Change is_valid is_valid_spells none world (codes " 203.0.113.9") true
      missing

-- A stale file first, then one that another process holds.
abbrev rounds : ℕ → LockRound
rounds k = if ltb k 1 then stale 1 else taken 1

await_lock-ends_example : await_lock rounds 53 0 0 ≢ none
await_lock-ends_example = await_lock-ends rounds 53 (omega arith)

await_lock_spins_example : await_lock (λ k. stale 0) 7 0 0 ≡ none
await_lock_spins_example = await_lock_spins (λ k. stale 0) (λ k. refl) 7
