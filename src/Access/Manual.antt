-- ===== src/Access/Manual.antt =====
-- The bans that the panel's page sets: `executeManualBan` of
-- executor/fail2ban.go, over the table of bans, the set of nftables and the file of nginx.
use wp_panel_en_private.Base.{
  ℕ, suc, ◌+◌, ◌/◌, Bool, true, false, not, ◌&&◌, Option, none, some, [], ◌∷◌, ◌++◌, leb, ◌==◌,
  if◌then◌else◌,
}
use wp_panel_en_private.Base.Fault.{Fault, on_fault}
use wp_panel_en_private.Base.Int.{ℤ, pos, negsuc, zleb, neg}
use wp_panel_en_private.Base.Text.{Text, codes, text_eq, trim_space}
use wp_panel_en_private.Access.Bans.{Ban, Tables, add_persist_ban}
use wp_panel_en_private.Nginx.{BanFile, NginxWorld, is_valid_ip_or_cidr, update_nginx_banned_ips}

pub data BanReply : Type 0 where
  banned : Text → BanReply
  failed : Text → BanReply

-- The level and the duration in seconds, none for ever, by the duration that was asked for.
unfoldable pub manual_sentence : ℤ → ℕ × Option ℕ
manual_sentence (pos asked) =
    if asked == 3600
    then (3, some 3600)
    else if asked == 86400
    then (3, some 86400)
    else if asked == 0
    then (5, none)
    else (2, some 600)
manual_sentence (negsuc asked) = (2, some 600)

-- Division truncates toward zero.
abbrev pub quot : ℤ → ℕ → ℤ
quot (pos n) k = pos (n / k)
quot (negsuc n) k = neg (suc n / k)

-- The tables, the file, and what the calls of the system answer: the lock and the writes of the file,
-- for the ban and for the removal that may follow; whether there is a database, and whether it takes
-- the row.
pub record BanState : Type 0 where
  pub tables : Tables
  pub file : BanFile

pub record BanWorld : Type 0 where
  pub add_lock : Fault
  pub add : NginxWorld
  pub remove_lock : Fault
  pub remove : NginxWorld
  pub has_db : Bool
  pub inserts : Bool

-- `print` is fmt's %d; `stored` is the time of the tables that the database driver makes of a time.
module _ (is_ip is_cidr : Text → Bool) (print : ℤ → Text) (stored : ℕ → ℕ) where
  unfoldable pub ban_message : Text → ℤ → Text
  ban_message ip asked =
      codes "IP "
      ++ ip
      ++ codes " banned"
      ++ (if zleb asked (pos 0) && zleb (pos 0) asked
          then codes " (permanent)"
          else if zleb (pos 3600) asked
          then codes " (" ++ print (quot asked 3600) ++ codes " hours)"
          else codes " (" ++ print (quot asked 60) ++ codes " minutes)")

  abbrev pub expires_after : ℕ → Option ℕ → Option ℕ
  expires_after now none = none
  expires_after now (some seconds) = some (stored (now + seconds))

  abbrev pub manual_ban : Text → ℤ → ℕ → Ban
  manual_ban ip asked now = record {
    ip_address = ip;
    ban_level = (manual_sentence asked).0;
    reason = codes "admin manual ban";
    source_jail = codes "manual";
    banned_at = now;
    expires_at = expires_after now (manual_sentence asked).1;
    unbanned_at = none;
    ban_count = 1;
    is_manual = true;
  }

  abbrev pub insert_manual_ban : Text → ℤ → ℕ → Tables → Tables
  insert_manual_ban ip asked now t = record t {
    bans = manual_ban ip asked now ∷ t.bans;
    persist =
        if leb 3 (manual_sentence asked).0 then add_persist_ban is_ip ip t.persist else t.persist;
  }

  -- The row, once nginx bans the address.
  unfoldable pub record_manual_ban : BanWorld → Text → ℤ → ℕ → BanState → BanState × BanReply
  unfolding ban_message manual_sentence update_nginx_banned_ips
  record_manual_ban w ip asked now s =
      if not w.inserts
      then (
        record s {
          file =
              (update_nginx_banned_ips (is_valid_ip_or_cidr is_ip is_cidr) w.remove_lock w.remove ip
                false s.file).0;
        },
        failed (codes "failed to write ban record"),
      )
      else (
        record s { tables = insert_manual_ban ip asked now s.tables },
        banned (ban_message ip asked),
      )

  abbrev pub after_nginx : BanWorld → Text → ℤ → ℕ → Tables → BanFile × Fault → BanState × BanReply
  after_nginx w ip asked now tables (file, fault) =
      on_fault fault
        (λ why. (record { tables = tables; file = file }, failed (codes "ban failed: " ++ why)))
        (record_manual_ban w ip asked now (record { tables = tables; file = file }))

  unfoldable pub execute_manual_ban : BanWorld → Text → ℤ → ℕ → BanState → BanState × BanReply
  unfolding on_fault record_manual_ban update_nginx_banned_ips
  execute_manual_ban w text asked now s =
      let ip = trim_space text in
      if text_eq ip []
      then (s, failed (codes "IP address cannot be empty"))
      else if not (is_ip ip)
      then (s, failed (codes "IP address format is invalid"))
      else if not w.has_db
      then (s, failed (codes "database not initialized"))
      else after_nginx w ip asked now s.tables (
          update_nginx_banned_ips (is_valid_ip_or_cidr is_ip is_cidr) w.add_lock w.add ip true
            s.file)
