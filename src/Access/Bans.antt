-- ===== src/Access/Bans.antt =====
-- The tables `firewall_bans` and `login_attempts`, as lists of rows with the newest first, and the
-- set of addresses that the panel has asked nftables to drop. Times are seconds, the precision of the tables.
-- `is_ip` is `net.ParseIP` with the question whether it gives an address.
use wp_panel_en_private.Base.{
  ℕ, ◌+◌, Bool, true, false, not, ◌&&◌, ◌||◌, Option, none, some, List, [], ◌∷◌, ltb, if◌then◌else◌,
}
use wp_panel_en_private.Base.Text.{Text, text_eq, trim_space}

pub record Ban : Type 0 where
  pub ip_address : Text
  pub ban_level : ℕ
  pub reason : Text
  pub source_jail : Text
  pub banned_at : ℕ
  pub expires_at : Option ℕ
  pub unbanned_at : Option ℕ
  pub ban_count : ℕ
  pub is_manual : Bool

pub record Attempt : Type 0 where
  pub ip_address : Text
  pub attempt_type : Text
  pub created_at : ℕ

pub record Tables : Type 0 where
  pub bans : List Ban
  pub attempts : List Attempt
  pub persist : Text → Bool

abbrev pub count_where {ℓ} : {A : Type ℓ} → (A → Bool) → List A → ℕ
count_where p [] = 0
count_where p (x ∷ xs) = (if p x then 1 else 0) + count_where p xs

abbrev pub is_null : Option ℕ → Bool
is_null none = true
is_null (some t) = false

-- expires_at IS NULL OR expires_at > datetime('now')
abbrev pub unexpired : Option ℕ → ℕ → Bool
unexpired none now = true
unexpired (some t) now = ltb now t

-- A ban of the address that was not lifted.
abbrev pub stands : Text → Ban → Bool
stands ip b = text_eq b.ip_address ip && is_null b.unbanned_at

-- A ban of the address that was not lifted and has not expired.
abbrev pub is_active : Text → ℕ → Ban → Bool
is_active ip now b = stands ip b && unexpired b.expires_at now

-- `AddPersistBan`: nothing for a text that is no address; the set keeps what it has.
unfoldable pub add_persist_ban : (Text → Bool) → Text → (Text → Bool) → Text → Bool
add_persist_ban is_ip ip persist j =
    let address = trim_space ip in
    if text_eq address []
    then persist j
    else if not (is_ip address)
    then persist j
    else text_eq address j || persist j
