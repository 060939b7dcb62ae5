-- ===== src/Command/Examples.antt =====
-- The theorems about the allow list at concrete commands.
use mathlib.Core.List.{Memᴰ}
use wp_panel_en_private.Base.{
  ℕ, ◌≡◌, ◌≢◌, refl, ◌⊎◌, true, false, Option, some, List, [], ◌∷◌, ◌++◌, All,
}
use wp_panel_en_private.Base.Text.{Text, codes, to_lower}
use wp_panel_en_private.Command.{
  Url, is_command_allowed, is_allowed_download_url, allowed_commands, find_command,
}
use wp_panel_en_private.Command.Safety.{
  IsHarmless, command_allowed-IsHarmless, command_allowed-option,
}

-- A stand-in for `url.Parse` and for the letters beyond ASCII.
abbrev parse : Text → Option Url
parse raw =
    some (record { scheme = codes "https"; has_user = false; hostname = codes "WordPress.org" })

abbrev same : ℕ → ℕ
same c = c

abbrev address : Text
address = codes "https://WordPress.org/latest.zip"

abbrev fetch : List Text
fetch = codes "-q" ∷ address ∷ []

fetch_allowed : is_command_allowed parse same (codes "wget") fetch ≡ true
unfolding is_command_allowed is_allowed_download_url find_command allowed_commands to_lower
fetch_allowed = refl

-- "--quiet" is no word of `systemctl`, so the panel cannot ask it whether a service is active so.
quiet_refused :
    is_command_allowed parse same
      (codes "systemctl")
      (codes "is-active" ∷ codes "--quiet" ∷ codes "fail2ban" ∷ [])
    ≡ false
unfolding is_command_allowed is_allowed_download_url find_command allowed_commands
quiet_refused = refl

command_allowed-IsHarmless_example : (address ≢ []) × All IsHarmless address
command_allowed-IsHarmless_example =
    command_allowed-IsHarmless parse same (codes "wget") fetch address fetch_allowed
      (Memᴰ.tail (Memᴰ.head refl))

command_allowed-option_example :
    (word : Text) × Memᴰ word (codes "-q" ∷ codes "-O" ∷ codes "-T" ∷ codes "-t" ∷ [])
    × ((codes "-q" ≡ word) ⊎ ((value : Text) × (codes "-q" ≡ (word ++ codes "=") ++ value)))
unfolding find_command allowed_commands
command_allowed-option_example =
    command_allowed-option parse same (codes "wget") fetch
      (codes "-q" ∷ codes "-O" ∷ codes "-T" ∷ codes "-t" ∷ []) (codes "-q") fetch_allowed refl
      (λ e. cc) (Memᴰ.head refl) refl
