-- ===== src/Command.antt =====
-- The allow list for programs that the panel runs: `IsCommandAllowed` of executor/commander.go and
-- what it calls. `parse_url` is `url.Parse`, `lower_rest` is `unicode.ToLower` beyond ASCII.
pub mod Safety
mod Examples
use wp_panel_en_private.Base.{
  ℕ, ◌≡◌, refl, Bool, true, false, ◌&&◌, ◌||◌, not, Option, none, some, List, [], ◌∷◌, ◌++◌, map,
  if◌then◌else◌, all, any, length, ◌==◌,
}
use wp_panel_en_private.Base.Text.{Text, codes, text_eq, has_prefix, contains_any, to_lower}

-- What the code reads of a parsed URL.
pub record Url : Type 0 where
  pub scheme : Text
  pub has_user : Bool
  pub hostname : Text

-- A table of programs with the words that their arguments may be.
abbrev pub Table : Type 0
Table = List (Text × List Text)

unfoldable pub allowed_commands : Table
allowed_commands =
    (
      codes "systemctl",
      codes "start"
          ∷ codes "stop"
          ∷ codes "reload"
          ∷ codes "restart"
          ∷ codes "enable"
          ∷ codes "disable"
          ∷ codes "daemon-reload"
          ∷ codes "status"
          ∷ [],
    )
    ∷ (codes "nginx", codes "-t" ∷ codes "-s" ∷ codes "-c" ∷ [])
    ∷ (
      codes "nft",
      codes "add"
          ∷ codes "delete"
          ∷ codes "list"
          ∷ codes "flush"
          ∷ codes "create"
          ∷ codes "insert"
          ∷ codes "set"
          ∷ [],
    )
    ∷ (
      codes "fail2ban-client",
      codes "set"
          ∷ codes "unban"
          ∷ codes "reload"
          ∷ codes "status"
          ∷ codes "banip"
          ∷ codes "start"
          ∷ codes "stop"
          ∷ codes "add"
          ∷ codes "get"
          ∷ [],
    )
    ∷ (
      codes "useradd",
      codes "-r" ∷ codes "-s" ∷ codes "-d" ∷ codes "-m" ∷ codes "-g" ∷ codes "-M" ∷ codes "-U" ∷ [],
    )
    ∷ (codes "userdel", codes "-r" ∷ codes "-f" ∷ [])
    ∷ (codes "usermod", codes "-a" ∷ codes "-G" ∷ codes "-g" ∷ [])
    ∷ (codes "groupadd", codes "-r" ∷ [])
    ∷ (codes "getent", codes "group" ∷ [])
    ∷ (codes "chown", codes "-R" ∷ [])
    ∷ (codes "chmod", codes "-R" ∷ [])
    ∷ (codes "mkdir", codes "-p" ∷ [])
    ∷ (codes "ln", codes "-s" ∷ codes "-sf" ∷ codes "-snf" ∷ [])
    ∷ (codes "unlink", [])
    ∷ (codes "cp", codes "-r" ∷ codes "-a" ∷ codes "-f" ∷ [])
    ∷ (codes "mv", [])
    ∷ (codes "unzip", codes "-o" ∷ codes "-q" ∷ codes "-d" ∷ [])
    ∷ (codes "wget", codes "-q" ∷ codes "-O" ∷ codes "-T" ∷ codes "-t" ∷ [])
    ∷ (
      codes "curl",
      codes "-s" ∷ codes "-o" ∷ codes "-f" ∷ codes "-L" ∷ codes "-X" ∷ codes "-H" ∷ codes "-d" ∷ [],
    )
    ∷ (codes "runuser", codes "-u" ∷ codes "-g" ∷ codes "--" ∷ [])
    ∷ (
      codes "mysql",
      codes "-u"
          ∷ codes "-p"
          ∷ codes "-e"
          ∷ codes "-h"
          ∷ codes "-P"
          ∷ codes "--execute"
          ∷ codes "--host"
          ∷ codes "--password"
          ∷ codes "--user"
          ∷ [],
    )
    ∷ (
      codes "mysqladmin",
      codes "-u"
          ∷ codes "-p"
          ∷ codes "password"
          ∷ codes "create"
          ∷ codes "drop"
          ∷ codes "status"
          ∷ [],
    )
    ∷ (codes "php", codes "-l" ∷ [])
    ∷ (
      codes "test",
      codes "-f"
          ∷ codes "-d"
          ∷ codes "-e"
          ∷ codes "-r"
          ∷ codes "-w"
          ∷ codes "-x"
          ∷ codes "-n"
          ∷ codes "-z"
          ∷ [],
    )
    ∷ (codes "cat", [])
    ∷ (
      codes "openssl",
      codes "rand"
          ∷ codes "-base64"
          ∷ codes "x509"
          ∷ codes "-in"
          ∷ codes "-out"
          ∷ codes "-days"
          ∷ [],
    )
    ∷ (codes "tee", [])
    ∷ (codes "head", codes "-c" ∷ [])
    ∷ (codes "sha256sum", [])
    ∷ (codes "base64", [])
    ∷ []

unfoldable pub find_command : Table → Text → Option (List Text)
find_command [] binary = none
find_command ((name, words) ∷ rest) binary =
    if text_eq name binary then some words else find_command rest binary

abbrev pub download_hosts : List Text
download_hosts =
    codes "wordpress.org"
    ∷ codes "downloads.wordpress.org"
    ∷ codes "api.wordpress.org"
    ∷ codes "www.cloudflare.com"
    ∷ codes "developers.google.com"
    ∷ codes "www.bing.com"
    ∷ []

-- "\x00\r\n" and ";|&`$<>"
abbrev pub control_codes : Text
control_codes = 0 ∷ 13 ∷ 10 ∷ []

abbrev pub shell_codes : Text
shell_codes = codes ";|&`$<>"

-- Programs that take any argument though their list is empty.
abbrev pub free_commands : List Text
free_commands = codes "cat" ∷ codes "tee" ∷ codes "head" ∷ codes "sha256sum" ∷ codes "base64" ∷ []

-- One of the words, or one of them followed by "=".
unfoldable pub matches_word : Text → List Text → Bool
matches_word arg words = any (λ word. text_eq arg word || has_prefix arg (word ++ codes "=")) words

module _ (parse_url : Text → Option Url) (lower_rest : ℕ → ℕ) where
  unfoldable pub is_allowed_download_url : Text → Bool
  is_allowed_download_url raw = elim (parse_url raw) [
    | none ↦ false
    | some u ↦
        if not (text_eq u.scheme (codes "https")) || u.has_user
        then false
        else any (text_eq (map (to_lower lower_rest) u.hostname)) download_hosts
  ]

  unfoldable pub is_unsafe_arg : Text → Text → Bool
  is_unsafe_arg binary arg =
      text_eq arg []
      || contains_any arg control_codes
      || contains_any arg shell_codes
      || ((text_eq binary (codes "wget") || text_eq binary (codes "curl"))
          && has_prefix arg (codes "http")
          && not (is_allowed_download_url arg))

  unfoldable pub has_unsafe_args : Text → List Text → Bool
  unfolding is_unsafe_arg
  has_unsafe_args binary args = any (is_unsafe_arg binary) args

  unfoldable pub is_command_allowed : Text → List Text → Bool
  unfolding has_unsafe_args matches_word
  is_command_allowed binary args = elim (find_command allowed_commands binary) [
    | none ↦ false
    | some words ↦
        if has_unsafe_args binary args
        then false
        else if length words == 0
        then length args == 0 || any (text_eq binary) free_commands
        else all (λ arg. not (has_prefix arg (codes "-")) || matches_word arg words) args
  ]
