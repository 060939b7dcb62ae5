-- ===== src/Update/Checks.antt =====
-- What executor/panel_update_runner.go checks of the files that it downloaded and of the machine.
use wp_panel_en_private.Base.{
  ℕ, ◌+◌, ◌*◌, ◌/◌, Bool, not, ◌&&◌, Option, none, some, List, [], ◌∷◌, ◌++◌, ltb, ◌==◌,
  if◌then◌else◌, length, map,
}
use wp_panel_en_private.Base.Fault.{Fault, on_reply}
use wp_panel_en_private.Base.Text.{Text, codes, text_eq, fields, to_lower}
use wp_panel_en_private.Base.Int.{pos, zleb}
use wp_panel_en_private.Version.{compare_versions}
use wp_panel_en_private.Update.Machine.{PanelConfig, World}

-- CompareVersions(version, current) > 0
abbrev pub is_newer : Text → Text → Bool
is_newer version current = not (zleb (compare_versions version current) (pos 0))

-- strings.EqualFold on ASCII text.
abbrev pub equal_fold : Text → Text → Bool
equal_fold a b = text_eq (map (to_lower (λ c. c)) a) (map (to_lower (λ c. c)) b)

-- `print` is fmt's %d, `sha256` gives the digest in hexadecimal digits, and `ed25519` verifies a message
-- and a signature by the key of the releases.
module _ (print : ℕ → Text) (sha256 : Text → Text) (ed25519 : Text → Text → Bool) where
  -- The reads of the files that were just written succeed.
  unfoldable pub verify_sha256 : Text → Text → Fault
  verify_sha256 binary sha_file = elim (fields sha_file) [
    | [] ↦ some (codes "SHA256 file is empty")
    | expected ∷ rest ↦
        if not (length expected == 64)
        then some (codes "SHA256 length is abnormal")
        else if not (equal_fold expected (sha256 binary))
        then some (codes "SHA256 checksum mismatch")
        else none
  ]

  unfoldable pub verify_ed25519 : Text → Text → Fault
  verify_ed25519 sha_file sig =
      if not (length sig == 64)
      then some (codes "signature length is abnormal: " ++ print (length sig))
      else if not (ed25519 sha_file sig)
      then some (codes "Ed25519 signature mismatch")
      else none

  abbrev pub mib : ℕ
  mib = 1024 * 1024

  -- Each directory in turn has room for the binary four times and 64 MB more.
  unfoldable pub check_space : World → ℕ → List Text → Fault
  check_space w required [] = none
  check_space w required (dir ∷ dirs) =
      let rest = check_space w required dirs in
      on_reply (w.free_space dir)
        (λ why. some (codes "failed to check disk space (" ++ dir ++ codes "): " ++ why))
        (λ free.
          if ltb free required
          then some (
              codes "insufficient disk space ("
              ++ dir
              ++ codes "): "
              ++ print (free / mib)
              ++ codes " MB available, at least "
              ++ print (required / mib)
              ++ codes " MB required")
          else rest)

  abbrev pub target_dirs : Option PanelConfig → List Text
  target_dirs none = codes "/usr/local/bin" ∷ []
  target_dirs (some cfg) =
      if text_eq cfg.backup_dir []
      then codes "/usr/local/bin" ∷ []
      else codes "/usr/local/bin" ∷ cfg.backup_dir ∷ []

  unfoldable pub check_update_disk_space : World → Option PanelConfig → Fault
  check_update_disk_space w cfg =
      on_reply w.binary_size (λ why. some (codes "failed to read update binary size: " ++ why))
        (λ size. check_space w (size * 4 + 64 * mib) (target_dirs cfg))

  unfoldable pub health_url : Option PanelConfig → Text
  health_url none = codes "http://127.0.0.1:8080/healthz"
  health_url (some cfg) =
      if ltb 0 cfg.tls_port
        && not (text_eq cfg.tls_cert_path [])
        && not (text_eq cfg.tls_key_path [])
      then codes "https" ++ codes "://127.0.0.1:" ++ print cfg.tls_port ++ codes "/healthz"
      else codes "http" ++ codes "://127.0.0.1:" ++ print cfg.port ++ codes "/healthz"
