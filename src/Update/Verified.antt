-- ===== src/Update/Verified.antt =====
-- What `ExecutePanelUpdate` (executor/panel_update_runner.go) may leave as the panel's binary.
use wp_panel_en_private.Base.{
  ℕ, ◌≡◌, ◌≢◌, refl, ◌⊎◌, inl, inr, Bool, true, false, not, Option, none, some, [], if◌then◌else◌,
  Bool-cases,
}
use wp_panel_en_private.Base.Fault.{Fault, on_fault, Reply, broken, given, on_reply}
use wp_panel_en_private.Base.Text.{Text, text_eq}
use wp_panel_en_private.Update.{GithubRelease}
use wp_panel_en_private.Update.Policy.{resolve_panel_assets}
use wp_panel_en_private.Update.Machine.{
  CopyReply, cannot_open, breaks_off, copies, copy_panel_file, UpdateOptions, System, World,
  UpdateReply, refused, updated, is_some,
}
use wp_panel_en_private.Update.Checks.{verify_sha256, verify_ed25519, is_newer}
use wp_panel_en_private.Update.Install.{
  replace_binary, back_up, preflight, verify, download_checks, download, choose_assets,
  execute_panel_update, roll_back, start_watchdog, set_installed_mode, has_plan, restart_panel,
  write_plan, back_up_database, check_disk, await_signature, examine,
}

pub copy_back-cases :
    (reply : CopyReply) (old new : Text)
    → ((copy_panel_file reply (some old) (some new) ≡ (some old, none)) × (reply ≡ copies))
      ⊎ ((i : Option Text) × (why : Text) × (copy_panel_file reply (some old) (some new)
            ≡ (i, some why))
          × (reply ≢ copies)
          × ((i ≡ some new) ⊎ (i ≡ none)))
unfolding copy_panel_file
copy_back-cases (cannot_open why) old new = inr (some new, why, refl, (λ e. cc), inl refl)
copy_back-cases (breaks_off why) old new = inr (none, why, refl, (λ e. cc), inr refl)
copy_back-cases copies old new = inl (refl, refl)

copy_cases :
    (reply : CopyReply) (content : Text)
    → (copy_panel_file reply (some content) none ≡ (some content, none))
      ⊎ ((i : Option Text) × (why : Text) × (copy_panel_file reply (some content) none
            ≡ (i, some why)))
unfolding copy_panel_file
copy_cases (cannot_open why) content = inr (none, why, refl)
copy_cases (breaks_off why) content = inr (none, why, refl)
copy_cases copies content = inl refl

module _ (print_time print : ℕ → Text) (sha256 : Text → Text) (ed25519 : Text → Text → Bool)
    (w : World) (opts : UpdateOptions) (now : ℕ) where
  -- The release is newer, its checksum file is signed by the key of the releases, the binary has that
  -- checksum, and it ran once.
  pub record IsVetted (latest : GithubRelease) (binary : Text) : Type 0 where
    pub newer : is_newer latest.tag_name opts.current_version ≡ true
    pub sha_file : Text
    pub sig : Text
    pub is_binary : w.downloads_binary ≡ given binary
    pub is_sha_file : w.downloads_sha256 ≡ given sha_file
    pub is_sig : w.downloads_signature ≡ given sig
    pub signed : verify_ed25519 print sha256 ed25519 sha_file sig ≡ none
    pub summed : verify_sha256 print sha256 ed25519 binary sha_file ≡ none
    pub ran : w.preflight ≡ none

  -- The old binary stays and nothing was installed; or a vetted one took its place, with the old one
  -- saved; or the update was refused and the copy back of the old binary failed.
  pub data Fate (old : Text) : System × UpdateReply → Type 0 where
    kept :
        {result : System × UpdateReply}
        → result.0.files.installed ≡ some old
        → ((latest : GithubRelease) → result.1 ≢ updated latest)
        → Fate old result
    replaced :
        {result : System × UpdateReply}
        → (latest : GithubRelease) (new : Text) → result.1 ≡ updated latest
        → IsVetted latest new
        → result.0.files.installed ≡ some new
        → result.0.files.backup ≡ some old
        → Fate old result
    stranded :
        {result : System × UpdateReply}
        → (latest : GithubRelease) (new why : Text) → result.1 ≡ refused why
        → w.copies_back ≢ copies
        → IsVetted latest new
        → (result.0.files.installed ≡ some new) ⊎ (result.0.files.installed ≡ none)
        → Fate old result

  module _ (old : Text) where
    on_fault-Fate :
        (f : Fault) (bad : Text → System × UpdateReply) (good : System × UpdateReply)
        → ((why : Text) → Fate old (bad why))
        → (f ≡ none → Fate old good)
        → Fate old (on_fault f bad good)
    unfolding on_fault
    on_fault-Fate none bad good b g = g refl
    on_fault-Fate (some why) bad good b g = b why

    on_reply-Fate :
        {A : Type 0} (r : Reply A) (bad : Text → System × UpdateReply)
        (good : A → System × UpdateReply)
        → ((why : Text) → Fate old (bad why))
        → ((a : A) → r ≡ given a → Fate old (good a))
        → Fate old (on_reply r bad good)
    unfolding on_reply
    on_reply-Fate (broken why) bad good b g = b why
    on_reply-Fate (given a) bad good b g = g a refl

    if-Fate :
        (b : Bool) (x y : System × UpdateReply)
        → (b ≡ true → Fate old x)
        → (b ≡ false → Fate old y)
        → Fate old (if b then x else y)
    if-Fate true x y f g = f refl
    if-Fate false x y f g = g refl

    module _ (latest : GithubRelease) (new : Text) where
      roll_back-Fate :
          (version stage : Text) (failed : Text → Text) (done : Text) (s : System)
          → IsVetted latest new
          → s.files.installed ≡ some new
          → s.files.backup ≡ some old
          → Fate old
              (roll_back print_time print sha256 ed25519 w opts now version stage failed done s)
      unfolding roll_back on_fault
      roll_back-Fate version stage failed done s v here saved =
          elim (copy_back-cases w.copies_back old new) [
            | inl (done, copied) ↦ rw (saved, here, done) (kept refl (λ latest e. cc))
            | inr (i, why, e, failing, left) ↦
                rw (saved, here, e) (stranded latest new _ refl failing v left)
          ]

      start_watchdog-Fate :
          (s : System)
          → IsVetted latest new
          → s.files.installed ≡ some new
          → s.files.backup ≡ some old
          → Fate old (start_watchdog print_time print sha256 ed25519 w opts now latest s)
      unfolding start_watchdog restart_panel
      start_watchdog-Fate s v here saved =
          elim (Bool-cases (has_plan print_time print sha256 ed25519 w opts now)) [
            | inl planned ↦ rw planned (
                on_fault-Fate _ _ _ (λ why. roll_back-Fate _ _ _ _ s v here saved)
                  (λ ok. replaced latest new refl v here saved))
            | inr unplanned ↦ rw unplanned (replaced latest new refl v here saved)
          ]

      set_installed_mode-Fate :
          (s : System)
          → IsVetted latest new
          → s.files.installed ≡ some new
          → s.files.backup ≡ some old
          → Fate old (set_installed_mode print_time print sha256 ed25519 w opts now latest s)
      unfolding set_installed_mode
      set_installed_mode-Fate s v here saved =
          on_fault-Fate _ _ _ (λ why. roll_back-Fate _ _ _ _ s v here saved)
            (λ ok. start_watchdog-Fate s v here saved)

      replace_binary-Fate :
          (s : System)
          → IsVetted latest new
          → s.files.installed ≡ some old
          → s.files.backup ≡ some old
          → Fate old (replace_binary print_time print sha256 ed25519 w opts now latest new s)
      unfolding replace_binary
      replace_binary-Fate s v here saved = elim (copy_cases w.copies_staged new) [
        | inl e ↦ rw e (
            on_fault-Fate _ _ _ (λ why. kept here (λ latest e. cc))
              (λ fine.
                on_fault-Fate _ _ _ (λ why. kept here (λ latest e. cc))
                  (λ renamed. set_installed_mode-Fate _ v refl saved)))
        | inr (i, why, e) ↦
            rw e (on_fault-Fate _ _ _ (λ why. kept here (λ latest e. cc)) (λ bad. cc))
      ]

      write_plan-Fate :
          (db : Text) (s : System)
          → IsVetted latest new
          → s.files.installed ≡ some old
          → s.files.backup ≡ some old
          → Fate old (write_plan print_time print sha256 ed25519 w opts now latest new db s)
      unfolding write_plan
      write_plan-Fate db s v here saved =
          elim (Bool-cases (has_plan print_time print sha256 ed25519 w opts now)) [
            | inl planned ↦ rw planned (
                on_fault-Fate _ _ _ (λ why. kept here (λ latest e. cc))
                  (λ fine.
                    on_fault-Fate _ _ _ (λ why. kept here (λ latest e. cc))
                      (λ written. replace_binary-Fate _ v here saved)))
            | inr unplanned ↦ rw unplanned (replace_binary-Fate _ v here saved)
          ]

      back_up_database-Fate :
          (s : System)
          → IsVetted latest new
          → s.files.installed ≡ some old
          → s.files.backup ≡ some old
          → Fate old (back_up_database print_time print sha256 ed25519 w opts now latest new s)
      unfolding back_up_database
      back_up_database-Fate s v here saved =
          if-Fate (is_some opts.config) _ _
            (λ configured.
              on_reply-Fate _ _ _ (λ why. kept here (λ latest e. cc))
                (λ path fine.
                  on_fault-Fate _ _ _ (λ why. kept here (λ latest e. cc))
                    (λ verified. write_plan-Fate path _ v here saved)))
            (λ bare. write_plan-Fate [] _ v here saved)

      back_up-Fate :
          (s : System)
          → IsVetted latest new
          → s.files.installed ≡ some old
          → Fate old (back_up print_time print sha256 ed25519 w opts now latest new s)
      unfolding back_up
      back_up-Fate s v here = elim (copy_cases w.copies_backup old) [
        | inl e ↦
            rw (here, e)
              (on_fault-Fate _ _ _ (λ why. kept refl (λ latest e. cc))
                (λ fine. back_up_database-Fate _ v refl refl))
        | inr (i, why, e) ↦
            rw (here, e) (on_fault-Fate _ _ _ (λ why. kept refl (λ latest e. cc)) (λ bad. cc))
      ]

      preflight-Fate :
          (s : System)
          → (w.preflight ≡ none → IsVetted latest new)
          → s.files.installed ≡ some old
          → Fate old (preflight print_time print sha256 ed25519 w opts now latest new s)
      unfolding preflight check_disk
      preflight-Fate s v here =
          on_fault-Fate _ _ _ (λ why. kept here (λ latest e. cc))
            (λ ran.
              on_fault-Fate _ _ _ (λ why. kept here (λ latest e. cc))
                (λ found.
                  on_fault-Fate _ _ _ (λ why. kept here (λ latest e. cc))
                    (λ room. back_up-Fate _ (v ran) here)))

    module _ (latest : GithubRelease) where
      download-Fate :
          (s : System)
          → is_newer latest.tag_name opts.current_version ≡ true
          → s.files.installed ≡ some old
          → Fate old (download print_time print sha256 ed25519 w opts now latest s)
      unfolding download download_checks verify
      download-Fate s newer here =
          on_fault-Fate _ _ _ (λ why. kept here (λ latest e. cc))
            (λ made.
              on_reply-Fate _ _ _ (λ why. kept here (λ latest e. cc))
                (λ binary is_binary.
                  on_fault-Fate _ _ _ (λ why. kept here (λ latest e. cc))
                    (λ moded.
                      on_reply-Fate _ _ _ (λ why. kept here (λ latest e. cc))
                        (λ sha_file is_sha_file.
                          on_reply-Fate _ _ _ (λ why. kept here (λ latest e. cc))
                            (λ sig is_sig.
                              on_fault-Fate _ _ _ (λ why. kept here (λ latest e. cc))
                                (λ signed.
                                  on_fault-Fate _ _ _ (λ why. kept here (λ latest e. cc))
                                    (λ summed.
                                      preflight-Fate latest binary _
                                        (λ ran. record {
                                          newer = newer;
                                          sha_file = sha_file;
                                          sig = sig;
                                          is_binary = is_binary;
                                          is_sha_file = is_sha_file;
                                          is_sig = is_sig;
                                          signed = signed;
                                          summed = summed;
                                          ran = ran;
                                        })
                                        here)))))))

      choose_assets-Fate :
          (s : System)
          → is_newer latest.tag_name opts.current_version ≡ true
          → s.files.installed ≡ some old
          → Fate old (choose_assets print_time print sha256 ed25519 w opts now latest s)
      unfolding choose_assets await_signature
      choose_assets-Fate s newer here =
          let found = resolve_panel_assets latest in
          elim (Bool-cases (text_eq found.binary_url [])) [
            | inl e ↦ rw e (kept here (λ latest e. cc))
            | inr e ↦ elim (Bool-cases (text_eq found.sha256_url [])) [
              | inl f ↦ rw (e, f) (kept here (λ latest e. cc))
              | inr f ↦ elim (Bool-cases (text_eq found.sig_url [])) [
                | inl g ↦ rw (e, f, g) (kept here (λ latest e. cc))
                | inr g ↦ rw (e, f, g) (download-Fate _ newer here)
              ]
            ]
          ]

    examine-Fate :
        (release : Option GithubRelease) (s : System)
        → s.files.installed ≡ some old
        → Fate old (examine print_time print sha256 ed25519 w opts now release s)
    unfolding examine
    examine-Fate none s here = kept here (λ latest e. cc)
    examine-Fate (some latest) s here = elim (Bool-cases (text_eq latest.tag_name [])) [
      | inl e ↦ rw e (kept here (λ latest e. cc))
      | inr e ↦ elim (Bool-cases (is_newer latest.tag_name opts.current_version)) [
        | inl f ↦ rw (e, f) (choose_assets-Fate latest _ f here)
        | inr f ↦ rw (e, f) (kept here (λ latest e. cc))
      ]
    ]

  -- However the calls of the system, the downloads and the database answer, an update that starts with
  -- a binary in place ends in one of three ways. It keeps that binary and does not report an update.
  -- Or it reports an update to a newer release whose binary is in place, and that binary has the
  -- checksum of a file that is signed by the key of the releases, and passed the preflight; the old
  -- binary is saved. Or it refuses after it had put such a binary in place and the copy back of the
  -- old one failed.
  pub execute_panel_update-Fate :
      (old : Text) (s : System)
      → s.files.installed ≡ some old
      → Fate old (execute_panel_update print_time print sha256 ed25519 w opts now s)
  unfolding execute_panel_update
  execute_panel_update-Fate old s here =
      if-Fate old (not w.is_linux) _ _ (λ foreign. kept here (λ latest e. cc))
        (λ linux.
          if-Fate old w.is_locked _ _ (λ locked. kept here (λ latest e. cc))
            (λ free.
              on_reply-Fate old w.fetched _ _ (λ why. kept here (λ latest e. cc))
                (λ release fetched. examine-Fate old release _ here)))
