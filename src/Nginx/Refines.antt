-- ===== src/Nginx/Refines.antt =====
-- `updateNginxBannedIPs` of executor/nginx_ban.go as a change of a set of addresses.
use wp_panel_en_private.Base.{
  ◌≡◌, ◌≢◌, refl, ap, ◌∙◌, arith, ◌⊎◌, inl, inr, Bool, true, false, not, ◌&&◌, ◌||◌, Option, none,
  some, List, [], ◌∷◌, ◌++◌, all, ◌==◌, if◌then◌else◌, if-Both, Bool-cases, Option-cases,
}
use wp_panel_en_private.Base.Fault.{Fault, on_fault, on_fault-By}
use wp_panel_en_private.Base.Text.{
  Text, codes, text_eq, eq-text_eq, split, fields, trim_space, trim_right,
}
use wp_panel_en_private.Nginx.{
  BanMap, put_ip, delete_ip, is_banned, BanFile, missing, unreadable, holds, NginxWorld, field_ip,
  skips, line_ip, put_found, read_lines, read_content, render_nginx_banned_ips, restored, is_same,
  after_rename, write_nginx_banned_ips, read_nginx_banned_ips, update_nginx_banned_ips,
}
use wp_panel_en_private.Nginx.RoundTrip.{
  is_ip_text, read_content-render, is_banned-put_ip, is_banned-delete_ip,
}

module _ (is_valid : Text → Bool) where
  -- The set of addresses that a file bans.
  abbrev pub held : BanFile → Text → Bool
  held missing j = false
  held (unreadable why) j = false
  held (holds content) j = is_banned (read_content is_valid content) j

  -- The set with an address more or less.
  abbrev pub changed : Text → Bool → (Text → Bool) → Text → Bool
  changed ip true set j = text_eq ip j || set j
  changed ip false set j = not (text_eq ip j) && set j

  -- How a change of the file to a set ends.
  pub data Change (file : BanFile) (set : Text → Bool) (w : NginxWorld)
      : BanFile × Fault → Type 0 where
    done : {after : BanFile} → ((j : Text) → held after j ≡ set j) → Change file set w (after, none)
    rejected : (why : Text) → Change file set w (file, some why)
    not_reloaded :
        {after : BanFile} (why : Text)
        → ((j : Text) → held after j ≡ set j)
        → w.tests ≡ none
        → w.reloads ≢ none
        → Change file set w (after, some why)
    torn :
        {after : BanFile} (why : Text)
        → w.tests ≢ none
        → (some after ≡ w.botched_restore) ⊎ (some after ≡ w.botched_removal)
        → Change file set w (after, some why)

  abbrev valid_keys : BanMap → Bool
  valid_keys ips = all (λ (key, banned). is_valid key) ips

  put_ip-valid_keys :
      (ip : Text) (ips : BanMap)
      → is_valid ip ≡ true
      → valid_keys ips ≡ true
      → valid_keys (put_ip ip ips) ≡ true
  put_ip-valid_keys ip [] h hs = ground arith
  put_ip-valid_keys ip ((key, banned) ∷ ips) h hs = ground (arith, put_ip-valid_keys ip ips)

  Accepted : Option Text → Type 0
  Accepted none = Unit
  Accepted (some ip) = is_valid ip ≡ true

  if_valid-Accepted : (ip : Text) → Accepted (if is_valid ip then some ip else none)
  unfolding Accepted
  if_valid-Accepted ip = go (is_valid ip) refl
    where
      go : (b : Bool) → is_valid ip ≡ b → Accepted (if b then some ip else none)
      go true e = e
      go false e = tt

  field_ip-Accepted : (parts : List Text) → Accepted (field_ip is_valid parts)
  unfolding Accepted
  field_ip-Accepted [] = tt
  field_ip-Accepted (a ∷ []) = tt
  field_ip-Accepted (a ∷ b ∷ rest) =
      if-Both Accepted (not (text_eq b (codes "1"))) tt (if_valid-Accepted (trim_space a))

  line_ip-Accepted : (line : Text) → Accepted (line_ip is_valid line)
  unfolding Accepted line_ip
  line_ip-Accepted line =
      if-Both Accepted (skips is_valid (trim_space line)) tt
        (field_ip-Accepted (fields (trim_right (λ c. c == b';') (trim_space line))))

  put_found-valid_keys :
      (found : Option Text) (ips : BanMap)
      → Accepted found
      → valid_keys ips ≡ true
      → valid_keys (put_found is_valid found ips) ≡ true
  unfolding Accepted
  put_found-valid_keys none ips h hs = hs
  put_found-valid_keys (some ip) ips h hs = put_ip-valid_keys ip ips h hs

  read_lines-valid_keys :
      (lines : List Text) (ips : BanMap)
      → valid_keys ips ≡ true
      → valid_keys (read_lines is_valid lines ips) ≡ true
  read_lines-valid_keys [] ips h = h
  read_lines-valid_keys (line ∷ lines) ips h =
      read_lines-valid_keys lines (put_found is_valid (line_ip is_valid line) ips)
        (put_found-valid_keys (line_ip is_valid line) ips (line_ip-Accepted line) h)

  read_content-valid_keys : (content : Text) → valid_keys (read_content is_valid content) ≡ true
  unfolding read_content
  read_content-valid_keys content = read_lines-valid_keys (split b'\n' content) [] refl

  is_banned-valid :
      (ips : BanMap) (j : Text)
      → valid_keys ips ≡ true
      → is_banned ips j ≡ (is_banned ips j && is_valid j)
  is_banned-valid [] j h = refl
  is_banned-valid ((key, banned) ∷ ips) j h = elim (Bool-cases (text_eq key j)) [
    | inl e ↦
        let same : is_valid key ≡ is_valid j = ap is_valid (eq-text_eq key j e) in
        ground (arith, is_banned-valid ips j)
    | inr e ↦ ground (arith, is_banned-valid ips j)
  ]

  update_map : Text → Bool → BanMap → BanMap
  update_map ip banned ips = if banned then put_ip ip ips else delete_ip ip ips

  module _ (spells : (s : Text) → is_valid s ≡ true → is_ip_text s ≡ true) where
    -- What a rendered file holds of a map that was read and changed.
    render-changed :
        (ip : Text) (banned : Bool) (ips : BanMap)
        → is_valid ip ≡ true
        → valid_keys ips ≡ true
        → (j : Text)
        → held (holds (render_nginx_banned_ips is_valid (update_map ip banned ips))) j
          ≡ changed ip banned (is_banned ips) j
    unfolding update_map
    render-changed ip true ips valid hs j =
        read_content-render is_valid spells (put_ip ip ips) j ∙ elim (Bool-cases (text_eq ip j)) [
          | inl e ↦
              let same : is_valid ip ≡ is_valid j = ap is_valid (eq-text_eq ip j e) in
              ground (arith, is_banned-put_ip is_valid spells ip ips j, is_banned-valid ips j)
          | inr e ↦ ground (arith, is_banned-put_ip is_valid spells ip ips j, is_banned-valid ips j)
        ]
    render-changed ip false ips valid hs j =
        read_content-render is_valid spells (delete_ip ip ips) j
        ∙ ground (arith, is_banned-delete_ip is_valid spells ip ips j, is_banned-valid ips j)

    restored-Change :
        (w : NginxWorld) (old : BanFile) (set : Text → Bool) (why : Text)
        → w.tests ≢ none
        → ((problem : Text) → old ≢ unreadable problem)
        → Change old set w (restored is_valid w old, some why)
    restored-Change w missing set why failed readable = elim (Option-cases w.botched_removal) [
      | inl e ↦ rw e (rejected why)
      | inr (left, e) ↦ rw e (torn why failed (inr refl))
    ]
    restored-Change w (unreadable problem) set why failed readable = absurd (readable problem refl)
    restored-Change w (holds content) set why failed readable =
        elim (Option-cases w.botched_restore) [
          | inl e ↦ rw e (rejected why)
          | inr (left, e) ↦ rw e (torn why failed (inl refl))
        ]

    after_rename-Change :
        (w : NginxWorld) (old : BanFile) (content : Text) (set : Text → Bool)
        → ((problem : Text) → old ≢ unreadable problem)
        → ((j : Text) → held (holds content) j ≡ set j)
        → Change old set w (after_rename is_valid w true old content)
    after_rename-Change w old content set readable new =
        on_fault-By (Change old set w) w.tests
          (λ out e. restored-Change w old set _ (λ fine. cc) readable)
          (λ tested.
            on_fault-By (Change old set w) w.reloads
              (λ out e. not_reloaded _ new tested (λ fine. cc)) (λ reloaded. done new))

    write-Change :
        (w : NginxWorld) (old : BanFile) (ips : BanMap) (set : Text → Bool)
        → ((problem : Text) → old ≢ unreadable problem)
        → ((j : Text) → held (holds (render_nginx_banned_ips is_valid ips)) j ≡ set j)
        → Change old set w (write_nginx_banned_ips is_valid w ips true old)
    unfolding write_nginx_banned_ips
    write-Change w old ips set readable new =
        on_fault-By (Change old set w) w.makes_dir (λ why e. rejected why)
          (λ made. go (is_same is_valid old content) refl)
      where
        content : Text
        content = render_nginx_banned_ips is_valid ips

        go :
            (same : Bool)
            → is_same is_valid old content ≡ same
            → Change old set w (
                if same
                then (old, none)
                else on_fault w.writes_tmp
                    (λ why. (old, some why))
                    (on_fault w.renames
                      (λ why. (old, some why))
                      (after_rename is_valid w true old content)))
        go true e = done (same-held old e)
          where
            same-held :
                (file : BanFile)
                → is_same is_valid file content ≡ true
                → (j : Text) → held file j ≡ set j
            same-held missing e j = cc
            same-held (unreadable why) e j = cc
            same-held (holds text) e j =
                ap (λ c. held (holds c) j) (eq-text_eq text content e) ∙ new j
        go false e =
            on_fault-By (Change old set w) w.writes_tmp (λ why f. rejected why)
              (λ written.
                on_fault-By (Change old set w) w.renames (λ why f. rejected why)
                  (λ renamed. after_rename-Change w old content set readable new))

    read-Change :
        (w : NginxWorld) (ip : Text) (banned : Bool) (file : BanFile)
        → is_valid ip ≡ true
        → Change file (changed ip banned (held file)) w (
            read_nginx_banned_ips is_valid file
              (λ why. (file, some why))
              (λ ips.
                write_nginx_banned_ips is_valid w
                  (if banned then put_ip ip ips else delete_ip ip ips)
                  true
                  file))
    unfolding read_nginx_banned_ips update_map
    read-Change w ip banned missing valid =
        write-Change w missing (update_map ip banned []) (changed ip banned (held missing))
          (λ problem e. cc) (render-changed ip banned [] valid refl)
    read-Change w ip banned (unreadable why) valid = rejected why
    read-Change w ip banned (holds content) valid =
        write-Change w (holds content) (update_map ip banned (read_content is_valid content))
          (changed ip banned (held (holds content))) (λ problem e. cc)
          (render-changed ip banned (read_content is_valid content) valid
            (read_content-valid_keys content))

    -- Where an accepted text is written with the code points of an address only: adding an address to
    -- the file, or taking one out, ends in one of four ways, whatever the file holds and the calls of
    -- the system answer. It succeeds, and the set of addresses that the file bans is the old one with
    -- the address added or taken out. Or it fails and leaves the file as it was, after a failed test of
    -- nginx too. Or the test passed and only the reload failed, and the file bans the new set. Or the
    -- test failed and then the old file could not be put back.
    pub update_nginx_banned_ips-Change :
        (lock : Fault) (w : NginxWorld) (text : Text) (banned : Bool) (file : BanFile)
        → Change file
            (changed (trim_space text) banned (held file))
            w
            (update_nginx_banned_ips is_valid lock w text banned file)
    unfolding update_nginx_banned_ips
    update_nginx_banned_ips-Change lock w text banned file = go (is_valid ip) refl
      where
        ip : Text
        ip = trim_space text

        Good : BanFile × Fault → Type 0
        Good = Change file (changed ip banned (held file)) w

        go :
            (accepted : Bool)
            → is_valid ip ≡ accepted
            → Good (
                if not accepted
                then (file, some (codes "invalid IP: " ++ ip))
                else on_fault lock
                    (λ why. (file, some why))
                    (read_nginx_banned_ips is_valid file
                      (λ why. (file, some why))
                      (λ ips.
                        write_nginx_banned_ips is_valid w
                          (if banned then put_ip ip ips else delete_ip ip ips)
                          true
                          file)))
        go false e = rejected _
        go true e =
            on_fault-By Good lock (λ why f. rejected why) (λ free. read-Change w ip banned file e)
