-- ===== src/Nginx/RoundTrip.antt =====
-- What executor/nginx_ban.go reads of a file that it has rendered.
use wp_panel_en_private.Base.{
  ℕ, ◌≡◌, refl, sym, ap, ◌∙◌, arith, inl, inr, Bool, true, false, not, ◌&&◌, ◌||◌, none, some, List,
  [], ◌∷◌, ◌++◌, append_assoc, all, all-imp, all-append, any, leb, ◌==◌, if◌then◌else◌, if_false,
  Bool-cases,
}
use wp_panel_en_private.Base.Text.{
  Text, codes, text_eq, eq-text_eq, fields, fields_from, is_space, is_digit, trim_left, trim_right,
  trim_space,
}
use wp_panel_en_private.Nginx.{
  BanMap, put_ip, delete_ip, is_banned, insert_sorted, sort_strings, entry_line, entry_lines,
  file_lines, entries_of, render_nginx_banned_ips, field_ip, skips, line_ip, put_found, read_lines,
  read_content,
}
use wp_panel_en_private.Nginx.Lines.{
  one_line, split-with_newlines, trim_right-kept, trim_right-cut, spaceless, trim_space-spaceless,
  fields_from-append,
}

-- The code points of an address or of a network: digits of base 16, full stop, colon and slash.
abbrev pub ip_code : ℕ → Bool
ip_code c =
    is_digit c
    || (leb b'a' c && leb c b'f')
    || (leb b'A' c && leb c b'F')
    || c == b'.'
    || c == b':'
    || c == b'/'

abbrev pub is_ip_text : Text → Bool
is_ip_text s = not (text_eq s []) && all ip_code s

pub spaceless-ip : (s : Text) → is_ip_text s ≡ true → spaceless s ≡ true
unfolding is_space
spaceless-ip s h = all-imp ip_code (λ c. not (is_space c)) (λ c e. ground arith) s (ground arith)

one_line-ip : (s : Text) → is_ip_text s ≡ true → one_line s ≡ true
one_line-ip s h = all-imp ip_code (λ c. not (c == b'\n')) (λ c e. ground arith) s (ground arith)

trim_space-entry_line :
    (s : Text) → is_ip_text s ≡ true → trim_space (entry_line s) ≡ s ++ codes " 1;"
unfolding trim_space is_space
trim_space-entry_line [] h = cc
trim_space-entry_line (c ∷ s) h =
    let solid : is_space c ≡ false = ground arith in
    let cut : trim_left is_space (entry_line (c ∷ s)) ≡ c ∷ s ++ codes " 1;" = rw solid refl in
    ap (trim_right is_space) (cut ∙ sym (append_assoc (c ∷ s) (codes " 1") (codes ";")))
    ∙ trim_right-kept is_space ((c ∷ s) ++ codes " 1") b';' refl
    ∙ append_assoc (c ∷ s) (codes " 1") (codes ";")

fields-entry_line :
    (s : Text)
    → is_ip_text s ≡ true
    → fields (trim_right (λ c. c == b';') (s ++ codes " 1;")) ≡ s ∷ codes "1" ∷ []
unfolding fields fields_from is_space
fields-entry_line [] h = cc
fields-entry_line (c ∷ s) h =
    ap (λ line. fields (trim_right (λ c. c == b';') line))
      (sym (append_assoc (c ∷ s) (codes " 1") (codes ";")))
    ∙ ap fields (
        trim_right-cut (λ c. c == b';') ((c ∷ s) ++ codes " 1") b';' refl
        ∙ ap (trim_right (λ c. c == b';')) (sym (append_assoc (c ∷ s) (codes " ") (codes "1")))
        ∙ trim_right-kept (λ c. c == b';') ((c ∷ s) ++ codes " ") b'1' refl
        ∙ append_assoc (c ∷ s) (codes " ") (codes "1"))
    ∙ fields_from-append [] (c ∷ s) (codes " 1") (spaceless-ip (c ∷ s) h)

module _ (is_valid : Text → Bool)
    (spells : (s : Text) → is_valid s ≡ true → is_ip_text s ≡ true) where
  skips-ip : (s : Text) → is_ip_text s ≡ true → skips is_valid (s ++ codes " 1;") ≡ false
  skips-ip [] h = cc
  skips-ip (c ∷ s) h = ground arith

  line_ip-entry_line : (s : Text) → is_valid s ≡ true → line_ip is_valid (entry_line s) ≡ some s
  unfolding line_ip
  line_ip-entry_line s valid =
      let spelt = spells s valid in
      ap
        (λ line.
          if skips is_valid line
          then none
          else field_ip is_valid (fields (trim_right (λ c. c == b';') line)))
        (trim_space-entry_line s spelt)
      ∙ if_false (skips is_valid (s ++ codes " 1;")) _ _ (skips-ip s spelt)
      ∙ ap (field_ip is_valid) (fields-entry_line s spelt)
      ∙ rw (trim_space-spaceless s (spaceless-ip s spelt), valid) refl

  pub is_banned-put_ip :
      (ip : Text) (ips : BanMap) (j : Text)
      → is_banned (put_ip ip ips) j ≡ (text_eq ip j || is_banned ips j)
  is_banned-put_ip ip [] j = ground arith
  is_banned-put_ip ip ((key, banned) ∷ ips) j = elim (Bool-cases (text_eq key ip)) [
    | inl e ↦ rw (e, eq-text_eq key ip e) (ground arith)
    | inr e ↦ rw e (ground (arith, is_banned-put_ip ip ips j))
  ]

  key_apart :
      (key ip j : Text) → text_eq key ip ≡ false → text_eq ip j ≡ true → text_eq key j ≡ false
  key_apart key ip j e f = ap (text_eq key) (sym (eq-text_eq ip j f)) ∙ e

  pub is_banned-delete_ip :
      (ip : Text) (ips : BanMap) (j : Text)
      → is_banned (delete_ip ip ips) j ≡ (not (text_eq ip j) && is_banned ips j)
  is_banned-delete_ip ip [] j = ground arith
  is_banned-delete_ip ip ((key, banned) ∷ ips) j = elim (Bool-cases (text_eq key ip)) [
    | inl e ↦ rw (e, eq-text_eq key ip e) (ground (arith, is_banned-delete_ip ip ips j))
    | inr e ↦ rw e (elim (Bool-cases (text_eq ip j)) [
      | inl f ↦ ground (arith, is_banned-delete_ip ip ips j, key_apart key ip j)
      | inr f ↦ ground (arith, is_banned-delete_ip ip ips j)
    ])
  ]

  abbrev lists : List Text → Text → Bool
  lists texts j = any (λ text. text_eq text j) texts

  lists-insert_sorted :
      (s : Text) (ts : List Text) (j : Text)
      → lists (insert_sorted s ts) j ≡ (text_eq s j || lists ts j)
  lists-insert_sorted s [] j = refl
  lists-insert_sorted s (t ∷ ts) j = ground (arith, lists-insert_sorted s ts j)

  lists-sort_strings : (ts : List Text) (j : Text) → lists (sort_strings ts) j ≡ lists ts j
  lists-sort_strings [] j = refl
  lists-sort_strings (t ∷ ts) j =
      ground (arith, lists-insert_sorted t (sort_strings ts) j, lists-sort_strings ts j)

  lists-entries_of :
      (ips : BanMap) (j : Text)
      → lists (entries_of is_valid ips) j ≡ (is_banned ips j && is_valid j)
  lists-entries_of [] j = refl
  lists-entries_of ((ip, banned) ∷ ips) j = elim (Bool-cases (text_eq ip j)) [
    | inl e ↦
        let same : is_valid ip ≡ is_valid j = ap is_valid (eq-text_eq ip j e) in
        ground (arith, lists-entries_of ips j)
    | inr e ↦ ground (arith, lists-entries_of ips j)
  ]

  all-insert_sorted :
      (p : Text → Bool) (s : Text) (ts : List Text)
      → p s ≡ true
      → all p ts ≡ true
      → all p (insert_sorted s ts) ≡ true
  all-insert_sorted p s [] h hs = ground arith
  all-insert_sorted p s (t ∷ ts) h hs = ground (arith, all-insert_sorted p s ts)

  all-sort_strings :
      (p : Text → Bool) (ts : List Text) → all p ts ≡ true → all p (sort_strings ts) ≡ true
  all-sort_strings p [] h = refl
  all-sort_strings p (t ∷ ts) h =
      all-insert_sorted p t (sort_strings ts) (ground arith) (all-sort_strings p ts (ground arith))

  all-entries_of : (ips : BanMap) → all is_valid (entries_of is_valid ips) ≡ true
  all-entries_of [] = refl
  all-entries_of ((ip, banned) ∷ ips) = ground (arith, all-entries_of ips)

  one_line-entry_line : (s : Text) → is_valid s ≡ true → one_line (entry_line s) ≡ true
  one_line-entry_line s valid =
      let here : one_line s ≡ true = one_line-ip s (spells s valid) in
      ground (arith, all-append (λ c. not (c == b'\n')) s (codes " 1;"))

  one_line-entry_lines :
      (ts : List Text) → all is_valid ts ≡ true → all one_line (entry_lines ts) ≡ true
  one_line-entry_lines [] h = refl
  one_line-entry_lines (t ∷ ts) h = ground (arith, one_line-entry_line t, one_line-entry_lines ts)

  read_lines-entry_lines :
      (ts : List Text) (ips : BanMap) (j : Text)
      → all is_valid ts ≡ true
      → is_banned (read_lines is_valid (entry_lines ts ++ [] ∷ []) ips) j
        ≡ (lists ts j || is_banned ips j)
  unfolding line_ip trim_space is_space
  read_lines-entry_lines [] ips j h = refl
  read_lines-entry_lines (t ∷ ts) ips j h =
      let found : line_ip is_valid (entry_line t) ≡ some t = line_ip-entry_line t (ground arith) in
      ap
        (λ ip.
          is_banned (read_lines is_valid (entry_lines ts ++ [] ∷ []) (put_found is_valid ip ips)) j)
        found
      ∙ read_lines-entry_lines ts (put_ip t ips) j (ground arith)
      ∙ ground (arith, is_banned-put_ip t ips j)

  -- Where an accepted text is written with the code points of an address only: what is read of the file
  -- that is rendered of a map are the addresses that the map bans and that are accepted, no others.
  pub read_content-render :
      (ips : BanMap) (j : Text)
      → is_banned (read_content is_valid (render_nginx_banned_ips is_valid ips)) j
        ≡ (is_banned ips j && is_valid j)
  unfolding read_content render_nginx_banned_ips line_ip trim_space is_space fields fields_from
  read_content-render ips j =
      let entries = sort_strings (entries_of is_valid ips) in
      let valid : all is_valid entries ≡ true = all-sort_strings is_valid _ (all-entries_of ips) in
      ap (λ lines. is_banned (read_lines is_valid lines []) j)
        (split-with_newlines (file_lines entries) (one_line-entry_lines entries valid))
      ∙ read_lines-entry_lines entries [] j valid
      ∙ ground (arith, lists-sort_strings (entries_of is_valid ips) j, lists-entries_of ips j)
