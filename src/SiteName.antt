-- ===== src/SiteName.antt =====
-- `buildSiteName` of executor/queue.go: the name of a site's user, pool and files, from its domain.
-- `lower_rest` is `unicode.ToLower` beyond ASCII, and `digest` is SHA-1 followed by the encoding in
-- hexadecimal.
mod Examples
use wp_panel_en_private.Base.{
  ℕ, ◌+◌, ◌-◌, ◌≤◌, ◌<◌, ◌≡◌, refl, ◌∙◌, Bool, true, false, ◌&&◌, ◌||◌, List, [], ◌∷◌, ◌++◌, arith,
  ltb, leb, ◌==◌, all, length, take, map, not, if◌then◌else◌, length-append, all-append, all-take,
  length-take, all-imp,
}
use wp_panel_en_private.Base.Text.{
  to_lower, Text, codes, trim, trim_right, trim_space, has_suffix, all-trim, all-trim_right,
  length-trim_right, is_digit,
}

abbrev pub is_underscore : ℕ → Bool
is_underscore c = c == b'_'

abbrev pub is_alpha_num : ℕ → Bool
is_alpha_num c = (leb b'a' c && leb c b'z') || is_digit c

-- One round of the loop over the normalized domain: the text built so far, and `lastUnderscore`.
unfoldable pub name_step : Text → Bool → ℕ → Text × Bool
name_step b last c =
    if is_alpha_num c
    then (b ++ c ∷ [], false)
    else if (c == b'.' || c == b'-') && ltb 0 (length b) && not last
    then (b ++ b'_' ∷ [], true)
    else (b, last)

unfoldable pub build_name : Text → Bool → Text → Text
unfolding name_step
build_name b last [] = b
build_name b last (c ∷ s) = let (b', last') = name_step b last c in build_name b' last' s

-- if name == "" { name = "site" }
abbrev pub or_site : Text → Text
or_site [] = codes "site"
or_site (c ∷ s) = c ∷ s

abbrev pub max_site_name_len : ℕ
max_site_name_len = 27

abbrev pub hash_separator_len : ℕ
hash_separator_len = 1

-- strings.TrimSuffix(s, ".")
unfoldable pub trim_dot : Text → Text
trim_dot s = if has_suffix s (codes ".") then take (length s - 1) s else s

unfoldable pub shorten : ℕ → Text → Text
shorten max_readable_len name =
    if ltb max_readable_len (length name)
    then or_site (trim_right is_underscore (take max_readable_len name))
    else name

unfoldable pub normalize_domain : (ℕ → ℕ) → Text → Text
unfolding to_lower trim_dot trim_space
normalize_domain lower_rest domain = map (to_lower lower_rest) (trim_dot (trim_space domain))

unfoldable pub build_site_name : (ℕ → ℕ) → (Text → Text) → Text → Text
unfolding normalize_domain shorten build_name
build_site_name lower_rest digest domain =
    let normalized = normalize_domain lower_rest domain in
    let suffix = take 8 (digest normalized) in
    let name = or_site (trim is_underscore (build_name [] false normalized)) in
    let max_readable_len = max_site_name_len - hash_separator_len - length suffix in
    shorten max_readable_len name ++ b'_' ∷ suffix

abbrev pub is_name_char : ℕ → Bool
is_name_char c = is_alpha_num c || is_underscore c

abbrev pub is_hex : ℕ → Bool
is_hex c = is_digit c || (leb b'a' c && leb c b'f')

name_step-chars :
    (b : Text) (last : Bool) (c : ℕ)
    → all is_name_char b ≡ true
    → all is_name_char (name_step b last c).0 ≡ true
unfolding name_step
name_step-chars b last c h =
    ground (arith, all-append is_name_char b (c ∷ []), all-append is_name_char b (b'_' ∷ []))

build_name-chars :
    (s : Text) (b : Text) (last : Bool)
    → all is_name_char b ≡ true
    → all is_name_char (build_name b last s) ≡ true
unfolding build_name
build_name-chars [] b last h = h
build_name-chars (c ∷ s) b last h =
    let (b', last') = name_step b last c in build_name-chars s b' last' (name_step-chars b last c h)

or_site-chars : (s : Text) → all is_name_char s ≡ true → all is_name_char (or_site s) ≡ true
or_site-chars [] h = refl
or_site-chars (c ∷ s) h = h

length-or_site : (s : Text) (n : ℕ) → 4 ≤ n → length s ≤ n → length (or_site s) ≤ n
length-or_site [] n h k = h
length-or_site (c ∷ s) n h k = k

shorten-chars :
    (n : ℕ) (name : Text) → all is_name_char name ≡ true → all is_name_char (shorten n name) ≡ true
unfolding shorten
shorten-chars n name h = ground (
  arith,
  or_site-chars (trim_right is_underscore (take n name)),
  all-trim_right is_name_char is_underscore (take n name),
  all-take is_name_char n name,
)

length-shorten : (n : ℕ) (name : Text) → 4 ≤ n → length (shorten n name) ≤ n
unfolding shorten
length-shorten n name h = ground (
  arith,
  length-or_site (trim_right is_underscore (take n name)) n,
  length-trim_right is_underscore (take n name),
  length-take n name,
)

hex-name_char : (c : ℕ) → is_hex c ≡ true → is_name_char c ≡ true
hex-name_char c h = ground arith

joined_safe :
    (name suffix : Text)
    → all is_name_char name ≡ true
    → length suffix ≡ 8
    → all is_name_char suffix ≡ true
    → let joined =
        shorten (max_site_name_len - hash_separator_len - length suffix) name ++ b'_' ∷ suffix in
      (length joined ≤ max_site_name_len) × (all is_name_char joined ≡ true)
joined_safe name suffix h l k =
    let n : ℕ = max_site_name_len - hash_separator_len - length suffix in
    (
      omega (
        arith,
        length-append (shorten n name) (b'_' ∷ suffix),
        length-shorten n name (omega arith),
      ),
      all-append is_name_char (shorten n name) (b'_' ∷ suffix)
          ∙ ground (arith, shorten-chars n name h),
    )

-- For every domain, the site's name has at most 27 characters, all of them lower case letters,
-- digits or underscores, given that the digest is forty hexadecimal digits.
pub build_site_name_safe :
    (lower_rest : ℕ → ℕ) (digest : Text → Text) (domain : Text)
    → ((s : Text) → length (digest s) ≡ 40)
    → ((s : Text) → all is_hex (digest s) ≡ true)
    → let name = build_site_name lower_rest digest domain in
      (length name ≤ max_site_name_len) × (all is_name_char name ≡ true)
unfolding build_site_name
build_site_name_safe lower_rest digest domain long hex =
    let n : Text = normalize_domain lower_rest domain in
    let built : Text = build_name [] false n in
    joined_safe (or_site (trim is_underscore built)) (take 8 (digest n))
      (or_site-chars (trim is_underscore built)
        (all-trim is_name_char is_underscore built (build_name-chars n [] false refl)))
      (omega (arith, length-take 8 (digest n), long n))
      (all-imp is_hex is_name_char hex-name_char (take 8 (digest n))
        (all-take is_hex 8 (digest n) (hex n)))
