-- ===== src/Access/Csrf.antt =====
-- `CSRF`, `SetCSRFToken` and `GetCSRFToken` of middleware/csrf.go, and `RandomPath` of
-- middleware/random_path.go.
use wp_panel_en_private.Base.{
  ℕ, ◌+◌, ◌-◌, ◌/◌, ◌%◌, ◌≡◌, ◌≢◌, refl, arith, inl, inr, Bool, true, false, not, ◌||◌, Option,
  some, none, List, [], ◌∷◌, ◌++◌, ltb, ◌==◌, ap, ◌∙◌, if◌then◌else◌, Bool-cases,
}
use wp_panel_en_private.Base.Text.{Text, codes, text_eq, text_eq_refl, eq-text_eq, trim}

-- The method, the header X-CSRF-Token, empty where it is missing, and the cookie csrf_token, if there
-- is one that decodes. Both spellings of the header that the code asks for are one header.
pub record Form : Type 0 where
  pub method : Text
  pub header_token : Text
  pub cookie_token : Option Text

pub data CsrfReply : Type 0 where
  next : CsrfReply
  token_missing : CsrfReply
  token_mismatch : CsrfReply

abbrev pub is_safe_method : Text → Bool
is_safe_method m =
    text_eq m (codes "GET") || text_eq m (codes "HEAD") || text_eq m (codes "OPTIONS")

abbrev pub compare_tokens : Text → Option Text → CsrfReply
compare_tokens header none = token_missing
compare_tokens header (some cookie) =
    if text_eq cookie []
    then token_missing
    else if not (text_eq header cookie)
    then token_mismatch
    else next

unfoldable pub csrf : Form → CsrfReply
csrf c = if is_safe_method c.method then next else compare_tokens c.header_token c.cookie_token

abbrev pub hex_digit : ℕ → ℕ
hex_digit n = if ltb n 10 then b'0' + n else b'a' + n - 10

-- hex.EncodeToString
unfoldable pub hex_encode : List ℕ → Text
hex_encode [] = []
hex_encode (b ∷ bs) = hex_digit (b / 16) ∷ hex_digit (b % 16) ∷ hex_encode bs

-- The token of 32 bytes that rand.Read gives.
unfoldable pub generate_csrf_token : List ℕ → Text
unfolding hex_encode
generate_csrf_token bytes = hex_encode bytes

-- The token that the page gets in the context and in the header, and the cookie that is set, if any.
abbrev new_token : List ℕ → Text × Option Text
new_token bytes = (generate_csrf_token bytes, some (generate_csrf_token bytes))

unfoldable pub set_csrf_token : List ℕ → Option Text → Text × Option Text
set_csrf_token bytes none = new_token bytes
set_csrf_token bytes (some token) = if text_eq token [] then new_token bytes else (token, none)

-- What the browser holds after an answer that sets the cookie or does not.
abbrev pub keep_cookie : Option Text → Option Text → Option Text
keep_cookie before none = before
keep_cookie before (some token) = some token

-- strings.SplitN(path, "/", 2)[0]
unfoldable pub first_part : Text → Text
first_part [] = []
first_part (c ∷ s) = let rest = first_part s in if c == b'/' then [] else c ∷ rest

-- Whether the request goes on; otherwise it is answered with 404.
unfoldable pub random_path : Text → Text → Bool
unfolding first_part
random_path suffix url_path =
    let path = trim (λ c. c == b'/') url_path in
    if text_eq path [] then false else text_eq (first_part path) suffix

compare_tokens-next :
    (header : Text) (cookie : Option Text)
    → compare_tokens header cookie ≡ next
    → (token : Text) × (token ≢ []) × (cookie ≡ some token) × (header ≡ token)
compare_tokens-next header none h = cc
compare_tokens-next header (some []) h = cc
compare_tokens-next header (some (c ∷ cookie)) h =
    (c ∷ cookie, λ e. cc, refl, eq-text_eq header (c ∷ cookie) (ground arith))

-- A request that may change something and goes on carries a token that is not empty, the same in the
-- cookie and in the header.
pub csrf_sound :
    (c : Form)
    → is_safe_method c.method ≡ false
    → csrf c ≡ next
    → (token : Text) × (token ≢ []) × (c.cookie_token ≡ some token) × (c.header_token ≡ token)
unfolding csrf
csrf_sound c unsafe goes = compare_tokens-next c.header_token c.cookie_token (ground arith)

generate_csrf_token-ne :
    (b : ℕ) (bytes : List ℕ) → text_eq (generate_csrf_token (b ∷ bytes)) [] ≡ false
unfolding generate_csrf_token hex_encode
generate_csrf_token-ne b bytes = refl

-- Whatever cookie the browser had, the request that a page sends with the token that
-- `SetCSRFToken` gave it, and with the cookie that the browser then holds, goes on.
pub set_csrf_token-csrf :
    (b : ℕ) (bytes : List ℕ) (method : Text) (before : Option Text)
    → let (token, set) = set_csrf_token (b ∷ bytes) before in
      csrf (record { method = method; header_token = token; cookie_token = keep_cookie before set })
      ≡ next
unfolding csrf set_csrf_token
set_csrf_token-csrf b bytes method none =
    ground (arith, generate_csrf_token-ne b bytes, text_eq_refl (generate_csrf_token (b ∷ bytes)))
set_csrf_token-csrf b bytes method (some []) =
    ground (arith, generate_csrf_token-ne b bytes, text_eq_refl (generate_csrf_token (b ∷ bytes)))
set_csrf_token-csrf b bytes method (some (c ∷ token)) = ground (arith, text_eq_refl (c ∷ token))

abbrev pub starts_with_slash : Text → Bool
starts_with_slash [] = true
starts_with_slash (c ∷ s) = c == b'/'

first_part-append :
    (s : Text) → (rest : Text) × (s ≡ first_part s ++ rest) × (starts_with_slash rest ≡ true)
unfolding first_part
first_part-append [] = ([], refl, refl)
first_part-append (c ∷ s) = elim (Bool-cases (c == b'/')) [
  | inl slash ↦ (c ∷ s, rw slash refl, slash)
  | inr other ↦ let (rest, e, st) = first_part-append s in (rest, rw other (cc e), st)
]

-- A path that goes on is, without the slashes around it, the secret suffix alone or followed by a
-- slash and more.
pub random_path_sound :
    (suffix url_path : Text)
    → random_path suffix url_path ≡ true
    → (rest : Text) × (trim (λ c. c == b'/') url_path ≡ suffix ++ rest)
      × (starts_with_slash rest ≡ true)
unfolding random_path
random_path_sound suffix url_path h =
    let path = trim (λ c. c == b'/') url_path in
    let (rest, e, st) = first_part-append path in
    (rest, e ∙ ap (λ p. p ++ rest) (eq-text_eq (first_part path) suffix (ground arith)), st)
