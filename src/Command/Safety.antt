-- ===== src/Command/Safety.antt =====
-- What a program that the allow list lets through cannot be given.
use mathlib.Core.List.{Memᴰ}
use wp_panel_en_private.Base.{
  ℕ, ◌≡◌, ◌≢◌, refl, ◌⊎◌, inl, inr, true, false, Option, some, Option-cases, List, [], ◌∷◌, ◌++◌,
  arith, map, All, Bool-cases, all, all-mem, any-mem, any-false-mem, not, ◌||◌,
}
use wp_panel_en_private.Base.Text.{
  Text, codes, text_eq, eq-text_eq, has_prefix, has_prefix-append, contains_any, mem_code, to_lower,
}
use wp_panel_en_private.Command.{
  Url, allowed_commands, find_command, download_hosts, control_codes, shell_codes, matches_word,
  is_allowed_download_url, is_unsafe_arg, has_unsafe_args, is_command_allowed,
}

-- No end of a C string, no line break, and nothing that a shell treats as an operator, a
-- substitution or a redirection.
abbrev pub IsHarmless : ℕ → Type 0
IsHarmless c =
    (c ≢ 0)
    × (c ≢ b'\n')
    × (c ≢ b'\r')
    × (c ≢ b';')
    × (c ≢ b'|')
    × (c ≢ b'&')
    × (c ≢ b'`')
    × (c ≢ b'$')
    × (c ≢ b'<')
    × (c ≢ b'>')

harmless :
    (c : ℕ) → mem_code c control_codes ≡ false → mem_code c shell_codes ≡ false → IsHarmless c
harmless c h k = ground arith

IsHarmless-All :
    (s : Text)
    → contains_any s control_codes ≡ false
    → contains_any s shell_codes ≡ false
    → All IsHarmless s
IsHarmless-All [] h k = tt
IsHarmless-All (c ∷ s) h k =
    (harmless c (ground arith) (ground arith), IsHarmless-All s (ground arith) (ground arith))

nonempty : (arg : Text) → text_eq arg [] ≡ false → arg ≢ []
nonempty [] h = cc
nonempty (c ∷ s) h = λ e. cc

fetches :
    (binary : Text)
    → (binary ≡ codes "wget") ⊎ (binary ≡ codes "curl")
    → (text_eq binary (codes "wget") || text_eq binary (codes "curl")) ≡ true
fetches binary w = elim w [ inl e ↦ rw e | inr e ↦ rw e ]

allowed_url :
    (parse_url : Text → Option Url) (lower_rest : ℕ → ℕ) (raw : Text)
    → is_allowed_download_url parse_url lower_rest raw ≡ true
    → (u : Url) × (parse_url raw ≡ some u)
      × (u.scheme ≡ codes "https")
      × (u.has_user ≡ false)
      × Memᴰ (map (to_lower lower_rest) u.hostname) download_hosts
unfolding is_allowed_download_url
allowed_url parse_url lower_rest raw h = elim (Option-cases (parse_url raw)) [
  | inl e ↦ absurd (ground arith)
  | inr (u, e) ↦ (
    u,
    e,
    eq-text_eq u.scheme (codes "https") (ground arith),
    ground arith,
    let (host, m, same) =
          any-mem (text_eq (map (to_lower lower_rest) u.hostname)) download_hosts (ground arith) in
        rw (eq-text_eq (map (to_lower lower_rest) u.hostname) host same) m,
  )
]

word_matched :
    (arg : Text) (words : List Text)
    → matches_word arg words ≡ true
    → (word : Text) × Memᴰ word words
      × ((arg ≡ word) ⊎ ((value : Text) × (arg ≡ (word ++ codes "=") ++ value)))
unfolding matches_word
word_matched arg words h =
    let (word, m, e) =
      any-mem (λ word. text_eq arg word || has_prefix arg (word ++ codes "=")) words h in
    (
      word,
      m,
      elim (Bool-cases (text_eq arg word)) [
        | inl same ↦ inl (eq-text_eq arg word same)
        | inr other ↦ inr (has_prefix-append arg (word ++ codes "=") (ground arith))
      ],
    )

module _ (parse_url : Text → Option Url) (lower_rest : ℕ → ℕ) (binary : Text)
    (args : List Text) where
  no_unsafe :
      is_command_allowed parse_url lower_rest binary args ≡ true
      → has_unsafe_args parse_url lower_rest binary args ≡ false
  unfolding is_command_allowed
  no_unsafe h = ground arith

  safe_arg :
      (arg : Text)
      → is_command_allowed parse_url lower_rest binary args ≡ true
      → Memᴰ arg args
      → is_unsafe_arg parse_url lower_rest binary arg ≡ false
  unfolding has_unsafe_args
  safe_arg arg h m = any-false-mem _ arg args (no_unsafe h) m

  -- No argument of a command that is let through is empty, and none contains a NUL, a carriage return,
  -- a line feed or one of ; | & ` $ < >.
  pub command_allowed-IsHarmless :
      (arg : Text)
      → is_command_allowed parse_url lower_rest binary args ≡ true
      → Memᴰ arg args
      → (arg ≢ []) × All IsHarmless arg
  unfolding is_unsafe_arg
  command_allowed-IsHarmless arg h m = (
    nonempty arg (ground (arith, safe_arg arg h m)),
    IsHarmless-All arg (ground (arith, safe_arg arg h m)) (ground (arith, safe_arg arg h m)),
  )

  -- A download by `wget` or `curl` that is let through goes to an https URL with no credentials in
  -- it, at one of the six hosts.
  pub command_allowed-download :
      (arg : Text)
      → is_command_allowed parse_url lower_rest binary args ≡ true
      → Memᴰ arg args
      → (binary ≡ codes "wget") ⊎ (binary ≡ codes "curl")
      → has_prefix arg (codes "http") ≡ true
      → (u : Url) × (parse_url arg ≡ some u)
        × (u.scheme ≡ codes "https")
        × (u.has_user ≡ false)
        × Memᴰ (map (to_lower lower_rest) u.hostname) download_hosts
  unfolding is_unsafe_arg
  command_allowed-download arg h m w p =
      allowed_url parse_url lower_rest arg (ground (arith, safe_arg arg h m, fetches binary w))

  options_checked :
      (words : List Text)
      → words ≢ []
      → find_command allowed_commands binary ≡ some words
      → is_command_allowed parse_url lower_rest binary args ≡ true
      → all (λ arg. not (has_prefix arg (codes "-")) || matches_word arg words) args ≡ true
  unfolding is_command_allowed
  options_checked [] ne e h = absurd (ne refl)
  options_checked (word ∷ words) ne e h = ground arith

  -- An option that is let through, for a program with a list of words, is one of the words, or one
  -- of them followed by "=" and a value.
  pub command_allowed-option :
      (words : List Text) (arg : Text)
      → is_command_allowed parse_url lower_rest binary args ≡ true
      → find_command allowed_commands binary ≡ some words
      → words ≢ []
      → Memᴰ arg args
      → has_prefix arg (codes "-") ≡ true
      → (word : Text) × Memᴰ word words
        × ((arg ≡ word) ⊎ ((value : Text) × (arg ≡ (word ++ codes "=") ++ value)))
  command_allowed-option words arg h e ne m p =
      word_matched arg words (ground (arith, all-mem _ arg args (options_checked words ne e h) m))
