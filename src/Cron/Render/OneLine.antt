-- ===== src/Cron/Render/OneLine.antt =====
-- A stored task is one line of the cron file: no task can add a second entry to it.
use wp_panel_en_private.Base.{
  ℕ, zero, suc, ◌+◌, ◌/◌, ◌%◌, ◌≡◌, refl, ◌∙◌, Bool, true, false, ◌&&◌, ◌||◌, not, Option, none,
  some, [], ◌∷◌, ◌++◌, arith, if◌then◌else◌, all, all-append, all-imp, ◌==◌, ltb, Bool-cases, inl,
  inr, drop, length, length,
}
use wp_panel_en_private.Base.Text.{Text, codes, text_eq, eq-text_eq, has_prefix}
use wp_panel_en_private.Base.Int.{ℤ, pos, negsuc}
use wp_panel_en_private.Cron.{
  Job, has_line_break, valid_cron_expression, validate_type, validate_user, validate_cron_input,
  is_user_code, matches_user_rest,
}
use wp_panel_en_private.Cron.Render.{
  replace_all, sanitize_cron_arg, quote_command, digits_of, print_int, line_head, line_command,
  backup_command, wp_cron_command, shell_command, user_command, render_line, quote, backslash,
}

abbrev pub no_break : ℕ → Bool
no_break c = not (c == 10 || c == 13)

abbrev one_line : Text → Bool
one_line s = all no_break s

one_line-has : (s : Text) → has_line_break s ≡ false → one_line s ≡ true
unfolding has_line_break
one_line-has [] h = refl
one_line-has (c ∷ s) h = ground (arith, one_line-has s)

one_line-replace :
    (old : ℕ) (new s : Text)
    → one_line new ≡ true
    → one_line s ≡ true
    → one_line (replace_all old new s) ≡ true
unfolding replace_all
one_line-replace old new [] n h = refl
one_line-replace old new (c ∷ s) n h = ground (
  arith,
  all-append no_break (if c == old then new else c ∷ []) (replace_all old new s),
  one_line-replace old new s n,
)

one_line-sanitize : (s : Text) → one_line s ≡ true → one_line (sanitize_cron_arg s) ≡ true
unfolding sanitize_cron_arg
one_line-sanitize s h =
    one_line-replace _ _ _ refl
      (one_line-replace _ _ _ refl (one_line-replace _ _ _ refl (one_line-replace _ _ _ refl h)))

digit_no_break : (n : ℕ) → no_break (b'0' + n % 10) ≡ true
digit_no_break n = ground arith

one_line-digits : (fuel n : ℕ) → one_line (digits_of fuel n) ≡ true
unfolding digits_of
one_line-digits zero n = refl
one_line-digits (suc fuel) n = ground (
  arith,
  all-append no_break (if ltb n 10 then [] else digits_of fuel (n / 10)) ((b'0' + n % 10) ∷ []),
  one_line-digits fuel (n / 10),
  digit_no_break n,
)

one_line-print : (z : ℤ) → one_line (print_int z) ≡ true
unfolding print_int
one_line-print (pos n) = one_line-digits (suc n) n
one_line-print (negsuc n) = one_line-digits (suc (suc n)) (suc n)

user_code_no_break : (c : ℕ) → is_user_code c ≡ true → no_break c ≡ true
user_code_no_break c h = ground arith

-- The message is empty only if each test passed.
record Checked (site_users : Text → ℕ) (j : Job) : Type 0 where
  name : has_line_break j.name ≡ false
  expr : valid_cron_expression j.expr ≡ true
  type : validate_type j ≡ none
  user : validate_user site_users j.run_as_user ≡ none

checked :
    (site_users : Text → ℕ) (j : Job)
    → validate_cron_input site_users j ≡ none
    → Checked site_users j
unfolding validate_cron_input
checked site_users j h = ground arith

expr_one_line : (expr : Text) → valid_cron_expression expr ≡ true → one_line expr ≡ true
unfolding valid_cron_expression
expr_one_line expr h = one_line-has expr (ground arith)

one_line-prefix :
    (p s : Text)
    → has_prefix s p ≡ true
    → one_line p ≡ true
    → one_line (drop (length p) s) ≡ true
    → one_line s ≡ true
one_line-prefix [] s h k l = l
one_line-prefix (d ∷ p) [] h k l = refl
one_line-prefix (d ∷ p) (c ∷ s) h k l = ground (arith, one_line-prefix p s)

user_one_line :
    (site_users : Text → ℕ) (user : Text)
    → validate_user site_users user ≡ none
    → one_line user ≡ true
unfolding validate_user
user_one_line site_users user h = elim (Bool-cases (text_eq user [])) [
  | inl e ↦ rw (eq-text_eq user [] e) refl
  | inr named ↦
      elim (Bool-cases (has_prefix user (codes "wp_") && matches_user_rest (drop 3 user))) [
        | inl wp ↦
            one_line-prefix (codes "wp_") user (ground arith) refl
              (all-imp is_user_code no_break user_code_no_break (drop 3 user) (ground arith))
        | inr php ↦
            one_line-prefix (codes "php_") user (ground arith) refl
              (all-imp is_user_code no_break user_code_no_break (drop 4 user) (ground arith))
      ]
]

one_line-append : (s t : Text) → one_line s ≡ true → one_line t ≡ true → one_line (s ++ t) ≡ true
one_line-append s t h k = all-append no_break s t ∙ ground arith

head_one_line :
    (j : Job) (safe_name : Text)
    → one_line j.expr ≡ true
    → one_line safe_name ≡ true
    → one_line (line_head j safe_name) ≡ true
unfolding line_head
head_one_line j safe_name h k = simp (all-append, h, k)

abbrev IsLine : Option Text → Type 0
IsLine o = (line : Text) × (o ≡ some line) × (one_line line ≡ true)

backup_one_line : (j : Job) → one_line j.backup_mode ≡ true → one_line (backup_command j) ≡ true
backup_one_line j h = simp (all-append, one_line-print, h)

wp_cron_one_line : (j : Job) → one_line j.command ≡ true → one_line (wp_cron_command j) ≡ true
wp_cron_one_line j h = simp (all-append, h)

shell_one_line : (j : Job) → one_line j.command ≡ true → one_line (shell_command j) ≡ true
unfolding quote_command
shell_one_line j h =
    simp
      (all-append, one_line-replace quote (quote ∷ backslash ∷ quote ∷ quote ∷ []) j.command refl h)

user_one_line_command :
    (j : Job)
    → one_line j.run_as_user ≡ true
    → one_line j.command ≡ true
    → one_line (user_command j) ≡ true
user_one_line_command j u h =
    one_line-append (codes "runuser -u " ++ j.run_as_user ++ codes " -- ") (shell_command j)
      (one_line-append (codes "runuser -u " ++ j.run_as_user) (codes " -- ")
        (one_line-append (codes "runuser -u ") j.run_as_user refl u) refl)
      (shell_one_line j h)

mode_one_line :
    (mode : Text)
    → (not (text_eq mode [])
        && not (text_eq mode (codes "full"))
        && not (text_eq mode (codes "incremental")))
      ≡ false
    → one_line mode ≡ true
mode_one_line mode h = elim (Bool-cases (text_eq mode [])) [
  | inl e ↦ rw (eq-text_eq mode [] e) refl
  | inr n ↦ elim (Bool-cases (text_eq mode (codes "full"))) [
    | inl e ↦ rw (eq-text_eq mode (codes "full") e) refl
    | inr m ↦ rw (eq-text_eq mode (codes "incremental") (ground arith)) refl
  ]
]

a_command :
    (t : Text)
    → text_eq t (codes "command") ≡ true
    → (text_eq t (codes "file_backup") ≡ false) × (text_eq t (codes "wp_cron") ≡ false)
a_command t h = rw (eq-text_eq t (codes "command") h) (refl, refl)

line_command-IsLine :
    (site_users : Text → ℕ) (j : Job) → Checked site_users j → IsLine (line_command j)
unfolding line_command validate_type
line_command-IsLine site_users j c = elim (Bool-cases (text_eq j.task_type (codes "file_backup"))) [
  | inl backup ↦ (
    backup_command j,
    ground arith,
    backup_one_line j (mode_one_line j.backup_mode (ground (arith, a_command j.task_type))),
  )
  | inr other ↦ elim (Bool-cases (text_eq j.task_type (codes "wp_cron"))) [
    | inl wp ↦ (
      wp_cron_command j,
      ground (arith, a_command j.task_type),
      wp_cron_one_line j (one_line-has j.command (ground (arith, a_command j.task_type))),
    )
    | inr shell ↦ elim (Bool-cases (text_eq j.run_as_user [])) [
      | inl root ↦
          (shell_command j, ground arith, shell_one_line j (one_line-has j.command (ground arith)))
      | inr user ↦ (
        user_command j,
        ground arith,
        user_one_line_command j (user_one_line site_users j.run_as_user c.user)
            (one_line-has j.command (ground arith)),
      )
    ]
  ]
]

-- A task that passed the check is rendered, and its line holds no line break: whatever its name,
-- expression, command and user, the cron file gets one entry for it.
pub render_line-one_line :
    (site_users : Text → ℕ) (j : Job)
    → validate_cron_input site_users j ≡ none
    → (line : Text) × (render_line j ≡ some line) × (all no_break line ≡ true)
unfolding render_line
render_line-one_line site_users j h =
    let c : Checked site_users j = checked site_users j h in
    let (command, e, k) = line_command-IsLine site_users j c in
    let name : Text = sanitize_cron_arg j.name in
    let safe : one_line (sanitize_cron_arg j.name) ≡ true =
      one_line-sanitize j.name (one_line-has j.name c.name) in
    (
      line_head j name ++ command ++ codes " # " ++ name,
      ground arith,
      one_line-append (line_head j name ++ command ++ codes " # ") name
          (one_line-append (line_head j name ++ command) (codes " # ")
            (one_line-append (line_head j name) command
              (head_one_line j name (expr_one_line j.expr c.expr) safe) k)
            refl)
          safe,
    )
