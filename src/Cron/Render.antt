-- ===== src/Cron/Render.antt =====
-- The line of the cron file for a task: `executeRenderCron` and `sanitizeCronArg` of
-- executor/cron_tasks.go. The file is written whole from the enabled tasks.
pub mod OneLine
use wp_panel_en_private.Base.{
  ℕ, zero, suc, ◌+◌, ◌-◌, ◌*◌, ◌/◌, ◌%◌, ◌≡◌, refl, Bool, true, false, ◌&&◌, ◌||◌, not, Option,
  none, some, List, [], ◌∷◌, ◌++◌, if◌then◌else◌, all, any, length, ltb, leb, ◌==◌,
}
use wp_panel_en_private.Base.Text.{Text, codes, text_eq, has_suffix, join}
use wp_panel_en_private.Base.Int.{ℤ, pos, negsuc}
use wp_panel_en_private.Cron.{Job, is_valid_domain}

-- strings.ReplaceAll(s, old, new) for an `old` of one code point.
unfoldable pub replace_all : ℕ → Text → Text → Text
replace_all old new [] = []
replace_all old new (c ∷ s) = (if c == old then new else c ∷ []) ++ replace_all old new s

abbrev pub backslash : ℕ
backslash = 92

abbrev pub quote : ℕ
quote = 39

abbrev pub double_quote : ℕ
double_quote = 34

unfoldable pub sanitize_cron_arg : Text → Text
sanitize_cron_arg s = replace_all double_quote (backslash ∷ double_quote ∷ []) (
    replace_all b'`' (backslash ∷ b'`' ∷ []) (
      replace_all b'$' (backslash ∷ b'$' ∷ [])
        (replace_all backslash (backslash ∷ backslash ∷ []) s)))

-- strings.ReplaceAll(command, "'", "'\\''")
unfoldable pub quote_command : Text → Text
quote_command s = replace_all quote (quote ∷ backslash ∷ quote ∷ quote ∷ []) s

-- fmt's %d
unfoldable pub digits_of : ℕ → ℕ → Text
digits_of zero n = []
digits_of (suc fuel) n =
    let front = digits_of fuel (n / 10) in (if ltb n 10 then [] else front) ++ (b'0' + n % 10) ∷ []

unfoldable pub print_int : ℤ → Text
unfolding digits_of
print_int (pos n) = digits_of (suc n) n
print_int (negsuc n) = b'-' ∷ digits_of (suc (suc n)) (suc n)

abbrev pub wrapper_script : Text
wrapper_script = codes "/www/server/panel/cron-wrapper.sh"

abbrev pub log_file : Text
log_file = codes "/www/server/panel/logs/cron.log"

abbrev pub header_lines : List Text
header_lines =
    codes "# WP Panel Cron Jobs — DO NOT EDIT MANUALLY"
    ∷ codes "SHELL=/bin/bash"
    ∷ codes "PATH=/usr/local/sbin:/usr/local/bin:/usr/sbin:/usr/bin:/sbin:/bin"
    ∷ []
    ∷ []

-- siteID.Int64, which is 0 where the column is null
abbrev pub int64 : Option ℤ → ℤ
int64 none = pos 0
int64 (some id) = id

abbrev pub quoted : Text → Text
quoted s = (double_quote ∷ []) ++ s ++ (double_quote ∷ [])

-- %s root %s "%s" "%s"
unfoldable pub line_head : Job → Text → Text
line_head j safe_name =
    j.expr
    ++ codes " root "
    ++ wrapper_script
    ++ codes " "
    ++ quoted safe_name
    ++ codes " "
    ++ quoted log_file
    ++ codes " "

-- What each kind of task runs.
abbrev pub backup_command : Job → Text
backup_command j =
    codes "/usr/local/bin/wp-panel --file-backup="
    ++ print_int (int64 j.site_id)
    ++ codes ":"
    ++ j.backup_mode
    ++ codes ":"
    ++ print_int j.keep_count
    ++ codes " --config=/www/server/panel/config.json"

abbrev pub wp_cron_command : Job → Text
wp_cron_command j =
    codes "curl -k -s -o /dev/null "
    ++ quoted (codes "https://" ++ j.command ++ codes "/wp-cron.php?doing_wp_cron")

abbrev pub shell_command : Job → Text
shell_command j = codes "bash -c " ++ (quote ∷ []) ++ quote_command j.command ++ (quote ∷ [])

abbrev pub user_command : Job → Text
user_command j = codes "runuser -u " ++ j.run_as_user ++ codes " -- " ++ shell_command j

-- The switch on the task type; `none` where the loop skips the task.
unfoldable pub line_command : Job → Option Text
line_command j =
    if text_eq j.task_type (codes "file_backup")
    then some (backup_command j)
    else if text_eq j.task_type (codes "wp_cron")
    then (if not (is_valid_domain j.command) then none else some (wp_cron_command j))
    else if not (text_eq j.run_as_user [])
    then some (user_command j)
    else some (shell_command j)

unfoldable pub render_line : Job → Option Text
unfolding line_head line_command sanitize_cron_arg
render_line j =
    let safe_name = sanitize_cron_arg j.name in
    elim (line_command j) [
      | none ↦ none
      | some command ↦ some (line_head j safe_name ++ command ++ codes " # " ++ safe_name)
    ]

-- if !strings.HasSuffix(line, "\n") { line += "\n" }
unfoldable pub end_line : Text → Text
end_line line = if has_suffix line (10 ∷ []) then line else line ++ 10 ∷ []

unfoldable pub render_jobs : List Job → List Text
unfolding render_line end_line
render_jobs [] = []
render_jobs (j ∷ jobs) = elim (render_line j) [
  | none ↦ render_jobs jobs
  | some line ↦ end_line line ∷ render_jobs jobs
]

-- The content of the cron file.
unfoldable pub cron_content : List Job → Text
unfolding render_jobs
cron_content jobs = join 10 (header_lines ++ render_jobs jobs) ++ 10 ∷ []
