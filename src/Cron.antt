-- ===== src/Cron.antt =====
-- The checks on a scheduled task before it is stored: handlers/cron.go, and `IsValidDomain` of
-- executor/utils.go. A regular expression stands as the function that decides it.
pub mod Fields
pub mod Render
mod Examples
use wp_panel_en_private.Base.{
  ℕ, ◌+◌, ◌≡◌, refl, Bool, true, false, ◌&&◌, ◌||◌, not, Option, none, some, List, [], ◌∷◌, ◌++◌,
  if◌then◌else◌, all, any, length, ltb, leb, ◌==◌, String, drop, reverse, str_eq,
}
use wp_panel_en_private.Base.Text.{
  Text, codes, text_eq, has_prefix, contains, contains_any, mem_code, split, fields, trim_space,
  is_digit,
}
use wp_panel_en_private.Base.Int.{ℤ, pos, zleb, atoi}

-- strings.ContainsAny(s, "\r\n")
unfoldable pub has_line_break : Text → Bool
has_line_break s = contains_any s (13 ∷ 10 ∷ [])

-- ^[0-9*/,\-]+$
abbrev pub is_cron_code : ℕ → Bool
is_cron_code c = is_digit c || c == b'*' || c == b'/' || c == b',' || c == b'-'

abbrev pub matches_cron_field : Text → Bool
matches_cron_field s = not (text_eq s []) && all is_cron_code s

-- What follows the slash: exactly one part, a number from 1 to `max`. The result is `base`.
abbrev pub step_base : ℕ → List Text → Option Text
step_base max (base ∷ step ∷ []) = if text_eq step [] then none else (elim (atoi step) [
  | none ↦ none
  | some k ↦ if not (zleb (pos 1) k) || not (zleb k (pos max)) then none else some base
])
step_base max _ = none

unfoldable pub part_base : ℕ → Text → Option Text
part_base max part =
    if contains part (codes "/") then step_base max (split b'/' part) else some part

abbrev in_order : ℕ → ℕ → Option ℤ → Option ℤ → Bool
in_order min max (some start) (some end) =
    zleb (pos min) start && zleb end (pos max) && zleb start end
in_order min max _ _ = false

abbrev pub valid_range : ℕ → ℕ → List Text → Bool
valid_range min max (start ∷ end ∷ []) = in_order min max (atoi start) (atoi end)
valid_range min max _ = false

abbrev pub valid_value : ℕ → ℕ → Option ℤ → Bool
valid_value min max none = false
valid_value min max (some value) = zleb (pos min) value && zleb value (pos max)

unfoldable pub valid_base : ℕ → ℕ → Text → Bool
valid_base min max base =
    if text_eq base (codes "*")
    then true
    else if contains base (codes "-")
    then valid_range min max (split b'-' base)
    else valid_value min max (atoi base)

-- One round of the loop over the parts between commas.
unfoldable pub valid_part : ℕ → ℕ → Text → Bool
unfolding part_base valid_base
valid_part min max part =
    if text_eq part []
    then false
    else (elim (part_base max part) [ none ↦ false | some base ↦ valid_base min max base ])

unfoldable pub valid_cron_field : Text → ℕ → ℕ → Bool
unfolding valid_part
valid_cron_field field min max =
    if text_eq field [] || not (matches_cron_field field) || contains field (codes "//")
    then false
    else all (valid_part min max) (split b',' field)

-- The five fields with their ranges; any other number of fields is refused.
abbrev pub valid_cron_fields : List Text → Bool
valid_cron_fields (minute ∷ hour ∷ day ∷ month ∷ weekday ∷ []) =
    valid_cron_field minute 0 59
    && valid_cron_field hour 0 23
    && valid_cron_field day 1 31
    && valid_cron_field month 1 12
    && valid_cron_field weekday 0 7
valid_cron_fields _ = false

unfoldable pub valid_cron_expression : Text → Bool
unfolding has_line_break
valid_cron_expression expr = if has_line_break expr then false else valid_cron_fields (fields expr)

abbrev pub is_letter : ℕ → Bool
is_letter c = (leb b'a' c && leb c b'z') || (leb b'A' c && leb c b'Z')

abbrev pub is_label_end : ℕ → Bool
is_label_end c = is_letter c || is_digit c

abbrev pub is_label_code : ℕ → Bool
is_label_code c = is_label_end c || c == b'-'

abbrev pub starts_in : (ℕ → Bool) → Text → Bool
starts_in p [] = false
starts_in p (c ∷ s) = p c

-- [a-zA-Z0-9]([a-zA-Z0-9\-]*[a-zA-Z0-9])?
abbrev pub matches_label : Text → Bool
matches_label s =
    starts_in is_label_end s && starts_in is_label_end (reverse s) && all is_label_code s

-- ^([a-zA-Z0-9]([a-zA-Z0-9\-]*[a-zA-Z0-9])?\.)+[a-zA-Z]{2,}$, by the parts between the dots.
abbrev pub matches_domain : List Text → Bool
matches_domain [] = false
matches_domain (label ∷ []) = false
matches_domain (label ∷ top ∷ []) = matches_label label && leb 2 (length top) && all is_letter top
matches_domain (label ∷ next ∷ more ∷ rest) =
    matches_label label && matches_domain (next ∷ more ∷ rest)

-- The lengths are those of the bytes; a name with other than ASCII fails by its last test.
unfoldable pub is_valid_domain : Text → Bool
is_valid_domain domain =
    not (ltb (length domain) 3 || ltb 253 (length domain))
    && all (λ label. not (length label == 0 || ltb 63 (length label))) (split b'.' domain)
    && matches_domain (split b'.' domain)

-- ^(wp|php)_[a-z0-9_]+$
abbrev pub is_user_code : ℕ → Bool
is_user_code c = (leb b'a' c && leb c b'z') || is_digit c || c == b'_'

abbrev pub matches_user_rest : Text → Bool
matches_user_rest s = not (text_eq s []) && all is_user_code s

unfoldable pub matches_cron_user : Text → Bool
matches_cron_user s =
    (has_prefix s (codes "wp_") && matches_user_rest (drop 3 s))
    || (has_prefix s (codes "php_") && matches_user_rest (drop 4 s))

-- The columns of a task that the check reads and the rendering uses.
pub record Job : Type 0 where
  pub name : Text
  pub expr : Text
  pub command : Text
  pub task_type : Text
  pub backup_mode : Text
  pub keep_count : ℤ
  pub site_id : Option ℤ
  pub run_as_user : Text

-- siteID == nil || *siteID <= 0
abbrev pub no_site : Option ℤ → Bool
no_site none = true
no_site (some id) = zleb id (pos 0)

-- "\"`$\\"
abbrev pub name_codes : Text
name_codes = 34 ∷ 96 ∷ 36 ∷ 92 ∷ []

-- The switch on the task type. `none` is the empty message, success.
unfoldable pub validate_type : Job → Option String
unfolding has_line_break
validate_type j =
    if text_eq j.task_type (codes "command")
    then (if text_eq (trim_space j.command) []
        then some "Please enter the command to execute"
        else if has_line_break j.command
        then some "Command cannot contain line breaks"
        else none)
    else if text_eq j.task_type (codes "file_backup")
    then (if no_site j.site_id
        then some "Please select a site to back up"
        else if not (text_eq j.backup_mode [])
            && not (text_eq j.backup_mode (codes "full"))
            && not (text_eq j.backup_mode (codes "incremental"))
        then some "Invalid backup mode"
        else none)
    else if text_eq j.task_type (codes "wp_cron")
    then (if no_site j.site_id
        then some "Please select a site for WP Cron"
        else if has_line_break j.command
        then some "WP Cron target cannot contain line breaks"
        else if not (is_valid_domain j.command)
        then some "WP Cron target must be a valid domain"
        else none)
    else some "Invalid task type"

-- `site_users` is the number of websites with a system user of that name.
unfoldable pub validate_user : (Text → ℕ) → Text → Option String
unfolding matches_cron_user
validate_user site_users user =
    if text_eq user []
    then none
    else if not (matches_cron_user user)
    then some "Invalid run-as user"
    else if site_users user == 0
    then some "Run-as user does not belong to any site"
    else none

unfoldable pub validate_cron_input : (Text → ℕ) → Job → Option String
validate_cron_input site_users j =
    if has_line_break j.name || contains_any j.name name_codes
    then some "Task name cannot contain line breaks or special characters"
    else if not (valid_cron_expression j.expr)
    then some "Invalid cron expression format"
    else (elim (validate_type j) [
      | none ↦ validate_user site_users j.run_as_user
      | some message ↦ some message
    ])
