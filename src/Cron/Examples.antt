-- ===== src/Cron/Examples.antt =====
-- The theorems about scheduled tasks at concrete tasks.
use wp_panel_en_private.Base.{ℕ, ◌≡◌, refl, true, false, none, some, [], All, all}
use wp_panel_en_private.Base.Text.{Text, codes, split, fields, trim_space}
use wp_panel_en_private.Base.Int.{pos, atoi}
use wp_panel_en_private.Cron.{
  Job, valid_cron_field, valid_cron_expression, validate_cron_input, validate_type, validate_user,
}
use wp_panel_en_private.Cron.Fields.{IsGoodPart, valid_cron_field_sound}
use wp_panel_en_private.Cron.Render.{render_line}
use wp_panel_en_private.Cron.Render.OneLine.{no_break, render_line-one_line}

field_valid : valid_cron_field (codes "1-5,*/15,40") 0 59 ≡ true
unfolding valid_cron_field split atoi
field_valid = refl

too_large : valid_cron_field (codes "1-60") 0 59 ≡ false
unfolding valid_cron_field split atoi
too_large = refl

valid_cron_field_sound_example : All (IsGoodPart 0 59) (split b',' (codes "1-5,*/15,40"))
valid_cron_field_sound_example = valid_cron_field_sound (codes "1-5,*/15,40") 0 59 field_valid

abbrev job : Job
job = record {
  name = codes "nightly";
  expr = codes "30 2 * * 0";
  command = codes "echo 'hi' | tee /tmp/x";
  task_type = codes "command";
  backup_mode = [];
  keep_count = pos 3;
  site_id = none;
  run_as_user = codes "wp_shop";
}

abbrev one_site : Text → ℕ
one_site user = 1

job_valid : validate_cron_input one_site job ≡ none
unfolding validate_cron_input valid_cron_expression valid_cron_field validate_type validate_user
    split atoi fields trim_space
job_valid = refl

render_line-one_line_example :
    (line : Text) × (render_line job ≡ some line) × (all no_break line ≡ true)
render_line-one_line_example = render_line-one_line one_site job job_valid
