-- ===== src/Alert/Texts.antt =====
-- The texts of executor/alert_monitor.go: the label of an alert, the tip of a mail, and what a recovery
-- says.
use wp_panel_en_private.Base.{
  ℕ, Bool, not, ◌&&◌, Option, none, some, List, [], ◌∷◌, ◌++◌, ◌==◌, if◌then◌else◌,
}
use wp_panel_en_private.Base.Text.{Text, codes, text_eq, trim_space, split}

unfoldable pub alert_label : Text → Text
alert_label key =
    if text_eq key (codes "alert_cpu")
    then codes "CPU high load"
    else if text_eq key (codes "alert_memory")
    then codes "Available memory low"
    else if text_eq key (codes "alert_disk")
    then codes "Disk space low"
    else if text_eq key (codes "alert_service")
    then codes "Service process abnormal"
    else if text_eq key (codes "alert_ssl")
    then codes "SSL certificate expiring soon"
    else if text_eq key (codes "alert_backup")
    then codes "Database backup failed"
    else if text_eq key (codes "alert_website_expiry")
    then codes "Website expiring soon"
    else if text_eq key (codes "alert_remote_backup")
    then codes "Remote backup failed"
    else if text_eq key (codes "alert_cron_fail")
    then codes "Scheduled task execution failed"
    else if text_eq key (codes "alert_site")
    then codes "Website unavailable"
    else if text_eq key (codes "alert_system_update")
    then codes "System updates available"
    else if text_eq key (codes "alert_panel_update")
    then codes "Panel new version available"
    else key

unfoldable pub get_email_tip : Text → Bool → Text
get_email_tip key is_recovery =
    if text_eq key (codes "alert_cpu")
    then codes
        "Tip: Sustained high CPU may be a sign of traffic growth or attack. Consider logging into the panel to view real-time trend charts."
    else if text_eq key (codes "alert_memory")
    then codes
        "Tip: Low memory may be caused by high PHP process or Redis usage, or heavy malicious crawler requests. Consider checking access logs in the panel to investigate abnormal traffic."
    else if text_eq key (codes "alert_disk")
    then codes
        "Tip: Cleaning old backup files and logs usually frees up significant space quickly and is more practical than upgrading storage."
    else if text_eq key (codes "alert_service")
    then (if is_recovery
        then codes
            "Tip: After resolution, reviewing logs to understand the root cause helps prevent recurrence."
        else codes
            "Tip: Services will auto-restart. If alerts recur, log into the panel and check the corresponding logs to investigate the root cause.")
    else if text_eq key (codes "alert_ssl")
    then (if is_recovery
        then codes
            "Tip: Consider marking the next expiry date on your calendar. Renewing 30 days in advance gives you more peace of mind."
        else codes
            "Tip: An expired certificate causes browser \"Not Secure\" warnings, affecting visitor trust and SEO. Renew as soon as possible.")
    else if text_eq key (codes "alert_backup")
    then codes "Tip: Regular website backups are a good habit — data security through preparedness."
    else if text_eq key (codes "alert_website_expiry")
    then (if is_recovery
        then codes
            "Tip: Regular website backups are a good habit — data security through preparedness."
        else codes
            "Tip: Please remind website users to renew or back up data promptly. The website will become inaccessible after expiry.")
    else if text_eq key (codes "alert_remote_backup")
    then codes "Tip: Regular website backups are a good habit — data security through preparedness."
    else if text_eq key (codes "alert_cron_fail")
    then (if is_recovery
        then codes
            "Tip: After resolution, reviewing logs to understand the root cause helps prevent recurrence."
        else codes
            "Tip: Scheduled task failures may be due to script errors or insufficient resources. Check execution logs to identify the cause.")
    else if text_eq key (codes "alert_site")
    then (if is_recovery
        then codes
            "Tip: Confirm the website is accessible, and communicate the outage status to website users."
        else codes
            "Tip: Check server status, DNS resolution, and website application health as soon as possible to avoid prolonged downtime affecting user business.")
    else if text_eq key (codes "alert_system_update")
    then (if is_recovery
        then codes
            "Tip: Keeping the system updated regularly is the simplest and most effective way to maintain server security."
        else codes
            "Tip: Log into the panel settings page to perform system updates as soon as possible. Security updates usually fix known vulnerabilities; delaying updates increases attack risk.")
    else if text_eq key (codes "alert_panel_update")
    then (if is_recovery
        then codes
            "Tip: After updating the panel, briefly check key pages such as website list, backups, and scheduled tasks to ensure everything is working normally."
        else codes
            "Tip: Update the panel promptly to avoid accumulating too many changes across multiple version upgrades, which increases upgrade risk.")
    else []

-- What stands before the first space; none where there is no space.
abbrev pub before_space : Text → Option Text
before_space [] = none
before_space (c ∷ s) =
    let rest = before_space s in
    if c == b' ' then some [] else (elim rest [ none ↦ none | some before ↦ some (c ∷ before) ])

-- The parts of a message are joined by a full-width semicolon, U+FF1B.
abbrev pub separator : ℕ
separator = 65307

abbrev pub part_domains : Text → List Text
part_domains part = elim (before_space (trim_space part)) [
  | none ↦ []
  | some [] ↦ []
  | some (c ∷ s) ↦ (c ∷ s) ∷ []
]

abbrev pub all_domains : List Text → List Text
all_domains [] = []
all_domains (part ∷ parts) = part_domains part ++ all_domains parts

abbrev pub join_with : Text → List Text → Text
join_with mark [] = []
join_with mark (s ∷ []) = s
join_with mark (s ∷ t ∷ ss) = s ++ (mark ++ join_with mark (t ∷ ss))

unfoldable pub extract_domains : Text → Text
extract_domains message = join_with (codes ", ") (all_domains (split separator message))

unfoldable pub build_recovery_detail : Text → Text → Text
unfolding alert_label extract_domains
build_recovery_detail key last_alert_msg =
    let domains = extract_domains last_alert_msg in
    if text_eq key (codes "alert_site")
      && not (text_eq last_alert_msg [])
      && not (text_eq domains [])
    then domains ++ codes " has returned to normal"
    else if text_eq key (codes "alert_system_update")
    then codes "All system packages are up to date, currently at the latest version"
    else if text_eq key (codes "alert_panel_update")
    then codes "Panel has been updated to the latest version"
    else alert_label key ++ codes " has returned to normal"
