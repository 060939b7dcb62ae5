-- ===== src/Queue/Types.antt =====
-- executor/types.go: task types, statuses, tasks, results and payloads. Of a payload the fields
-- stand here that the queue reads; a `Site` pointer that may be nil is an `Option` of its domain.
use wp_panel_en_private.Base.{ℕ, String, Bool, Option}

pub data TaskType : Type 0 where
  create_site delete_site pause_site enable_site upgrade_template : TaskType
  refresh_whitelist ban_ip unban_ip enable_ssl remove_ssl change_db_password : TaskType
  update_domains save_nginx_custom set_access_log_mode set_cdn_realip : TaskType
  set_document_root renew_ssl render_cron run_cron manual_ban : TaskType
  create_backup restore_backup : TaskType
  other : String → TaskType

-- string(task.Type)
pub type_name : TaskType → String
type_name create_site = "create_site"
type_name delete_site = "delete_site"
type_name pause_site = "pause_site"
type_name enable_site = "enable_site"
type_name upgrade_template = "upgrade_template"
type_name refresh_whitelist = "refresh_whitelist"
type_name ban_ip = "ban_ip"
type_name unban_ip = "unban_ip"
type_name enable_ssl = "enable_ssl"
type_name remove_ssl = "remove_ssl"
type_name change_db_password = "change_db_password"
type_name update_domains = "update_domains"
type_name save_nginx_custom = "save_nginx_custom"
type_name set_access_log_mode = "set_access_log_mode"
type_name set_cdn_realip = "set_cdn_realip"
type_name set_document_root = "set_document_root"
type_name renew_ssl = "renew_ssl"
type_name render_cron = "render_cron"
type_name run_cron = "run_cron"
type_name manual_ban = "manual_ban"
type_name create_backup = "create_backup"
type_name restore_backup = "restore_backup"
type_name (other name) = name

pub data TaskStatus : Type 0 where
  waiting running success failed : TaskStatus

pub record TaskResult : Type 0 where
  pub ok : Bool
  pub message : String

-- The pointer types that the queue asserts a payload to be, with the fields that it reads: a domain,
-- a site that may be nil, a job or an address.
pub data Payload : Type 0 where
  nothing : Payload
  create_site_payload : String → Payload
  delete_site_payload pause_site_payload enable_site_payload : Option String → Payload
  enable_ssl_payload remove_ssl_payload change_db_password_payload : Option String → Payload
  update_domains_payload save_nginx_custom_payload : Option String → Payload
  set_access_log_mode_payload set_cdn_realip_payload : Option String → Payload
  set_document_root_payload : Option String → Payload
  run_cron_payload : ℕ → String → Payload
  manual_ban_payload : String → ℕ → Payload
  create_backup_payload restore_backup_payload : Option String → Payload

-- `result_ch` is what the channel of one slot holds; `sent`, `received` and `closed` say what was done
-- with the channel: the result was sent into it, a handler took it out, and the worker closed it.
pub record Task : Type 0 where
  pub id : String
  pub type : TaskType
  pub payload : Payload
  pub status : TaskStatus
  pub created_at : ℕ
  pub updated_at : ℕ
  pub result : Option TaskResult
  pub result_ch : Option TaskResult
  pub sent : Bool
  pub received : Bool
  pub closed : Bool

-- What a task's own code does: it returns a result, or it panics.
pub data Outcome : Type 0 where
  returned : TaskResult → Outcome
  panicked : String → Outcome
