-- ===== src/Queue/OperationLog.antt =====
-- executor/operation_log.go, and `logOp` of executor/queue.go that writes to it. The table is the
-- list of its rows, the newest first.
use wp_panel_en_private.Base.{ℕ, String, Option, none, some, List, ◌∷◌, take, if◌then◌else◌}
use wp_panel_en_private.Queue.Types.{
  TaskType, create_site, delete_site, pause_site, enable_site, enable_ssl, remove_ssl,
  change_db_password, update_domains, save_nginx_custom, set_access_log_mode, set_cdn_realip,
  set_document_root, renew_ssl, render_cron, run_cron, manual_ban, create_backup, restore_backup,
  type_name, Payload, create_site_payload, delete_site_payload, pause_site_payload,
  enable_site_payload, enable_ssl_payload, remove_ssl_payload, change_db_password_payload,
  update_domains_payload, save_nginx_custom_payload, set_access_log_mode_payload,
  set_cdn_realip_payload, set_document_root_payload, run_cron_payload, manual_ban_payload,
  create_backup_payload, restore_backup_payload, Task, TaskResult,
}

pub record LogRow : Type 0 where
  pub operation : String
  pub target : String
  pub status : String
  pub message : String

-- How the database answers a call of `recordOperationLog`.
pub data LogReply : Type 0 where
  no_database insert_fails prune_fails stores : LogReply

abbrev pub operation_log_keep_rows : ℕ
operation_log_keep_rows = 300

-- DELETE of the rows that are not among the newest `operationLogKeepRows`.
unfoldable pub prune_operation_logs : List LogRow → List LogRow
prune_operation_logs rows = take operation_log_keep_rows rows

unfoldable pub record_operation_log : LogReply → LogRow → List LogRow → List LogRow
unfolding prune_operation_logs
record_operation_log LogReply.no_database row rows = rows
record_operation_log LogReply.insert_fails row rows = rows
record_operation_log LogReply.prune_fails row rows = row ∷ rows
record_operation_log LogReply.stores row rows = prune_operation_logs (row ∷ rows)

-- The target of a row: what the type switch of `logOp` reads from the payload.
unfoldable pub log_target : TaskType → Payload → String
log_target create_site (create_site_payload domain) = domain
log_target delete_site (delete_site_payload (some domain)) = domain
log_target pause_site (pause_site_payload (some domain)) = domain
log_target enable_site (enable_site_payload (some domain)) = domain
log_target enable_ssl (enable_ssl_payload (some domain)) = domain
log_target remove_ssl (remove_ssl_payload (some domain)) = domain
log_target change_db_password (change_db_password_payload (some domain)) = domain
log_target update_domains (update_domains_payload (some domain)) = domain
log_target save_nginx_custom (save_nginx_custom_payload (some domain)) = domain
log_target set_access_log_mode (set_access_log_mode_payload (some domain)) = domain
log_target set_cdn_realip (set_cdn_realip_payload (some domain)) = domain
log_target set_document_root (set_document_root_payload (some domain)) = domain
log_target renew_ssl _ = "ssl_renewal"
log_target manual_ban (manual_ban_payload ip duration) = ip
log_target render_cron _ = "cron_config"
log_target run_cron (run_cron_payload job_id name) = name
log_target create_backup (create_backup_payload (some domain)) = domain
log_target restore_backup (restore_backup_payload (some domain)) = domain
log_target _ _ = ""

unfoldable pub log_op : LogReply → Task → TaskResult → List LogRow → List LogRow
log_op reply task result rows =
    record_operation_log reply
      (record {
        operation = type_name task.type;
        target = log_target task.type task.payload;
        status = if result.ok then "success" else "failed";
        message = result.message;
      })
      rows

-- `logOp` under its `recover`: it runs, or it panics before it has written and the panic is dropped.
unfoldable pub safe_log_op : Option LogReply → Task → TaskResult → List LogRow → List LogRow
unfolding log_op
safe_log_op none task result rows = rows
safe_log_op (some reply) task result rows = log_op reply task result rows
