-- ===== src/Lib.antt =====
-- The verification library of WP Panel: models of the panel's Go code, and theorems about them.
--
-- The panel is one process. Its HTTP handlers check a request (middleware/, handlers/) and hand
-- slow work to one queue with a single worker (executor/queue.go), whose tasks run programs of the
-- system through an allow list (executor/commander.go) and write its configuration.
--
-- Which file models which part:
-- - Queue: executor/queue.go with the types of executor/types.go and the log of
--   executor/operation_log.go. Queue.Types has the data, Queue.OperationLog the log, Queue.Worker
--   one function for each atomic step of Enqueue, GetTask, QueueLength, IsRunning, worker and the
--   handlers' receive of a result;
--   Queue.Consistent states the invariant; Queue.Invariant, Queue.Order and Queue.Progress prove.
-- - SiteName: buildSiteName of executor/queue.go.
-- - Session: SessionStore and SessionRequired of middleware/session.go; Session.Renewal,
--   Session.Cleaning and Session.Request prove.
-- - Command: IsCommandAllowed of executor/commander.go; Command.Safety proves.
-- - Cron: validateCronInput of handlers/cron.go with IsValidDomain of executor/utils.go, and in
--   Cron.Render the cron file of executor/cron_tasks.go; Cron.Fields and Cron.Render.OneLine prove.
-- - Access: who may talk to the panel. Access.Bans has the tables firewall_bans and login_attempts
--   of database/migrations.go with AddPersistBan of executor/fail2ban.go; Access.Login has
--   middleware/login_attempt.go and middleware/basic_auth.go; Access.Scan has
--   middleware/scan_defense.go; Access.Csrf has middleware/csrf.go and middleware/random_path.go;
--   Access.Ladder has RecordFail2banBan and Access.Manual executeManualBan of executor/fail2ban.go;
--   Access.Visits has Login of handlers/auth.go behind BasicAuth;
--   Access.Lockout, Access.Spared, Access.Escalation and Access.Verdict prove. The guards share the
--   table of bans, and the manual ban changes the file of Nginx.
-- - Guard: executor/process_guard.go. Guard.Service has the services and the operations on them,
--   each part under the mutex a function, and Guard.Steps the runs, in which the loop's checks and
--   the panel's buttons mix; Guard.Outages proves.
-- - Version: CompareVersions of executor/panel_update.go; Version.Lawful has the laws of an order,
--   Version.Parts and Version.Order prove.
-- - Update: executor/panel_update_runner.go. Update.Status has the status that the page polls,
--   Update.Policy the tests on versions and times, Update.Machine the files and the answers of the
--   system, Update.Checks the checks of a download, Update.Install ExecutePanelUpdate with a
--   function for each of its stages, Update.Watchdog RunUpdateWatchdog and
--   FinalizePendingPanelUpdate, Update.Auto the scheduler's check with its settings;
--   Update.Verified, Update.Recovery, Update.Silence, Update.Due and, with Update.Waiting,
--   Update.Stall prove. The update uses CompareVersions; the scheduler runs the update, and the
--   update starts the watchdog, which is a process of its own: it reads the plan that the update
--   wrote.
-- - Nginx: executor/nginx_ban.go, the file of the addresses that nginx bans; Nginx.Lock has its
--   lock, Nginx.Lines lemmas on lines; Nginx.RoundTrip, Nginx.Refines and Nginx.Lock prove.
-- - Restore: the import of a database backup, executor/backup.go. Restore has what a statement is
--   by its first bytes (restoreStatementDecision, normalizeSQLPrefix), Restore.Sanitize
--   writeSanitizedRestoreSQL, Restore.Validate validateRestoreBackupFile with validateRestoreSQL;
--   Restore.Clearing ClearDatabaseTables and Restore.Import the task executeRestoreBackup, which
--   uses them; Restore.Pieces tells the text of a statement apart by its quotes; Restore.Run,
--   Restore.Chunks, Restore.Dropped, Restore.Kept, Restore.Stripped,
--   Restore.Sent, Restore.Fills and Restore.Imported prove.
-- - Alert: executor/alert_monitor.go. Alert.Texts has what the notices say, Alert.Rules the rules
--   with runChecks, Alert.Expiry checkWebsiteExpiry and Alert.Sites checkSites, whose findings are
--   a rule's; Alert.Sustained, Alert.Log, Alert.Recovery, Alert.Streak and Alert.Calls prove.
--
-- How the code is read. Strings that the code walks are lists of code points (Base.Text), files
-- lists of bytes, strings that it only compares are texts. Maps are functions from keys; pointers
-- shared by a map and a channel are keys of the map. Times are numbers and come as arguments, as do
-- fresh identifiers. An `int` is a number where it cannot be negative, and an integer (Base.Int)
-- where the code reads one from text. Functions of packages that no file of the repository
-- implements are parameters: url.Parse, the functions of filepath, SHA-1, net.ParseIP, bcrypt, the
-- LIKE of SQLite, SHA-256, Ed25519, the texts of times and durations, and lower and upper case
-- beyond ASCII. Messages are kept.
--
-- Bounds and fuel. The channel of the queue holds 100 tasks, as in the code. The worker's loop is
-- counted: Queue.Progress.work_left is the number of its steps until the channel is empty, and is
-- exact. A run of requests, bans or checks is a list. The wait for the lock of the ban file has the
-- fuel that it is given, and a theorem says how much is enough. The watchdog's wait has 31 rounds
-- of fuel: each takes three seconds or more, and it ends after 90. The removal of comments from a
-- prefix has one unit of fuel more than the prefix has code points, which is enough.
-- Decimal digits are printed with one unit of fuel more than the number, which is enough.
--
-- Not modelled: the code of the single task types but for the manual ban and the restore of a
-- database, all that only runs programs, reads or writes files and databases, the pages, and
-- wp-panel/, which repeats the repository's sources.
mod Base
pub mod Queue
pub mod SiteName
pub mod Session
pub mod Command
pub mod Cron
pub mod Access
pub mod Guard
pub mod Version
pub mod Update
pub mod Nginx
pub mod Restore
pub mod Alert
