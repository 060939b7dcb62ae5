-- ===== src/Queue/Worker.antt =====
-- executor/queue.go. `tasks` is the map of the tasks by their identifiers, and the channel holds
-- identifiers, since channel and map share pointers. Each function is one step that no other
-- goroutine can see the inside of: a section under the mutex, an atomic store, a channel operation.
-- `sending` lists the calls of `Enqueue` that have left the mutex and wait for room in the channel.
use Prim.Native.String.{◌++◌ as str_append}
use wp_panel_en_private.Base.{
  ℕ, ◌+◌, ◌-◌, String, Bool, true, false, Option, none, some, List, [], ◌∷◌, ◌++◌, if◌then◌else◌,
  length, ltb, str_eq,
}
use wp_panel_en_private.Queue.Types.{
  TaskType, Payload, Task, TaskResult, Outcome, waiting, running, success, failed, create_site,
  delete_site, pause_site, enable_site, refresh_whitelist, unban_ip, enable_ssl, remove_ssl,
  change_db_password, update_domains, save_nginx_custom, set_access_log_mode, set_cdn_realip,
  set_document_root, renew_ssl, render_cron, run_cron, manual_ban, create_backup, restore_backup,
  type_name, returned, panicked,
}
use wp_panel_en_private.Queue.OperationLog.{LogRow, LogReply, safe_log_op}

-- Where the worker stands in the body of its loop. The steps after a panic come in another order:
-- the result is sent before the operation is logged.
pub data Stage : Type 0 where
  idle : Stage
  received : String → Stage
  picked : String → Stage
  executing : String → Stage
  settled : String → TaskResult → Stage
  logged : String → TaskResult → Stage
  result_sent : String → Stage
  recovered : String → TaskResult → Stage
  panic_sent : String → TaskResult → Stage
  answered : String → TaskResult → Stage
  delivered : String → Stage
  counted : Stage

pub record TaskQueue : Type 0 where
  pub queue : List String
  pub is_on : Bool
  pub task_count : ℕ
  pub tasks : String → Option Task
  pub sending : List String
  pub stage : Stage
  pub logs : List LogRow

abbrev pub queue_capacity : ℕ
queue_capacity = 100

unfoldable pub init_queue : TaskQueue
init_queue = record {
  queue = [];
  is_on = false;
  task_count = 0;
  tasks = λ id. none;
  sending = [];
  stage = idle;
  logs = [];
}

abbrev pub store : TaskQueue → String → Task → String → Option Task
store q id task j = if str_eq id j then some task else q.tasks j

-- `Enqueue` up to the end of its section under the mutex.
unfoldable pub enqueue : TaskQueue → String → TaskType → Payload → ℕ → TaskQueue
enqueue q id type payload now = record q {
  task_count = q.task_count + 1;
  tasks = store q id (record {
    id = id;
    type = type;
    payload = payload;
    status = waiting;
    created_at = now;
    updated_at = now;
    result = none;
    result_ch = none;
    sent = false;
    received = false;
    closed = false;
  });
  sending = q.sending ++ id ∷ [];
}

-- q.queue <- task, of the call whose task is `id`, the rest still waiting: the step is possible
-- only while the channel has room.
abbrev pub put : TaskQueue → List String → String → List String → TaskQueue
put q before id after = record q { queue = q.queue ++ id ∷ []; sending = before ++ after }

unfoldable pub send : TaskQueue → List String → String → List String → Option TaskQueue
send q before id after =
    if ltb (length q.queue) queue_capacity then some (put q before id after) else none

-- `GetTask`: a copy with no channel.
unfoldable pub get_task : TaskQueue → String → Option Task
get_task q id = elim (q.tasks id) [
  | none ↦ none
  | some task ↦
      some (record task { result_ch = none; sent = false; received = false; closed = false })
]

unfoldable pub queue_length : TaskQueue → ℕ
queue_length q = q.task_count

unfoldable pub is_running : TaskQueue → Bool
is_running q = q.is_on

-- A change of the task that `id` points to.
abbrev pub modify : TaskQueue → String → (Task → Task) → String → Option Task
modify q id change j =
    if str_eq id j
    then elim (q.tasks id) [ none ↦ none | some task ↦ some (change task) ]
    else q.tasks j

-- The types with a case in the switch of the worker.
pub handled : TaskType → Bool
handled create_site = true
handled delete_site = true
handled pause_site = true
handled enable_site = true
handled refresh_whitelist = true
handled unban_ip = true
handled enable_ssl = true
handled remove_ssl = true
handled change_db_password = true
handled update_domains = true
handled save_nginx_custom = true
handled set_access_log_mode = true
handled set_cdn_realip = true
handled set_document_root = true
handled renew_ssl = true
handled render_cron = true
handled run_cron = true
handled manual_ban = true
handled create_backup = true
handled restore_backup = true
handled _ = false

-- The switch: `own` is what the code of the task's type does.
unfoldable pub dispatch : TaskType → Outcome → Outcome
unfolding handled
dispatch type own =
    if handled type
    then own
    else returned
        (record { ok = false; message = str_append "unknown task type: " (type_name type) })

-- for task := range q.queue
unfoldable pub take_task : TaskQueue → List String → TaskQueue
take_task q [] = q
take_task q (id ∷ rest) = record q { queue = rest; stage = received id }

abbrev pub set_running : ℕ → Task → Task
set_running now task = record task { status = running; updated_at = now }

abbrev pub settle : ℕ → TaskResult → Task → Task
settle now result task = record task {
  status = if result.ok then success else failed;
  updated_at = now;
  result = some result;
}

-- task.ResultCh <- result
abbrev pub send_result : TaskResult → Task → Task
send_result result task = record task { result_ch = some result; sent = true }

-- close(task.ResultCh)
abbrev pub close_result : Task → Task
close_result task = record task { closed = true }

abbrev pub drop_result : Task → Task
drop_result task = record task { result_ch = none; received = true }

abbrev pub taken_from : TaskQueue → String → Option TaskResult → Option (TaskResult × TaskQueue)
taken_from q id none = none
taken_from q id (some result) = some (result, record q { tasks = modify q id drop_result })

abbrev pub received_from : TaskQueue → String → Option Task → Option (TaskResult × TaskQueue)
received_from q id none = none
received_from q id (some task) = taken_from q id task.result_ch

-- <-task.ResultCh of a handler: the result, where the channel holds it. A closed channel that is empty
-- gives no result and changes nothing; on an open one the handler waits.
unfoldable pub receive_result : TaskQueue → String → Option (TaskResult × TaskQueue)
receive_result q id = received_from q id (q.tasks id)

abbrev pub panic_result : String → TaskResult
panic_result r = record { ok = false; message = str_append "task execution panic: " r }

-- The end of the task's code: the status and the result are stored, on the way out of a panic too.
unfoldable pub finish : TaskQueue → ℕ → String → Outcome → TaskQueue
finish q now id (returned result) = record q {
  tasks = modify q id (settle now result);
  stage = settled id result;
}
finish q now id (panicked r) = record q {
  tasks = modify q id (settle now (panic_result r));
  stage = recovered id (panic_result r);
}

logs_after : TaskQueue → Option LogReply → String → TaskResult → List LogRow
logs_after q reply id result = elim (q.tasks id) [
  | none ↦ q.logs
  | some task ↦ safe_log_op reply task result q.logs
]

unfoldable pub run_type : TaskQueue → String → Outcome → Outcome
run_type q id own = elim (q.tasks id) [ none ↦ own | some task ↦ dispatch task.type own ]

-- What the worker meets during one step: the time, what the task's own code does, and how the
-- operation log answers (none: `logOp` panics).
pub record World : Type 0 where
  pub now : ℕ
  pub own : Outcome
  pub reply : Option LogReply

unfoldable pub work_from : Stage → TaskQueue → World → TaskQueue
unfolding take_task finish logs_after run_type
work_from idle q w = take_task q q.queue
work_from (received id) q w = record q { is_on = true; stage = picked id }
work_from (picked id) q w = record q {
  tasks = modify q id (set_running w.now);
  stage = executing id;
}
work_from (executing id) q w = finish q w.now id (run_type q id w.own)
work_from (settled id result) q w = record q {
  logs = logs_after q w.reply id result;
  stage = logged id result;
}
work_from (logged id result) q w = record q {
  tasks = modify q id (send_result result);
  stage = result_sent id;
}
work_from (result_sent id) q w = record q { tasks = modify q id close_result; stage = delivered id }
work_from (recovered id result) q w = record q {
  tasks = modify q id (send_result result);
  stage = panic_sent id result;
}
work_from (panic_sent id result) q w = record q {
  tasks = modify q id close_result;
  stage = answered id result;
}
work_from (answered id result) q w = record q {
  logs = logs_after q w.reply id result;
  stage = delivered id;
}
work_from (delivered id) q w = record q { task_count = q.task_count - 1; stage = counted }
work_from counted q w = record q { is_on = false; stage = idle }

-- One step of `worker`; with nothing in the channel an idle worker waits.
unfoldable pub work : TaskQueue → World → TaskQueue
unfolding work_from
work q w = work_from q.stage q w
