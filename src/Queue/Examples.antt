-- ===== src/Queue/Examples.antt =====
-- The theorems about the queue at concrete tasks: one that succeeds, and one whose code panics.
use wp_panel_en_private.Base.{◌≡◌, refl, true, false, none, some, [], arith, eq_iff, length}
use wp_panel_en_private.Queue.Types.{
  Task, returned, panicked, create_site, create_site_payload, waiting, success,
}
use wp_panel_en_private.Queue.OperationLog.{LogReply}
use wp_panel_en_private.Queue.Worker.{
  TaskQueue, World, idle, init_queue, enqueue, send, get_task, queue_length, put, dispatch,
}
use wp_panel_en_private.Queue.Consistent.{IsConsistent, AgreesIn, count, unanswered, waits, verdict}
use wp_panel_en_private.Queue.Order.{
  Reach, here, next, enqueues, sends, queue-IsConsistent, get_task_consistent, sent,
}
use wp_panel_en_private.Queue.Progress.{
  work_times, work_left, work_drains, work_round, done_task, result_from,
}

abbrev world : World
world = record {
  now = 7;
  own = returned (record { ok = true; message = "site created" });
  reply = some LogReply.stores;
}

abbrev panics : World
panics = record { now = 9; own = panicked "nil map"; reply = some LogReply.stores }

abbrev asked : TaskQueue
asked = enqueue init_queue "t1" create_site (create_site_payload "a.test") 5

abbrev ready : TaskQueue
ready = put asked [] "t1" []

asked_Reach : Reach init_queue asked
unfolding init_queue
asked_Reach = next here (enqueues init_queue "t1" create_site (create_site_payload "a.test") 5 refl)

ready_Reach : Reach init_queue ready
unfolding init_queue enqueue send
ready_Reach = next asked_Reach (sends asked [] "t1" [] ready refl refl)

queue-IsConsistent_example : IsConsistent ready
queue-IsConsistent_example = queue-IsConsistent ready_Reach

abbrev first_task : Task
first_task = record {
  id = "t1";
  type = create_site;
  payload = create_site_payload "a.test";
  status = waiting;
  created_at = 5;
  updated_at = 5;
  result = none;
  result_ch = none;
  sent = false;
  received = false;
  closed = false;
}

get_task_consistent_example :
    (verdict first_task.result first_task.status ≡ true) × (first_task.result_ch ≡ none)
unfolding get_task init_queue enqueue
get_task_consistent_example = get_task_consistent asked_Reach "t1" first_task refl

abbrev shown : Task
shown = record first_task {
  status = success;
  updated_at = 7;
  result = some (record { ok = true; message = "site created" });
}

work_drains_example :
    let q' = work_times (work_left ready) (λ n. panics) ready in
    (q'.stage ≡ idle)
    × (q'.queue ≡ [])
    × (queue_length q' ≡ length ready.sending)
    × (unanswered (q'.tasks "t1") ≡ count "t1" ready.sending)
    × (waits (q'.tasks "t1") ≡ count "t1" ready.sending)
    × AgreesIn (q'.tasks "t1")
work_drains_example = work_drains (λ n. panics) ready queue-IsConsistent_example "t1"

work_round_example :
    let q' = work_times 9 (λ n. panics) ready in
    (q'.stage ≡ idle)
    × (q'.is_on ≡ false)
    × (q'.queue ≡ [])
    × (q'.task_count ≡ 0)
    × (q'.tasks "t1"
        ≡ some (done_task first_task 9 (result_from (dispatch create_site (panicked "nil map")))))
    × (q'.tasks "t2" ≡ ready.tasks "t2")
unfolding init_queue enqueue
work_round_example =
    work_round (λ n. panics) ready "t1" [] first_task "t2" refl refl refl
      (λ e. ground (arith, eq_iff "t1" "t2"))
