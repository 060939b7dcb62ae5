-- ===== src/Queue/Progress.antt =====
-- The worker never gets stuck: with enough steps it answers every task in the channel, whatever
-- the tasks' code does, panics included.
use wp_panel_en_private.Base.{
  ℕ, zero, suc, ◌+◌, ◌-◌, ◌*◌, ◌≡◌, ◌≢◌, refl, ap, ◌∙◌, String, true, false, some, List, [], ◌∷◌,
  arith, length, if◌then◌else◌, eq_iff,
}
use wp_panel_en_private.Queue.Types.{Task, TaskResult, Outcome, returned, panicked, success, failed}
use wp_panel_en_private.Queue.Worker.{
  TaskQueue, Stage, idle, received, picked, executing, settled, logged, result_sent, recovered,
  panic_sent, answered, delivered, counted, World, modify, set_running, take_task, finish, run_type,
  work_from, work, dispatch, panic_result, queue_length,
}
use wp_panel_en_private.Queue.Consistent.{IsConsistent, AgreesIn, count, unanswered, waits}
use wp_panel_en_private.Queue.Invariant.{work-IsConsistent}

-- Steps that the worker still makes for the task it has.
abbrev pub steps_left : Stage → ℕ
steps_left idle = 0
steps_left (received id) = 8
steps_left (picked id) = 7
steps_left (executing id) = 6
steps_left (settled id r) = 5
steps_left (logged id r) = 4
steps_left (result_sent id) = 3
steps_left (recovered id r) = 5
steps_left (panic_sent id r) = 4
steps_left (answered id r) = 3
steps_left (delivered id) = 2
steps_left counted = 1

-- Steps that the worker still makes until the channel is empty.
abbrev pub work_left : TaskQueue → ℕ
work_left q = steps_left q.stage + 9 * length q.queue

-- The worker alone, for a number of steps; `w n` is what it meets in the step with n to go.
unfoldable pub work_times : ℕ → (ℕ → World) → TaskQueue → TaskQueue
work_times zero w q = q
work_times (suc n) w q = work_times n w (work q (w n))

finish_left :
    (q : TaskQueue) (now : ℕ) (id : String) (o : Outcome)
    → work_left (finish q now id o) ≡ 5 + 9 * length q.queue
unfolding finish
finish_left q now id (returned r) = refl
finish_left q now id (panicked r) = refl

take_task_left :
    (q : TaskQueue) (ids : List String)
    → q.stage ≡ idle
    → q.queue ≡ ids
    → work_left (take_task q ids) ≡ work_left q - 1
unfolding take_task
take_task_left q [] e e' = ground (arith, ap length e')
take_task_left q (id ∷ rest) e e' = ground (arith, ap length e')

work_from_left :
    (st : Stage) (q : TaskQueue) (w : World)
    → q.stage ≡ st
    → work_left (work_from st q w) ≡ work_left q - 1
unfolding work_from
work_from_left idle q w e = take_task_left q q.queue e refl
work_from_left (executing id) q w e = ground (arith, finish_left q w.now id (run_type q id w.own))
work_from_left _ q w e = ground arith

work_times_left :
    (n : ℕ) (w : ℕ → World) (q : TaskQueue) → work_left (work_times n w q) ≡ work_left q - n
unfolding work_times work
work_times_left zero w q = omega arith
work_times_left (suc n) w q =
    omega (arith, work_times_left n w (work q (w n)), work_from_left q.stage q (w n) refl)

work_times-IsConsistent :
    (n : ℕ) (w : ℕ → World) (q : TaskQueue) → IsConsistent q → IsConsistent (work_times n w q)
unfolding work_times
work_times-IsConsistent zero w q h = h
work_times-IsConsistent (suc n) w q h =
    work_times-IsConsistent n w (work q (w n)) (work-IsConsistent q h (w n))

finish_sending :
    (q : TaskQueue) (now : ℕ) (id : String) (o : Outcome) → (finish q now id o).sending ≡ q.sending
unfolding finish
finish_sending q now id (returned r) = refl
finish_sending q now id (panicked r) = refl

take_task_sending : (q : TaskQueue) (ids : List String) → (take_task q ids).sending ≡ q.sending
unfolding take_task
take_task_sending q [] = refl
take_task_sending q (id ∷ rest) = refl

work_from_sending :
    (st : Stage) (q : TaskQueue) (w : World) → (work_from st q w).sending ≡ q.sending
unfolding work_from
work_from_sending idle q w = take_task_sending q q.queue
work_from_sending (executing id) q w = finish_sending q w.now id (run_type q id w.own)
work_from_sending _ q w = refl

work_times_sending :
    (n : ℕ) (w : ℕ → World) (q : TaskQueue) → (work_times n w q).sending ≡ q.sending
unfolding work_times work
work_times_sending zero w q = refl
work_times_sending (suc n) w q =
    work_times_sending n w (work q (w n)) ∙ work_from_sending q.stage q (w n)

no_work_left :
    (st : Stage) (ids : List String) → steps_left st + 9 * length ids ≡ 0 → (st ≡ idle) × (ids ≡ [])
no_work_left idle [] h = (refl, refl)
no_work_left st ids h = absurd (omega arith)

-- After `work_left` steps of the worker, whatever the tasks' code does and whether or not it
-- panics, the worker is idle, the channel is empty, the counter counts only the calls of `Enqueue`
-- that still wait to send, a task is unanswered or waiting only if it is the task of such a call,
-- and every task's status, result and channel agree.
pub work_drains :
    (w : ℕ → World) (q : TaskQueue)
    → IsConsistent q
    → (id : String)
    → let q' = work_times (work_left q) w q in
      (q'.stage ≡ idle)
      × (q'.queue ≡ [])
      × (queue_length q' ≡ length q.sending)
      × (unanswered (q'.tasks id) ≡ count id q.sending)
      × (waits (q'.tasks id) ≡ count id q.sending)
      × AgreesIn (q'.tasks id)
unfolding queue_length
work_drains w q h id =
    let q' : TaskQueue = work_times (work_left q) w q in
    let h' : IsConsistent q' = work_times-IsConsistent (work_left q) w q h in
    let (i, e) =
      no_work_left q'.stage q'.queue (omega (arith, work_times_left (work_left q) w q)) in
    let s = work_times_sending (work_left q) w q in
    (
      i,
      e,
      ground (arith, h'.counter, i, e, ap length s),
      ground (arith, h'.place id, i, e, ap (count id) s),
      ground (arith, h'.waiting_place id, i, e, ap (count id) s),
      h'.agrees id,
    )

-- The result of a task, of its own code or of the panic that ended it.
abbrev pub result_from : Outcome → TaskResult
result_from (returned r) = r
result_from (panicked m) = panic_result m

-- What the worker leaves of a task.
abbrev pub done_task : Task → ℕ → TaskResult → Task
done_task t now r = record t {
  status = if r.ok then success else failed;
  updated_at = now;
  result = some r;
  result_ch = some r;
  sent = true;
  closed = true;
}

module _ (w : ℕ → World) (q : TaskQueue) (id : String) where
  concluded :
      (t : Task) (now : ℕ) (o : Outcome)
      → q.tasks id ≡ some t
      → let q' = work_times 5 w (finish q now id o) in
        (q'.stage ≡ idle)
        × (q'.is_on ≡ false)
        × (q'.queue ≡ q.queue)
        × (q'.task_count ≡ q.task_count - 1)
        × (q'.tasks id ≡ some (done_task t now (result_from o)))
  unfolding work_times work work_from finish
  concluded t now (returned r) e = (refl, refl, refl, refl, ground (arith, eq_iff id id))
  concluded t now (panicked m) e = (refl, refl, refl, refl, ground (arith, eq_iff id id))

  concluded_ne :
      (now : ℕ) (o : Outcome) (j : String)
      → id ≢ j
      → (work_times 5 w (finish q now id o)).tasks j ≡ q.tasks j
  unfolding work_times work work_from finish
  concluded_ne now (returned r) j ne = ground (arith, eq_iff id j)
  concluded_ne now (panicked m) j ne = ground (arith, eq_iff id j)

module _ (w : ℕ → World) (q : TaskQueue) (id : String) where
  -- The queue when the task `id` was taken from the front of the channel and marked as running.
  abbrev begun : List String → TaskQueue
  begun rest = record q {
    queue = rest;
    is_on = true;
    tasks = modify q id (set_running (w 6).now);
    stage = executing id;
  }

  work-begun :
      (rest : List String)
      → q.stage ≡ idle
      → q.queue ≡ id ∷ rest
      → work (work (work q (w 8)) (w 7)) (w 6) ≡ begun rest
  unfolding work work_from take_task
  work-begun rest e e' =
      ap (λ (s : TaskQueue). let on = work_from s.stage s (w 7) in work_from on.stage on (w 6))
        (ap (λ st. work_from st q (w 8)) e ∙ ap (take_task q) e')

  begun_type :
      (rest : List String) (t : Task) (own : Outcome)
      → q.tasks id ≡ some t
      → run_type (begun rest) id own ≡ dispatch t.type own
  unfolding run_type
  begun_type rest t own e = ground (arith, eq_iff id id)

  work_round-begun :
      (rest : List String) (t : Task)
      → q.stage ≡ idle
      → q.queue ≡ id ∷ rest
      → q.tasks id ≡ some t
      → work_times 9 w q
        ≡ work_times 5 w (finish (begun rest) (w 5).now id (dispatch t.type (w 5).own))
  unfolding work_times
  work_round-begun rest t e e' et =
      ap (work_times 6 w) (work-begun rest e e')
      ∙ unfold work work_from in
        ap (λ o. work_times 5 w (finish (begun rest) (w 5).now id o))
          (begun_type rest t (w 5).own et)

  -- Nine steps of the idle worker serve the task at the front of the channel, and only that: it
  -- ends with the result of its code, or of the panic in it, or of an unknown type; the result is
  -- sent and the channel closed; the other tasks stay as they were; and the worker is idle again.
  pub work_round :
      (rest : List String) (t : Task) (j : String)
      → q.stage ≡ idle
      → q.queue ≡ id ∷ rest
      → q.tasks id ≡ some t
      → id ≢ j
      → let q' = work_times 9 w q in
        (q'.stage ≡ idle)
        × (q'.is_on ≡ false)
        × (q'.queue ≡ rest)
        × (q'.task_count ≡ q.task_count - 1)
        × (q'.tasks id ≡ some (done_task t (w 5).now (result_from (dispatch t.type (w 5).own))))
        × (q'.tasks j ≡ q.tasks j)
  work_round rest t j e e' et ne =
      let o : Outcome = dispatch t.type (w 5).own in
      let marked : (begun rest).tasks id ≡ some (set_running (w 6).now t) =
        ground (arith, eq_iff id id) in
      let (i, off, rest_left, fewer, done) =
        concluded w (begun rest) id (set_running (w 6).now t) (w 5).now o marked in
      let kept : (begun rest).tasks j ≡ q.tasks j = ground (arith, eq_iff id j) in
      rw (work_round-begun rest t e e' et)
        (i, off, rest_left, fewer, done, concluded_ne w (begun rest) id (w 5).now o j ne ∙ kept)
