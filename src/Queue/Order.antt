-- ===== src/Queue/Order.antt =====
-- The steps of the queue's goroutines in any interleaving, and what holds of every reachable queue.
use wp_panel_en_private.Base.{
  ℕ, ◌≤◌, ◌≡◌, String, true, none, some, List, [], ◌∷◌, ◌++◌, arith, length,
}
use wp_panel_en_private.Queue.Types.{TaskType, Payload, Task, TaskResult}
use wp_panel_en_private.Queue.Worker.{
  TaskQueue, Stage, received, picked, executing, settled, logged, recovered, World, receive_result,
  init_queue, enqueue, send, work, get_task, queue_length,
}
use wp_panel_en_private.Queue.Consistent.{
  IsConsistent, count, busy, has_picked, executes, verdict, is_some, IsConsistent-init_queue,
}
use wp_panel_en_private.Queue.Invariant.{
  enqueue-IsConsistent, send-IsConsistent, receive_result-IsConsistent, work-IsConsistent,
}

-- `enqueues` is a call of `Enqueue` with an identifier that is not in use.
pub data Step : TaskQueue → TaskQueue → Type 0 where
  enqueues :
      (q : TaskQueue) (id : String) (type : TaskType) (payload : Payload) (now : ℕ)
      → q.tasks id ≡ none
      → Step q (enqueue q id type payload now)
  sends :
      (q : TaskQueue) (before : List String) (id : String) (after : List String) (t : TaskQueue)
      → q.sending ≡ before ++ id ∷ after
      → send q before id after ≡ some t
      → Step q t
  receives :
      (q : TaskQueue) (id : String) (result : TaskResult) (t : TaskQueue)
      → receive_result q id ≡ some (result, t)
      → Step q t
  works : (q : TaskQueue) (w : World) → Step q (work q w)

pub data Reach (s : TaskQueue) : TaskQueue → Type 0 where
  here : Reach s s
  next : {t u : TaskQueue} → Reach s t → Step t u → Reach s u

Step-IsConsistent : {s t : TaskQueue} → Step s t → IsConsistent s → IsConsistent t
Step-IsConsistent (enqueues q id type payload now fresh) h =
    enqueue-IsConsistent q h id type payload now fresh
Step-IsConsistent (sends q before id after t e s) h = send-IsConsistent q h before id after t e s
Step-IsConsistent (receives q id result t e) h = receive_result-IsConsistent q h id result t e
Step-IsConsistent (works q w) h = work-IsConsistent q h w

-- The invariant is kept by every interleaving of the steps.
pub Reach-IsConsistent : {s t : TaskQueue} → IsConsistent s → Reach s t → IsConsistent t
Reach-IsConsistent h here = h
Reach-IsConsistent h (next r step) = Step-IsConsistent step (Reach-IsConsistent h r)

-- In every queue that is reached from the initial one, by any interleaving of calls of `Enqueue`, of
-- the worker and of the handlers that receive results, the counter is the number of tasks that wait to
-- be sent, lie in the channel or are in the worker's hands; the channel holds at most 100; the queue
-- says that it runs from the worker's store that follows its receive to the one that ends its round; a
-- task has a place, and one, exactly while the channel of its result is open, its status is waiting
-- exactly before the worker has started it and running exactly while its code runs; a result is sent
-- before its channel is closed, and until it is closed the worker has the task; status and result of
-- each task agree, and its channel holds its result from the send to the receive.
pub queue-IsConsistent : {q : TaskQueue} → Reach init_queue q → IsConsistent q
queue-IsConsistent r = Reach-IsConsistent IsConsistent-init_queue r

-- What `GetTask` gives of any reachable queue is consistent: no result while the task waits or
-- runs, a result that says success exactly in the status success, and no channel.
pub get_task_consistent :
    {q : TaskQueue}
    → Reach init_queue q
    → (id : String) (t : Task) → get_task q id ≡ some t
    → (verdict t.result t.status ≡ true) × (t.result_ch ≡ none)
unfolding get_task
get_task_consistent r id t e = ground (arith, (queue-IsConsistent r).agrees id)

count-le-length : (id : String) (xs : List String) → count id xs ≤ length xs
count-le-length id [] = omega arith
count-le-length id (x ∷ xs) = ground (arith, count-le-length id xs)

stage-le-busy :
    (st : Stage) (id : String) → (has_picked st id ≤ busy st) × (executes st id ≤ busy st)
stage-le-busy (picked i) id = ground arith
stage-le-busy (executing i) id = ground arith
stage-le-busy (received i) id = ground arith
stage-le-busy _ id = omega arith

-- When `QueueLength` gives 0, every task known to the queue has its result.
pub queue_length-zero :
    {q : TaskQueue}
    → Reach init_queue q
    → queue_length q ≡ 0
    → (id : String) (t : Task) → get_task q id ≡ some t
    → is_some t.result ≡ true
unfolding get_task queue_length
queue_length-zero {q} r zero_count id t e = ground (
  arith,
  h.counter,
  h.waiting_place id,
  h.running_place id,
  h.agrees id,
  count-le-length id q.sending,
  count-le-length id q.queue,
  stage-le-busy q.stage id,
)
  where
    h : IsConsistent q
    h = queue-IsConsistent r

-- The identifiers that were put into the channel, and those whose results the worker has sent, in order.
abbrev pub sent : {s t : TaskQueue} → Reach s t → List String
sent here = []
sent (next r (sends q before id after t e s)) = sent r ++ id ∷ []
sent (next r _) = sent r

-- The task whose result this step of the worker sends.
abbrev pub answer_of : Stage → List String
answer_of (logged id result) = id ∷ []
answer_of (recovered id result) = id ∷ []
answer_of _ = []

abbrev pub answered_ids : {s t : TaskQueue} → Reach s t → List String
answered_ids here = []
answered_ids (next r (works q w)) = answered_ids r ++ answer_of q.stage
answered_ids (next r _) = answered_ids r

-- The task that the worker has and whose result it has not sent.
abbrev pub in_hand : Stage → List String
in_hand (received id) = id ∷ []
in_hand (picked id) = id ∷ []
in_hand (executing id) = id ∷ []
in_hand (settled id result) = id ∷ []
in_hand (logged id result) = id ∷ []
in_hand (recovered id result) = id ∷ []
in_hand _ = []

abbrev pub pending : TaskQueue → List String
pending q = in_hand q.stage ++ q.queue
