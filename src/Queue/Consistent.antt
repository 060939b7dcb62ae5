-- ===== src/Queue/Consistent.antt =====
-- What holds of the queue between any two steps of its goroutines: every task whose result has not
-- been sent stands in exactly one place, the counter counts these places, and a task's status,
-- result and channel agree.
use wp_panel_en_private.Base.{
  ℕ, ◌+◌, ◌≤◌, ◌≡◌, refl, String, Bool, true, false, not, ◌&&◌, Option, none, some, List, [], ◌∷◌,
  ◌++◌, if◌then◌else◌, length, str_eq, arith, one_if,
}
use wp_panel_en_private.Queue.Types.{
  Task, TaskStatus, TaskResult, waiting, running, success, failed,
}
use wp_panel_en_private.Queue.Worker.{
  TaskQueue, Stage, idle, received, picked, executing, settled, result_sent, panic_sent, logged,
  recovered, counted, queue_capacity, init_queue,
}

abbrev pub count : String → List String → ℕ
count id [] = 0
count id (x ∷ xs) = one_if (str_eq x id) + count id xs

pub count-append :
    (id : String) (xs ys : List String) → count id (xs ++ ys) ≡ count id xs + count id ys
count-append id [] ys = omega arith
count-append id (x ∷ xs) ys = omega (arith, count-append id xs ys)

-- The worker has a task that is counted.
abbrev pub busy : Stage → ℕ
busy idle = 0
busy counted = 0
busy _ = 1

-- The worker has this task and has not closed its channel.
abbrev pub holds : Stage → String → ℕ
holds (received i) id = one_if (str_eq i id)
holds (picked i) id = one_if (str_eq i id)
holds (executing i) id = one_if (str_eq i id)
holds (settled i r) id = one_if (str_eq i id)
holds (logged i r) id = one_if (str_eq i id)
holds (recovered i r) id = one_if (str_eq i id)
holds (result_sent i) id = one_if (str_eq i id)
holds (panic_sent i r) id = one_if (str_eq i id)
holds _ id = 0

abbrev pub has_picked : Stage → String → ℕ
has_picked (received i) id = one_if (str_eq i id)
has_picked (picked i) id = one_if (str_eq i id)
has_picked _ id = 0

abbrev pub executes : Stage → String → ℕ
executes (executing i) id = one_if (str_eq i id)
executes _ id = 0

-- The worker has sent the result of this task, but not closed its channel.
abbrev pub closes : Stage → String → ℕ
closes (result_sent i) id = one_if (str_eq i id)
closes (panic_sent i r) id = one_if (str_eq i id)
closes _ id = 0

-- Between the two stores to q.running, of which the first follows the receive from the channel.
abbrev pub is_lit : Stage → Bool
is_lit idle = false
is_lit (received i) = false
is_lit _ = true

-- 1 if there is such a task and its channel is open.
abbrev pub unanswered : Option Task → ℕ
unanswered none = 0
unanswered (some t) = one_if (not t.closed)

-- 1 if there is such a task and its channel is closed; and 1 if its result was sent.
abbrev pub has_closed : Option Task → ℕ
has_closed none = 0
has_closed (some t) = one_if t.closed

abbrev pub has_sent : Option Task → ℕ
has_sent none = 0
has_sent (some t) = one_if t.sent

abbrev pub is_waiting : TaskStatus → Bool
is_waiting waiting = true
is_waiting _ = false

abbrev pub is_executed : TaskStatus → Bool
is_executed running = true
is_executed _ = false

abbrev pub waits : Option Task → ℕ
waits none = 0
waits (some t) = one_if (is_waiting t.status)

abbrev pub runs : Option Task → ℕ
runs none = 0
runs (some t) = one_if (is_executed t.status)

abbrev pub verdict : Option TaskResult → TaskStatus → Bool
verdict none waiting = true
verdict none running = true
verdict none _ = false
verdict (some r) success = r.ok
verdict (some r) failed = not r.ok
verdict (some r) _ = false

abbrev pub is_some : Option TaskResult → Bool
is_some none = false
is_some (some r) = true

-- Status, result and channel of one task agree.
pub record Agrees (t : Task) : Type 0 where
  pub status_result : verdict t.result t.status ≡ true
  pub channel : t.result_ch ≡ (if t.sent && not t.received then t.result else none)
  pub stored : t.sent ≡ true → is_some t.result ≡ true
  pub taken : t.received ≡ true → t.sent ≡ true

abbrev pub AgreesIn : Option Task → Type 0
AgreesIn none = Unit
AgreesIn (some t) = Agrees t

abbrev pub result_of : Option Task → Option TaskResult
result_of none = none
result_of (some t) = t.result

-- The result that the worker is about to send is the one stored in the task.
abbrev pub Carries : Stage → (String → Option Task) → Type 0
Carries (settled id r) tasks = result_of (tasks id) ≡ some r
Carries (logged id r) tasks = result_of (tasks id) ≡ some r
Carries (recovered id r) tasks = result_of (tasks id) ≡ some r
Carries _ tasks = Unit

pub record IsConsistent (q : TaskQueue) : Type 0 where
  pub counter : q.task_count ≡ length q.sending + length q.queue + busy q.stage
  pub room : length q.queue ≤ queue_capacity
  pub switched_on : q.is_on ≡ is_lit q.stage
  pub place :
      (id : String)
      → count id q.sending + count id q.queue + holds q.stage id ≡ unanswered (q.tasks id)
  pub waiting_place :
      (id : String)
      → count id q.sending + count id q.queue + has_picked q.stage id ≡ waits (q.tasks id)
  pub running_place : (id : String) → executes q.stage id ≡ runs (q.tasks id)
  pub closed_place :
      (id : String) → has_closed (q.tasks id) + closes q.stage id ≡ has_sent (q.tasks id)
  pub agrees : (id : String) → AgreesIn (q.tasks id)
  pub carries : Carries q.stage q.tasks

pub IsConsistent-init_queue : IsConsistent init_queue
unfolding init_queue
IsConsistent-init_queue = record {
  counter = refl;
  room = omega arith;
  switched_on = refl;
  place = λ id. refl;
  waiting_place = λ id. refl;
  running_place = λ id. refl;
  closed_place = λ id. refl;
  agrees = λ id. tt;
  carries = tt;
}
