-- ===== src/Queue/Invariant.antt =====
-- The invariant of Queue.Consistent is kept by each step of the goroutines of executor/queue.go.
use wp_panel_en_private.Base.{
  ℕ, ◌+◌, ◌≡◌, refl, ap, subst, ◌∙◌, String, Bool, true, false, Option, none, some, List, [], ◌∷◌,
  ◌++◌, if◌then◌else◌, length, length-append, ltb, str_eq, eq_iff, arith, one_if, if-eq-some,
}
use wp_panel_en_private.Queue.Types.{
  TaskType, Payload, Task, TaskResult, Outcome, returned, panicked,
}
use wp_panel_en_private.Queue.OperationLog.{LogRow}
use wp_panel_en_private.Queue.Worker.{
  TaskQueue, Stage, idle, picked, executing, settled, logged, received, recovered, result_sent,
  panic_sent, answered, delivered, counted, World, queue_capacity, store, modify, send_result,
  close_result, drop_result, taken_from, received_from, receive_result, put, enqueue, send,
  take_task, finish, run_type, work_from, work,
}
use wp_panel_en_private.Queue.Consistent.{
  count, count-append, busy, holds, has_picked, executes, closes, is_lit, AgreesIn, result_of,
  Carries, IsConsistent,
}

AgreesIn-if :
    (b : Bool) (s t : Option Task) → AgreesIn s → AgreesIn t → AgreesIn (if b then s else t)
AgreesIn-if true s t hs ht = hs
AgreesIn-if false s t hs ht = ht

Carries-store :
    (q : TaskQueue) (id : String) (task : Task) (st : Stage)
    → q.tasks id ≡ none
    → Carries st q.tasks
    → Carries st (store q id task)
Carries-store q id task (settled i r) fresh c = ground (arith, eq_iff id i)
Carries-store q id task (logged i r) fresh c = ground (arith, eq_iff id i)
Carries-store q id task (recovered i r) fresh c = ground (arith, eq_iff id i)
Carries-store q id task _ fresh c = tt

Carries-drop_result :
    (q : TaskQueue) (id : String) (st : Stage)
    → Carries st q.tasks
    → Carries st (modify q id drop_result)
Carries-drop_result q id (settled i r) c = ground (arith, eq_iff id i)
Carries-drop_result q id (logged i r) c = ground (arith, eq_iff id i)
Carries-drop_result q id (recovered i r) c = ground (arith, eq_iff id i)
Carries-drop_result q id _ c = tt

module _ (q : TaskQueue) (h : IsConsistent q) where
  -- A call of `Enqueue` with a fresh identifier.
  pub enqueue-IsConsistent :
      (id : String) (type : TaskType) (payload : Payload) (now : ℕ)
      → q.tasks id ≡ none
      → IsConsistent (enqueue q id type payload now)
  unfolding enqueue
  enqueue-IsConsistent id type payload now fresh = record {
    counter = omega (arith, h.counter, length-append q.sending (id ∷ []));
    room = h.room;
    switched_on = h.switched_on;
    place =
        λ j. ground (arith, h.place j, h.place id, count-append j q.sending (id ∷ []), eq_iff id j);
    waiting_place = λ j. ground (
      arith,
      h.waiting_place j,
      h.waiting_place id,
      count-append j q.sending (id ∷ []),
      eq_iff id j,
    );
    running_place = λ j. ground (arith, h.running_place j, h.running_place id, eq_iff id j);
    closed_place = λ j. ground (arith, h.closed_place j, h.closed_place id, eq_iff id j);
    agrees = λ j. AgreesIn-if (str_eq id j) _ _ (ground arith) (h.agrees j);
    carries = Carries-store q id _ q.stage fresh h.carries;
  }

  put-IsConsistent :
      (before : List String) (id : String) (after : List String)
      → q.sending ≡ before ++ id ∷ after
      → ltb (length q.queue) queue_capacity ≡ true
      → IsConsistent (put q before id after)
  put-IsConsistent before id after e room = record {
    counter = ground (
      arith,
      h.counter,
      length-append q.queue (id ∷ []),
      length-append before after,
      length-append before (id ∷ after),
      ap length e,
    );
    room = ground (arith, length-append q.queue (id ∷ []));
    switched_on = h.switched_on;
    place = λ j. omega (arith, h.place j, moved j);
    waiting_place = λ j. omega (arith, h.waiting_place j, moved j);
    running_place = h.running_place;
    closed_place = h.closed_place;
    agrees = h.agrees;
    carries = h.carries;
  }
    where
      moved :
          (j : String)
          → count j (before ++ after) + count j (q.queue ++ id ∷ [])
            ≡ count j q.sending + count j q.queue
      moved j = omega (
        arith,
        ap (count j) e,
        count-append j before after,
        count-append j before (id ∷ after),
        count-append j q.queue (id ∷ []),
      )

  -- A waiting call of `Enqueue` puts its task into the channel.
  pub send-IsConsistent :
      (before : List String) (id : String) (after : List String) (t : TaskQueue)
      → q.sending ≡ before ++ id ∷ after
      → send q before id after ≡ some t
      → IsConsistent t
  unfolding send
  send-IsConsistent before id after t e s =
      let (room, same) = if-eq-some _ _ s in
      subst IsConsistent same (put-IsConsistent before id after e room)

  dropped-IsConsistent :
      (id : String) (task : Task) (result : TaskResult)
      → q.tasks id ≡ some task
      → task.result_ch ≡ some result
      → IsConsistent (record q { tasks = modify q id drop_result })
  dropped-IsConsistent id task result found held = record {
    counter = h.counter;
    room = h.room;
    switched_on = h.switched_on;
    place = λ j. ground (arith, h.place j, h.place id, found, eq_iff id j);
    waiting_place = λ j. ground (arith, h.waiting_place j, h.waiting_place id, found, eq_iff id j);
    running_place = λ j. ground (arith, h.running_place j, h.running_place id, found, eq_iff id j);
    closed_place = λ j. ground (arith, h.closed_place j, h.closed_place id, found, eq_iff id j);
    agrees = λ j. ground (arith, h.agrees j, h.agrees id, found, held, eq_iff id j);
    carries = Carries-drop_result q id q.stage h.carries;
  }

  taken-IsConsistent :
      (id : String) (task : Task) (held : Option TaskResult) (result : TaskResult) (t : TaskQueue)
      → q.tasks id ≡ some task
      → task.result_ch ≡ held
      → taken_from q id held ≡ some (result, t)
      → IsConsistent t
  taken-IsConsistent id task none result t e e' same = cc (same)
  taken-IsConsistent id task (some r) result t e e' same =
      let left : record q { tasks = modify q id drop_result } ≡ t = cc (same) in
      subst IsConsistent left (dropped-IsConsistent id task r e e')

  received-IsConsistent :
      (id : String) (found : Option Task) (result : TaskResult) (t : TaskQueue)
      → q.tasks id ≡ found
      → received_from q id found ≡ some (result, t)
      → IsConsistent t
  received-IsConsistent id none result t e same = cc (same)
  received-IsConsistent id (some task) result t e same =
      taken-IsConsistent id task task.result_ch result t e refl same

  -- A handler takes a result out of its task's channel.
  pub receive_result-IsConsistent :
      (id : String) (result : TaskResult) (t : TaskQueue)
      → receive_result q id ≡ some (result, t)
      → IsConsistent t
  unfolding receive_result
  receive_result-IsConsistent id result t e = received-IsConsistent id (q.tasks id) result t refl e

  -- One step of the worker.
  module _ (w : World) where
    take_task-IsConsistent :
        (ids : List String) → q.stage ≡ idle → q.queue ≡ ids → IsConsistent (take_task q ids)
    unfolding take_task
    take_task-IsConsistent [] e e' = h
    take_task-IsConsistent (id ∷ rest) e e' = record {
      counter = ground (arith, h.counter, ap length e');
      room = ground (arith, h.room, ap length e');
      switched_on = ground (arith, h.switched_on);
      place = λ j. ground (arith, h.place j, ap (count j) e');
      waiting_place = λ j. ground (arith, h.waiting_place j, ap (count j) e');
      running_place = λ j. ground (arith, h.running_place j);
      closed_place = λ j. ground (arith, h.closed_place j);
      agrees = h.agrees;
      carries = tt;
    }

    finish-IsConsistent :
        (id : String) (o : Outcome) → q.stage ≡ executing id → IsConsistent (finish q w.now id o)
    unfolding finish
    finish-IsConsistent id (returned result) e = record {
      counter = ground (arith, h.counter);
      room = h.room;
      switched_on = ground (arith, h.switched_on);
      place = λ j. ground (arith, h.place j, h.place id, eq_iff id j);
      waiting_place = λ j.
          ground (arith, h.waiting_place j, h.waiting_place id, h.running_place id, eq_iff id j);
      running_place = λ j. ground (arith, h.running_place j, h.running_place id, eq_iff id j);
      closed_place = λ j. ground (arith, h.closed_place j, h.closed_place id, eq_iff id j);
      agrees =
          λ j. ground (arith, h.place id, h.running_place id, h.agrees id, h.agrees j, eq_iff id j);
      carries = ground (arith, h.running_place id, eq_iff id id);
    }
    finish-IsConsistent id (panicked r) e = record {
      counter = ground (arith, h.counter);
      room = h.room;
      switched_on = ground (arith, h.switched_on);
      place = λ j. ground (arith, h.place j, h.place id, eq_iff id j);
      waiting_place = λ j.
          ground (arith, h.waiting_place j, h.waiting_place id, h.running_place id, eq_iff id j);
      running_place = λ j. ground (arith, h.running_place j, h.running_place id, eq_iff id j);
      closed_place = λ j. ground (arith, h.closed_place j, h.closed_place id, eq_iff id j);
      agrees =
          λ j. ground (arith, h.place id, h.running_place id, h.agrees id, h.agrees j, eq_iff id j);
      carries = ground (arith, h.running_place id, eq_iff id id);
    }

    -- The worker moves on with the same task, and the operation log may grow.
    restage-IsConsistent :
        (next : Stage) (rows : List LogRow)
        → busy next ≡ busy q.stage
        → is_lit next ≡ is_lit q.stage
        → ((j : String) → holds next j ≡ holds q.stage j)
        → ((j : String) → has_picked next j ≡ has_picked q.stage j)
        → ((j : String) → executes next j ≡ executes q.stage j)
        → ((j : String) → closes next j ≡ closes q.stage j)
        → Carries next q.tasks
        → IsConsistent (record q { stage = next; logs = rows })
    restage-IsConsistent next rows b i hs ps es cs c = record {
      counter = omega (arith, h.counter);
      room = h.room;
      switched_on = rw i h.switched_on;
      place = λ j. omega (arith, h.place j, hs j);
      waiting_place = λ j. omega (arith, h.waiting_place j, ps j);
      running_place = λ j. es j ∙ h.running_place j;
      closed_place = λ j. omega (arith, h.closed_place j, cs j);
      agrees = h.agrees;
      carries = c;
    }

    -- The result is sent, before the operation is logged or after.
    send_result-IsConsistent :
        (id : String) (r : TaskResult) (next : Stage)
        → busy next ≡ busy q.stage
        → is_lit next ≡ is_lit q.stage
        → ((j : String) → holds q.stage j ≡ one_if (str_eq id j))
        → ((j : String) → holds next j ≡ one_if (str_eq id j))
        → ((j : String) → has_picked next j ≡ has_picked q.stage j)
        → ((j : String) → executes next j ≡ executes q.stage j)
        → ((j : String) → closes q.stage j ≡ 0)
        → ((j : String) → closes next j ≡ one_if (str_eq id j))
        → ((tasks : String → Option Task) → Carries next tasks)
        → result_of (q.tasks id) ≡ some r
        → IsConsistent (record q { tasks = modify q id (send_result r); stage = next })
    send_result-IsConsistent id r next b i hs hn ps es cs cn c stored = record {
      counter = omega (arith, h.counter);
      room = h.room;
      switched_on = rw i h.switched_on;
      place = λ j. ground (arith, h.place j, h.place id, hs j, hn j, eq_iff id j);
      waiting_place = λ j. ground (arith, h.waiting_place j, h.waiting_place id, ps j, eq_iff id j);
      running_place = λ j. ground (arith, h.running_place j, h.running_place id, es j, eq_iff id j);
      closed_place = λ j. ground (
        arith,
        h.closed_place j,
        h.closed_place id,
        h.place id,
        hs id,
        cs j,
        cs id,
        cn j,
        eq_iff id j,
        eq_iff id id,
      );
      agrees = λ j. ground (
        arith,
        h.agrees id,
        h.agrees j,
        h.closed_place id,
        h.place id,
        hs id,
        cs id,
        eq_iff id j,
        eq_iff id id,
      );
      carries = c _;
    }

    -- The channel is closed.
    close_result-IsConsistent :
        (id : String) (next : Stage)
        → busy next ≡ busy q.stage
        → is_lit next ≡ is_lit q.stage
        → ((j : String) → holds q.stage j ≡ one_if (str_eq id j))
        → ((j : String) → holds next j ≡ 0)
        → ((j : String) → has_picked next j ≡ has_picked q.stage j)
        → ((j : String) → executes next j ≡ executes q.stage j)
        → ((j : String) → closes q.stage j ≡ one_if (str_eq id j))
        → ((j : String) → closes next j ≡ 0)
        → ((tasks : String → Option Task) → Carries next tasks)
        → IsConsistent (record q { tasks = modify q id close_result; stage = next })
    close_result-IsConsistent id next b i hs hn ps es cs cn c = record {
      counter = omega (arith, h.counter);
      room = h.room;
      switched_on = rw i h.switched_on;
      place =
          λ j. ground (arith, h.place j, h.place id, hs j, hs id, hn j, eq_iff id j, eq_iff id id);
      waiting_place = λ j. ground (arith, h.waiting_place j, h.waiting_place id, ps j, eq_iff id j);
      running_place = λ j. ground (arith, h.running_place j, h.running_place id, es j, eq_iff id j);
      closed_place = λ j. ground (
        arith,
        h.closed_place j,
        h.closed_place id,
        h.place id,
        hs id,
        cs j,
        cs id,
        cn j,
        eq_iff id j,
        eq_iff id id,
      );
      agrees = λ j. ground (arith, h.agrees id, h.agrees j, eq_iff id j);
      carries = c _;
    }

    work_from-IsConsistent : (st : Stage) → q.stage ≡ st → IsConsistent (work_from st q w)
    unfolding work_from
    work_from-IsConsistent idle e = take_task-IsConsistent q.queue e refl
    work_from-IsConsistent (received id) e = record {
      counter = ground (arith, h.counter);
      room = h.room;
      switched_on = refl;
      place = λ j. ground (arith, h.place j);
      waiting_place = λ j. ground (arith, h.waiting_place j);
      running_place = λ j. ground (arith, h.running_place j);
      closed_place = λ j. ground (arith, h.closed_place j);
      agrees = h.agrees;
      carries = tt;
    }
    work_from-IsConsistent (picked id) e = record {
      counter = ground (arith, h.counter);
      room = h.room;
      switched_on = ground (arith, h.switched_on);
      place = λ j. ground (arith, h.place j, h.place id, eq_iff id j);
      waiting_place = λ j. ground (arith, h.waiting_place j, h.waiting_place id, eq_iff id j);
      running_place = λ j.
          ground (arith, h.running_place j, h.waiting_place id, h.running_place id, eq_iff id j);
      closed_place = λ j. ground (arith, h.closed_place j, h.closed_place id, eq_iff id j);
      agrees = λ j. ground (arith, h.waiting_place id, h.agrees id, h.agrees j, eq_iff id j);
      carries = tt;
    }
    work_from-IsConsistent (executing id) e = finish-IsConsistent id (run_type q id w.own) e
    work_from-IsConsistent (settled id r) e =
        restage-IsConsistent (logged id r) _ (rw e) (rw e) (λ j. rw e) (λ j. rw e) (λ j. rw e)
          (λ j. rw e) (subst (λ st. Carries st q.tasks) e h.carries)
    work_from-IsConsistent (logged id r) e =
        send_result-IsConsistent id r (result_sent id) (rw e) (rw e) (λ j. rw e) (λ j. refl)
          (λ j. rw e) (λ j. rw e) (λ j. rw e) (λ j. refl) (λ tasks. tt)
          (subst (λ st. Carries st q.tasks) e h.carries)
    work_from-IsConsistent (recovered id r) e =
        send_result-IsConsistent id r (panic_sent id r) (rw e) (rw e) (λ j. rw e) (λ j. refl)
          (λ j. rw e) (λ j. rw e) (λ j. rw e) (λ j. refl) (λ tasks. tt)
          (subst (λ st. Carries st q.tasks) e h.carries)
    work_from-IsConsistent (result_sent id) e =
        close_result-IsConsistent id (delivered id) (rw e) (rw e) (λ j. rw e) (λ j. refl)
          (λ j. rw e) (λ j. rw e) (λ j. rw e) (λ j. refl) (λ tasks. tt)
    work_from-IsConsistent (panic_sent id r) e =
        close_result-IsConsistent id (answered id r) (rw e) (rw e) (λ j. rw e) (λ j. refl)
          (λ j. rw e) (λ j. rw e) (λ j. rw e) (λ j. refl) (λ tasks. tt)
    work_from-IsConsistent (answered id r) e =
        restage-IsConsistent (delivered id) _ (rw e) (rw e) (λ j. rw e) (λ j. rw e) (λ j. rw e)
          (λ j. rw e) tt
    work_from-IsConsistent (delivered id) e = record {
      counter = ground (arith, h.counter);
      room = h.room;
      switched_on = ground (arith, h.switched_on);
      place = λ j. ground (arith, h.place j);
      waiting_place = λ j. ground (arith, h.waiting_place j);
      running_place = λ j. ground (arith, h.running_place j);
      closed_place = λ j. ground (arith, h.closed_place j);
      agrees = h.agrees;
      carries = tt;
    }
    work_from-IsConsistent counted e = record {
      counter = ground (arith, h.counter);
      room = h.room;
      switched_on = refl;
      place = λ j. ground (arith, h.place j);
      waiting_place = λ j. ground (arith, h.waiting_place j);
      running_place = λ j. ground (arith, h.running_place j);
      closed_place = λ j. ground (arith, h.closed_place j);
      agrees = h.agrees;
      carries = tt;
    }

    pub work-IsConsistent : IsConsistent (work q w)
    unfolding work
    work-IsConsistent = work_from-IsConsistent q.stage refl
