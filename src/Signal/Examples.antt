-- ===== src/Signal/Examples.antt =====
-- A queue with two jobs of one key and one worker (internal/signal/queue.go).
use elbot.Base.{◌≤◌, ◌<◌, ◌≡◌, ◌⊎◌, refl, false, [], ◌∷◌, length, pos, arith, weigh, insert, lookup}
use elbot.Signal.Queue.{
  Queue, Job, drain, cancel_pending, refused, queue_full, new_queue, submit, enqueue, push_job,
  make_ready, start_workers, count_ready, lane_at, runnable, vacant, has_key, remove_key,
  remove_job, take_job, take_ready, take_first, start_job, remove_pending, unqueue, begin_stop,
  stop_lanes, stop_lane, is_negative,
}
use elbot.Signal.Queue.Ready.{jobs_of, active_of}
use elbot.Signal.Queue.View.{count_of, bit}
use elbot.Signal.Queue.Runs.{Reach, opened, later, submits, takes, drained}
use elbot.Signal.Queue.Promises.{
  queue_bounds, lane_exclusive, no_lost_wakeup, done_iff_drained, waiting_has_worker,
}

abbrev fresh : Queue
fresh = record {
  ready = [];
  lanes = [];
  active = [];
  pending = 0;
  workers = 0;
  finishing = 0;
  capacity = 2;
  concurrency = 1;
  closed = false;
  done_closes = 0;
  wait_for_capacity = false;
  next_job = 0;
  ended = [];
}

abbrev fresh_reached : Reach fresh
unfolding new_queue is_negative
fresh_reached = opened (pos 2) (pos 1) (pos 0) false refl

abbrev first_job : Job
first_job = record { id = 0; key = "a"; shutdown = drain }

abbrev second_job : Job
second_job = record { id = 1; key = "a"; shutdown = cancel_pending }

-- Both jobs wait.
abbrev two_waiting : Queue
two_waiting = record fresh {
  ready = "a" ∷ [];
  lanes = ("a", record { jobs = first_job ∷ second_job ∷ []; active = 0 }) ∷ [];
  pending = 2;
  workers = 1;
  next_job = 2;
}

two_waiting-submits :
    (submit "a" cancel_pending false (submit "a" drain false fresh).0).0 ≡ two_waiting
unfolding submit enqueue push_job make_ready start_workers count_ready lane_at runnable vacant
    has_key insert lookup
two_waiting-submits = refl

two_waiting_reached : Reach two_waiting
unfolding submit enqueue push_job make_ready start_workers count_ready lane_at runnable vacant
    has_key insert lookup
two_waiting_reached =
    later (later fresh_reached (submits "a" drain false)) (submits "a" cancel_pending false)

submit_full : (submit "b" drain false two_waiting).1 ≡ refused queue_full
unfolding submit
submit_full = refl

-- The second job waits for the first, and the lane is not ready meanwhile.
abbrev one_running : Queue
one_running = record two_waiting {
  ready = [];
  lanes = ("a", record { jobs = second_job ∷ []; active = 1 }) ∷ [];
  active = first_job ∷ [];
  pending = 1;
}

one_running_reached : Reach one_running
unfolding take_job take_ready take_first start_job remove_pending unqueue make_ready lane_at
    runnable vacant has_key remove_key remove_job insert lookup
one_running_reached = later two_waiting_reached (takes (omega arith) refl)

-- Closing cancels the waiting job; the running one drains.
begin_stop_one : (begin_stop false one_running).1 ≡ 1
unfolding begin_stop stop_lanes stop_lane remove_pending unqueue make_ready lane_at runnable vacant
    has_key remove_key remove_job insert lookup
begin_stop_one = refl

queue_bounds_example :
    (one_running.pending ≤ one_running.capacity)
    × (one_running.pending ≡ weigh jobs_of one_running.lanes)
    × (length one_running.active ≤ one_running.workers)
    × (one_running.workers ≤ one_running.concurrency)
queue_bounds_example = queue_bounds one_running_reached

lane_exclusive_example : active_of "a" one_running.active ≤ 1
lane_exclusive_example = lane_exclusive "a" one_running_reached refl

no_lost_wakeup_example :
    (count_of "a" two_waiting.ready ≡ 1)
    × ((two_waiting.workers ≡ two_waiting.concurrency)
        ⊎ (length two_waiting.active < two_waiting.workers))
unfolding lane_at lookup active_of
no_lost_wakeup_example = no_lost_wakeup "a" two_waiting_reached refl refl

done_iff_drained_example : one_running.done_closes ≡ bit (drained one_running)
done_iff_drained_example = done_iff_drained one_running_reached

waiting_has_worker_example : fresh.pending ≡ 0
waiting_has_worker_example = waiting_has_worker fresh_reached refl
