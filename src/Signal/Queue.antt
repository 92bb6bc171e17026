-- ===== src/Signal/Queue.antt =====
-- The scheduling queue of lanes (internal/signal/queue.go).
--
-- A method is one step for each time it holds the mutex: Submit is `submit`, and `resume` after each
-- wait for space; work is `take` or `retire` at the head of its loop and `complete_job` at its end;
-- cancelPending and stop are a `begin` and an `end` around the calls of Finish. A job is its number,
-- and a key its name: "" stands for the nil key. A lane is found by its key, as a job's lane is in the
-- map as long as the job waits or runs; a lane's `ready` is whether its key stands in the ready
-- list. `ended` logs the jobs whose Finish is called, `done_closes` counts `close(q.done)`.
pub mod View
pub mod Ready
pub mod Invariant
pub mod Steps
pub mod Sections
pub mod Stopping
pub mod Runs
pub mod Promises
use elbot.Base.{
  ℕ, zero, suc, ◌+◌, ◌-◌, String, Bool, true, false, not, ◌&&◌, ◌||◌, Option, none, some, List, [],
  ◌∷◌, ◌++◌, if◌then◌else◌, str_eq, lookup, insert, delete, length, ◌==◌, ltb, Entries, is_empty, ℤ,
  pos_part, is_zero, pos, negsuc,
}

pub data Shutdown : Type 0 where
  cancel_pending drain : Shutdown

pub record Job : Type 0 where
  pub id : ℕ
  pub key : String
  pub shutdown : Shutdown

pub record Lane : Type 0 where
  pub jobs : List Job
  pub active : ℕ

pub record Queue : Type 0 where
  pub ready : List String
  pub lanes : Entries Lane
  pub active : List Job
  pub pending : ℕ
  pub workers : ℕ
  pub finishing : ℕ
  pub capacity : ℕ
  pub concurrency : ℕ
  pub closed : Bool
  pub done_closes : ℕ
  pub wait_for_capacity : Bool
  pub next_job : ℕ
  pub ended : List ℕ

pub data Error : Type 0 where
  negative_option queue_full queue_closed context_error admission_error : Error

pub data Submitted : Type 0 where
  accepted waiting : Submitted
  refused : Error → Submitted

unfoldable pub is_negative : ℤ → Bool
is_negative (pos n) = false
is_negative (negsuc n) = true

unfoldable pub new_queue : ℤ → ℤ → ℤ → Bool → Option Queue
unfolding is_negative
new_queue capacity concurrency timeout wait =
    if is_negative capacity || is_negative concurrency || is_negative timeout
    then none
    else some (record {
      ready = [];
      lanes = [];
      active = [];
      pending = 0;
      workers = 0;
      finishing = 0;
      capacity = if is_zero capacity then 256 else pos_part capacity;
      concurrency = if is_zero concurrency then 1 else pos_part concurrency;
      closed = false;
      done_closes = 0;
      wait_for_capacity = wait;
      next_job = 0;
      ended = [];
    })

unfoldable pub has_key : String → List String → Bool
has_key k [] = false
has_key k (j ∷ rest) = str_eq j k || has_key k rest

unfoldable pub remove_key : String → List String → List String
remove_key k [] = []
remove_key k (j ∷ rest) = if str_eq j k then rest else j ∷ remove_key k rest

unfoldable pub remove_job : ℕ → List Job → List Job
remove_job id [] = []
remove_job id (j ∷ rest) = if j.id == id then rest else j ∷ remove_job id rest

-- The lane of a key; a key without one counts as an empty lane.
unfoldable pub lane_at : String → Entries Lane → Lane
unfolding lookup
lane_at k lanes = elim (lookup k lanes) [ none ↦ record { jobs = []; active = 0 } | some l ↦ l ]

-- The two conditions of makeReady.
unfoldable pub runnable : String → Lane → Bool
runnable k l = not (is_empty l.jobs) && (str_eq k "" || l.active == 0)

unfoldable pub vacant : String → Lane → Bool
vacant k l = not (str_eq k "") && is_empty l.jobs && l.active == 0

unfoldable pub make_ready : String → Queue → Queue
unfolding has_key runnable vacant lane_at delete
make_ready k q = record q {
  ready =
      if runnable k (lane_at k q.lanes) && not (has_key k q.ready)
      then q.ready ++ (k ∷ [])
      else q.ready;
  lanes = if vacant k (lane_at k q.lanes) then delete k q.lanes else q.lanes;
}

-- The count of runnable jobs, `n` with the idle workers added, since it starts at minus their
-- number: `limit` is concurrency - workers with them added too.
unfoldable pub count_ready : ℕ → ℕ → Entries Lane → List String → ℕ
unfolding lane_at
count_ready limit n lanes [] = n
count_ready limit n lanes (k ∷ rest) =
    let more =
      count_ready limit (n + (if str_eq k "" then length (lane_at k lanes).jobs else 1)) lanes
        rest in
    if ltb n limit then more else n

-- `for q.workers < q.concurrency && n > 0`: the workers launched are the fewer of both counts.
unfoldable pub start_workers : Queue → Queue
unfolding count_ready
start_workers q =
    let idle = q.workers - length q.active in
    let room = q.concurrency - q.workers in
    let n = count_ready (room + idle) 0 q.lanes q.ready - idle in
    if q.workers == q.concurrency
    then q
    else record q { workers = q.workers + (if ltb n room then n else room) }

unfoldable pub finish_closed : Queue → Queue
finish_closed q =
    if q.closed && q.workers == 0 && q.pending == 0 && q.finishing == 0 && q.done_closes == 0
    then record q { done_closes = 1 }
    else q

-- The end of Submit: the job joins its lane.
unfoldable pub push_job : String → Shutdown → Queue → Queue
unfolding insert lane_at
push_job k shutdown q =
    let l = lane_at k q.lanes in
    let j : Job = record { id = q.next_job; key = k; shutdown = shutdown } in
    record q {
      lanes = insert k (record { jobs = l.jobs ++ (j ∷ []); active = l.active }) q.lanes;
      pending = q.pending + 1;
      next_job = q.next_job + 1;
    }

unfoldable pub enqueue : String → Shutdown → Queue → Queue
unfolding push_job make_ready start_workers
enqueue k shutdown q = start_workers (make_ready k (push_job k shutdown q))

-- Submit up to its first wait, behind the tests of the task: one without a function, or with a shutdown policy
-- of neither kind, is refused before the mutex is taken.
unfoldable pub submit : String → Shutdown → Bool → Queue → Queue × Submitted
unfolding enqueue
submit k shutdown context_ended q =
    if q.closed
    then (q, refused queue_closed)
    else if context_ended
    then (q, refused context_error)
    else if q.pending == q.capacity
    then (q, if q.wait_for_capacity then waiting else refused queue_full)
    else (enqueue k shutdown q, accepted)

-- Submit from a wait on: the loop's condition, then the two tests after the loop.
unfoldable pub resume : String → Shutdown → Bool → Queue → Queue × Submitted
unfolding enqueue
resume k shutdown admission_ended q =
    if q.pending == q.capacity && not q.closed && not admission_ended
    then (q, waiting)
    else if q.closed
    then (q, refused queue_closed)
    else if admission_ended
    then (q, refused admission_error)
    else (enqueue k shutdown q, accepted)

-- removePending before its makeReady.
unfoldable pub unqueue : Job → Queue → Queue
unfolding insert lane_at remove_job remove_key
unqueue j q =
    let l = lane_at j.key q.lanes in
    let jobs = remove_job j.id l.jobs in
    record q {
      lanes = insert j.key (record { jobs = jobs; active = l.active }) q.lanes;
      pending = q.pending - 1;
      ready = if is_empty jobs then remove_key j.key q.ready else q.ready;
    }

unfoldable pub remove_pending : Job → Queue → Queue
unfolding unqueue make_ready
remove_pending j q = make_ready j.key (unqueue j q)

unfoldable pub has_job : ℕ → List Job → Bool
has_job id [] = false
has_job id (j ∷ rest) = j.id == id || has_job id rest

-- `j.element == nil` says that the job is not in its lane.
unfoldable pub is_pending : Job → Queue → Bool
unfolding has_job lane_at
is_pending j q = has_job j.id (lane_at j.key q.lanes).jobs

-- cancelPending up to the call of Finish, and from there on.
unfoldable pub begin_cancel : Job → Queue → Queue
unfolding remove_pending is_pending
begin_cancel j q =
    if is_pending j q
    then (let r = remove_pending j q in
        record r { finishing = r.finishing + 1; ended = j.id ∷ r.ended })
    else q

-- `q.finishing -= n` after the calls of Finish.
unfoldable pub end_finish : ℕ → Queue → Queue
unfolding finish_closed
end_finish n q = finish_closed (record q { finishing = q.finishing - n })

-- The head of the loop of work when a lane is ready: its first job leaves the lane.
unfoldable pub start_job : String → Job → Queue → Queue
unfolding insert lane_at
start_job k j q =
    let l = lane_at k q.lanes in
    record q {
      ready = remove_key k q.ready;
      lanes = insert k (record { jobs = l.jobs; active = l.active + 1 }) q.lanes;
      active = j ∷ q.active;
    }

unfoldable pub take_first : String → List Job → Queue → Queue
unfolding start_job remove_pending
take_first k [] q = q
take_first k (j ∷ rest) q = remove_pending j (start_job k j q)

unfoldable pub take_ready : List String → Queue → Queue
unfolding take_first lane_at
take_ready [] q = q
take_ready (k ∷ rest) q = take_first k (lane_at k q.lanes).jobs q

unfoldable pub take_job : Queue → Queue
unfolding take_ready
take_job q = take_ready q.ready q

-- The head of the loop of work when no lane is ready.
unfoldable pub retire : Queue → Queue
unfolding finish_closed
retire q = finish_closed (record q { workers = q.workers - 1 })

-- The end of a round of work, after Finish.
unfoldable pub end_job : Job → Queue → Queue
unfolding insert lane_at remove_job
end_job j q =
    let l = lane_at j.key q.lanes in
    record q {
      active = remove_job j.id q.active;
      ended = j.id ∷ q.ended;
      lanes = insert j.key (record { jobs = l.jobs; active = l.active - 1 }) q.lanes;
    }

unfoldable pub complete_job : Job → Queue → Queue
unfolding end_job make_ready
complete_job j q = make_ready j.key (end_job j q)

is_cancel_pending : Shutdown → Bool
is_cancel_pending cancel_pending = true
is_cancel_pending drain = false

-- The inner loop of stop, over the jobs that the lane has at its start; it counts the removed ones.
unfoldable pub stop_lane : Bool → List Job → Queue × ℕ → Queue × ℕ
unfolding remove_pending is_cancel_pending
stop_lane all [] r = r
stop_lane all (j ∷ rest) (q, n) =
    let next : Queue × ℕ =
      if all || is_cancel_pending j.shutdown
      then ((let s = remove_pending j q in record s { ended = j.id ∷ s.ended }), n + 1)
      else (q, n) in
    stop_lane all rest next

unfoldable pub stop_lanes : Bool → Entries Lane → Queue × ℕ → Queue × ℕ
unfolding stop_lane
stop_lanes all [] r = r
stop_lanes all ((k, l) ∷ rest) r = stop_lanes all rest (stop_lane all l.jobs r)

-- stop up to the calls of Finish; the cancels of the running jobs concern their contexts only.
unfoldable pub begin_stop : Bool → Queue → Queue × ℕ
unfolding stop_lanes finish_closed
begin_stop all q =
    let (r, n) = stop_lanes all q.lanes (record q { closed = true }, 0) in
    (finish_closed (record r { finishing = r.finishing + n }), n)
