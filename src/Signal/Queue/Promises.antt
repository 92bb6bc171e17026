-- ===== src/Signal/Queue/Promises.antt =====
-- What the queue promises, in every interleaving (internal/signal/queue.go).
use elbot.Base.{
  ℕ, suc, ◌≤◌, ◌<◌, ◌≡◌, ◌⊎◌, refl, sym, ap, ◌∙◌, subst, String, Bool, true, false, ◌||◌, Option,
  none, some, List, [], ◌∷◌, if◌then◌else◌, str_eq, eq_iff, eq_refl, length, ◌==◌, Entries,
  is_empty, Bool-cases, inl, inr, arith, All,
}
use elbot.Signal.Queue.{
  Job, Lane, Queue, lane_at, runnable, unqueue, start_job, make_ready, remove_pending, take_job,
  take_ready, take_first,
}
use elbot.Signal.Queue.View.{count_of, keyed, bit}
use elbot.Base.{ℤ, is_zero, pos_part, pos, negsuc, if_elim, Distinct, lookup, weigh}
use elbot.Signal.Queue.{new_queue, is_negative}
use elbot.Signal.Queue.Ready.{Ascending, jobs_of, active_of}
use elbot.Signal.Queue.Invariant.{work}
use elbot.Signal.Queue.Runs.{
  Step, Reach, opened, later, submits, resumes, takes, retires, completes, cancels, ends, stops,
  drained, Good, submit-Good, resume-Good, complete-Good, retire-Good, end_finish-Good,
  begin_cancel-Good, begin_stop-Good, take-Good,
}

abbrev WhenSome : (Queue → Type 0) → Option Queue → Type 0
WhenSome P none = Unit
WhenSome P (some q) = P q

launchable : (c : ℤ) → is_negative c ≡ false → 0 < (if is_zero c then 1 else pos_part c)
unfolding is_negative
launchable (pos n) h = ground arith
launchable (negsuc n) h = ground arith

fresh-Good :
    (capacity concurrency : ℕ) (wait : Bool)
    → 0 < concurrency
    → Good (record {
      ready = [];
      lanes = [];
      active = [];
      pending = 0;
      workers = 0;
      finishing = 0;
      capacity = capacity;
      concurrency = concurrency;
      closed = false;
      done_closes = 0;
      wait_for_capacity = wait;
      next_job = 0;
      ended = [];
    })
unfolding drained bit runnable lookup count_of work weigh active_of keyed lane_at
fresh-Good capacity concurrency wait h = record {
  inv = record {
    lanes = record {
      distinct = tt;
      summed = refl;
      lane = λ k. record { own = tt; ascending = tt; counted = refl; single = ground arith };
    };
    listed = λ k. refl;
    load = record {
      bounded = omega arith;
      busy = omega arith;
      capped = omega arith;
      served = inr (omega arith);
    };
  };
  done = refl;
  some_worker = h;
}

new_queue-Good :
    (capacity concurrency timeout : ℤ) (wait : Bool)
    → WhenSome Good (new_queue capacity concurrency timeout wait)
unfolding new_queue
new_queue-Good capacity concurrency timeout wait =
    if_elim (WhenSome Good) (is_negative capacity || is_negative concurrency || is_negative timeout)
      _ _ (λ y. tt) λ n. fresh-Good _ _ wait (launchable concurrency (ground (arith, n)))

step-Good : {q r : Queue} → Step q r → Good q → Good r
step-Good {q} (submits k s e) g = submit-Good k s e q g
step-Good {q} (resumes k s e) g = resume-Good k s e q g
step-Good {q} (takes a r) g = take-Good q a r g
step-Good {q} (retires a r) g = retire-Good q a r g
step-Good {q} (completes j e) g = complete-Good j q e g
step-Good {q} (cancels j) g = begin_cancel-Good j q g
step-Good {q} (ends n h) g = end_finish-Good n q h g
step-Good {q} (stops all) g = begin_stop-Good all q g

reach-Good : {q : Queue} → Reach q → Good q
reach-Good (opened c n t w {q} e) = subst (WhenSome Good) e (new_queue-Good c n t w)
reach-Good (later r s) = step-Good s (reach-Good r)

-- In every state that callers and workers can reach, no more jobs wait than the capacity allows, as
-- many as the lanes hold, and no more run than there are workers, nor more workers than allowed.
pub queue_bounds :
    {q : Queue}
    → Reach q
    → (q.pending ≤ q.capacity)
      × (q.pending ≡ weigh jobs_of q.lanes)
      × (length q.active ≤ q.workers)
      × (q.workers ≤ q.concurrency)
queue_bounds r =
    let g = reach-Good r in
    (g.inv.load.bounded, g.inv.lanes.summed, g.inv.load.busy, g.inv.load.capped)

-- In every reachable state at most one job of a key runs, the nil key aside.
pub lane_exclusive :
    {q : Queue} (k : String) → Reach q → str_eq k "" ≡ false → active_of k q.active ≤ 1
lane_exclusive {q} k r n =
    let ok = (reach-Good r).inv.lanes.lane k in
    let one : (lane_at k q.lanes).active ≤ 1 =
      subst (λ b. (if b then 0 else (lane_at k q.lanes).active) ≤ 1) n ok.single in
    subst (λ x. x ≤ 1) ok.counted one

nonempty_length : (js : List Job) → is_empty js ≡ false → 1 ≤ length js
nonempty_length [] h = ground arith
nonempty_length (j ∷ js) h = omega arith

count_of-le-keyed : (k : String) (r : List String) → str_eq k "" ≡ false → count_of k r ≤ keyed r
unfolding count_of keyed
count_of-le-keyed k [] n = omega arith
count_of-le-keyed k (j ∷ r) n = ground (arith, eq_iff j k, count_of-le-keyed k r)

-- In every reachable state a lane whose job could run now, as one waits and the key's job is not
-- running, stands in the ready list, and a worker is free to take it unless all are launched.
pub no_lost_wakeup :
    {q : Queue} (k : String)
    → Reach q
    → is_empty (lane_at k q.lanes).jobs ≡ false
    → (str_eq k "" || active_of k q.active == 0) ≡ true
    → (count_of k q.ready ≡ 1) × ((q.workers ≡ q.concurrency) ⊎ (length q.active < q.workers))
unfolding runnable bit work
no_lost_wakeup {q} k r w f =
    let g = reach-Good r in
    let ok = g.inv.lanes.lane k in
    let listed : count_of k q.ready ≡ 1 = ground (arith, g.inv.listed k, ok.counted, w, f) in
    (
      listed,
      elim g.inv.load.served [
        | inl s ↦ inl s
        | inr s ↦ elim (Bool-cases (str_eq k "")) [
          | inl n ↦ inr (
              omega (
                arith,
                s,
                nonempty_length (lane_at k q.lanes).jobs w,
                ap (λ x. length (lane_at x q.lanes).jobs) ((eq_iff k "").0 n),
              ))
          | inr d ↦ inr (omega (arith, s, listed, count_of-le-keyed k q.ready d))
        ]
      ],
    )

-- The done channel is closed exactly when the queue is closed and nothing waits, runs or is being
-- finished, and it is closed once.
pub done_iff_drained : {q : Queue} → Reach q → q.done_closes ≡ bit (drained q)
done_iff_drained r = (reach-Good r).done

empty_jobs : (js : List Job) → is_empty js ≡ true → length js ≡ 0
empty_jobs [] h = refl
empty_jobs (j ∷ js) h = ground arith

abbrev lane_of : Option Lane → Lane
lane_of o = elim o [ none ↦ record { jobs = []; active = 0 } | some l ↦ l ]

-- A lane further on in the map.
later_empty :
    (k i : String) (l : Lane) (rest : Entries Lane)
    → lookup k rest ≡ none
    → is_empty (lane_of (if str_eq k i then some l else lookup i rest)).jobs ≡ true
    → is_empty (lane_at i rest).jobs ≡ true
unfolding lane_at
later_empty k i l rest d h = elim (Bool-cases (str_eq k i)) [
  | inl y ↦
      let gone : lookup i rest ≡ none = ap (λ x. lookup x rest) (sym ((eq_iff k i).0 y)) ∙ d in
      ap (λ o. is_empty (lane_of o).jobs) gone
  | inr n ↦ subst (λ b. is_empty (lane_of (if b then some l else lookup i rest)).jobs ≡ true) n h
]

weigh_zero :
    (lanes : Entries Lane)
    → Distinct lanes
    → ((k : String) → is_empty (lane_at k lanes).jobs ≡ true)
    → weigh jobs_of lanes ≡ 0
unfolding weigh lane_at lookup
weigh_zero [] d h = refl
weigh_zero ((k, l) ∷ rest) d h = omega (
  arith,
  empty_jobs l.jobs (
      subst (λ b. is_empty (lane_of (if b then some l else lookup k rest)).jobs ≡ true) (eq_refl k)
        (h k)),
  weigh_zero rest d.1 (λ i. later_empty k i l rest d.0 (h i)),
)

none_active : (k : String) (js : List Job) → length js ≡ 0 → active_of k js ≡ 0
unfolding active_of
none_active k [] h = refl
none_active k (j ∷ js) h = absurd (omega arith)

nothing_waits :
    {q : Queue} (k : String) (b : Bool)
    → Reach q
    → q.workers ≡ 0
    → length q.active ≡ 0
    → 0 < q.concurrency
    → is_empty (lane_at k q.lanes).jobs ≡ b
    → b ≡ true
nothing_waits k true r w a c e = refl
nothing_waits {q} k false r w a c e =
    let free : (str_eq k "" || active_of k q.active == 0) ≡ true =
      ground (arith, none_active k q.active a) in
    elim (no_lost_wakeup k r e free).1 [
      | inl s ↦ absurd (omega (arith, s))
      | inr s ↦ absurd (omega (arith, s))
    ]

-- A queue with a waiting job has a worker, so a closed queue is not stuck with jobs left.
pub waiting_has_worker : {q : Queue} → Reach q → q.workers ≡ 0 → q.pending ≡ 0
waiting_has_worker {q} r w =
    let g = reach-Good r in
    let idle : length q.active ≡ 0 = omega (arith, g.inv.load.busy) in
    g.inv.lanes.summed
    ∙ weigh_zero q.lanes g.inv.lanes.distinct
        λ k. nothing_waits k (is_empty (lane_at k q.lanes).jobs) r w idle g.some_worker refl

Ascending-above :
    (n lo : ℕ) (js : List Job) → n < lo → Ascending lo js → All (λ (i : Job). n < i.id) js
Ascending-above n lo [] h a = tt
Ascending-above n lo (i ∷ js) h a =
    (omega (arith, a.0), Ascending-above n (suc i.id) js (omega (arith, a.0)) a.1)

-- A worker that takes a job takes the oldest of the first ready lane.
pub oldest_first :
    {q : Queue} (k : String) (rest : List String) (j : Job) (js : List Job)
    → Reach q
    → q.ready ≡ k ∷ rest
    → (lane_at k q.lanes).jobs ≡ j ∷ js
    → ((take_job q).active ≡ j ∷ q.active) × All (λ (i : Job). j.id < i.id) js
unfolding take_job take_ready take_first remove_pending unqueue start_job make_ready
oldest_first {q} k rest j js r e f = (
  ap (λ x. (take_ready x q).active) e ∙ ap (λ x. (take_first k x q).active) f,
  Ascending-above j.id (suc j.id) js (omega arith)
      (subst (λ x. Ascending 0 x) f ((reach-Good r).inv.lanes.lane k).ascending).1,
)
