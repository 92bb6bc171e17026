-- ===== src/Signal/Queue/Invariant.antt =====
-- The queue's invariant, kept by every section under the mutex (internal/signal/queue.go).
use elbot.Base.{
  ℕ, ◌+◌, ◌*◌, ◌≤◌, ◌≡◌, ◌⊎◌, refl, ap, ◌∙◌, String, true, false, not, ◌&&◌, List, [], ◌∷◌,
  if◌then◌else◌, str_eq, eq_iff, eq_refl, length, ◌==◌, ltb, Entries, is_empty, Bool-cases, inl,
  inr, arith,
}
use elbot.Signal.Queue.{
  Job, Lane, Queue, lane_at, runnable, has_key, remove_key, remove_job, has_job, unqueue,
  make_ready, remove_pending, count_ready,
}
use elbot.Signal.Queue.View.{
  lane_at-insert, count_of, keyed, bit, count_of-has_key, keyed-append, keyed-remove_key,
  remove_key_absent,
}
use elbot.Signal.Queue.Ready.{
  Lanes, Listed, Listed-Unlisted, make_ready-Lanes, make_ready-Listed, make_ready-lane,
}
use elbot.Signal.Queue.Steps.{unqueue-Lanes, unqueue-Unlisted, remaining}

-- The jobs that a worker could take: one of each keyed lane that is ready, and all of the nil lane.
unfoldable pub work : Queue → ℕ
work q = keyed q.ready + length (lane_at "" q.lanes).jobs

-- Nothing runs beyond its bound, and no job that could run lacks a worker: either all
-- workers are launched, or as many idle ones as there is work.
pub record Load (q : Queue) : Type 0 where
  pub bounded : q.pending ≤ q.capacity
  pub busy : length q.active ≤ q.workers
  pub capped : q.workers ≤ q.concurrency
  pub served : (q.workers ≡ q.concurrency) ⊎ (work q + length q.active ≤ q.workers)

pub record Inv (q : Queue) : Type 0 where
  pub lanes : Lanes q
  pub listed : Listed q
  pub load : Load q

-- makeReady adds a keyed lane at most once.
keyed-make_ready :
    (key : String) (q : Queue)
    → keyed (make_ready key q).ready
      ≡ keyed q.ready
        + (if runnable key (lane_at key q.lanes) && not (has_key key q.ready)
            then (if str_eq key "" then 0 else 1)
            else 0)
unfolding make_ready
keyed-make_ready key q =
    elim (Bool-cases (runnable key (lane_at key q.lanes) && not (has_key key q.ready))) [
      | inl y ↦ rw y (keyed-append key q.ready)
      | inr n ↦ rw n (omega arith)
    ]

nil_jobs-make_ready :
    (key : String) (q : Queue)
    → Lanes q
    → length (lane_at "" (make_ready key q).lanes).jobs ≡ length (lane_at "" q.lanes).jobs
nil_jobs-make_ready key q v = ap (λ (l : Lane). length l.jobs) (make_ready-lane key "" q v.distinct)

pub keyed-remove_key-le : (key : String) (r : List String) → keyed (remove_key key r) ≤ keyed r
keyed-remove_key-le key r = elim (Bool-cases (has_key key r)) [
  | inl y ↦ omega (arith, keyed-remove_key key r y)
  | inr n ↦ rw (remove_key_absent key r n) (omega arith)
]

-- The lane of a removed job, and whether makeReady lists it again: only if it was listed.
pub unqueue-lane :
    (j : Job) (k : String) (q : Queue)
    → lane_at k (unqueue j q).lanes ≡ (
        if str_eq j.key k
        then record {
          jobs = remove_job j.id (lane_at j.key q.lanes).jobs;
          active = (lane_at j.key q.lanes).active;
        }
        else lane_at k q.lanes)
unfolding unqueue
unqueue-lane j k q = lane_at-insert k j.key _ q.lanes

not_added :
    (j : Job) (q : Queue)
    → Listed q
    → (runnable j.key (lane_at j.key (unqueue j q).lanes)
        && not (has_key j.key (unqueue j q).ready))
      ≡ false
unfolding unqueue runnable bit
not_added j q h =
    let e : lane_at j.key (unqueue j q).lanes ≡ record {
      jobs = remove_job j.id (lane_at j.key q.lanes).jobs;
      active = (lane_at j.key q.lanes).active;
    } =
      lane_at-insert j.key j.key _ q.lanes ∙ rw (eq_refl j.key) refl in
    rw e cases
  where
    cases :
        (runnable j.key (record {
          jobs = remove_job j.id (lane_at j.key q.lanes).jobs;
          active = (lane_at j.key q.lanes).active;
        })
          && not (has_key j.key (unqueue j q).ready))
        ≡ false
    cases = elim (Bool-cases (is_empty (remove_job j.id (lane_at j.key q.lanes).jobs))) [
      | inl y ↦ rw y (ground arith)
      | inr z ↦ rw z (
          ground (
            arith,
            h j.key,
            remaining j.id (lane_at j.key q.lanes).jobs z,
            count_of-has_key j.key q.ready,
          ))
    ]

-- What makeReady adds to the work.
pub make_ready-work :
    (key : String) (q : Queue)
    → Lanes q
    → work (make_ready key q)
      ≡ work q
        + (if runnable key (lane_at key q.lanes) && not (has_key key q.ready)
            then (if str_eq key "" then 0 else 1)
            else 0)
unfolding work
make_ready-work key q v = omega (arith, keyed-make_ready key q, nil_jobs-make_ready key q v)

pub make_ready-same_work :
    (key : String) (q : Queue)
    → Lanes q
    → (runnable key (lane_at key q.lanes) && not (has_key key q.ready)) ≡ false
    → work (make_ready key q) ≡ work q
make_ready-same_work key q v n =
    make_ready-work key q v
    ∙ (ap (λ b. work q + (if b then (if str_eq key "" then 0 else 1) else 0)) n ∙ omega arith)

length-remove_job-le : (id : ℕ) (js : List Job) → length (remove_job id js) ≤ length js
unfolding remove_job
length-remove_job-le id [] = omega arith
length-remove_job-le id (j ∷ js) = elim (Bool-cases (j.id == id)) [
  | inl y ↦ rw y (omega arith)
  | inr n ↦ rw n (omega (arith, length-remove_job-le id js))
]

pub unqueue-work : (j : Job) (q : Queue) → work (unqueue j q) ≤ work q
unfolding work unqueue
unqueue-work j q = omega (arith, unqueue-keyed, nil_jobs)
  where
    unqueue-keyed : keyed (unqueue j q).ready ≤ keyed q.ready
    unqueue-keyed = elim (Bool-cases (is_empty (remove_job j.id (lane_at j.key q.lanes).jobs))) [
      | inl y ↦ rw y (keyed-remove_key-le j.key q.ready)
      | inr n ↦ rw n (omega arith)
    ]

    nil_jobs : length (lane_at "" (unqueue j q).lanes).jobs ≤ length (lane_at "" q.lanes).jobs
    nil_jobs = elim (Bool-cases (str_eq j.key "")) [
      | inl y ↦
          let own : lane_at j.key q.lanes ≡ lane_at "" q.lanes =
            ap (λ k. lane_at k q.lanes) ((eq_iff j.key "").0 y) in
          rw (unqueue-lane j "" q, y)
            (omega (
              arith,
              length-remove_job-le j.id (lane_at j.key q.lanes).jobs,
              ap (λ (l : Lane). length l.jobs) own,
            ))
      | inr n ↦ rw (unqueue-lane j "" q, n) (omega arith)
    ]

-- What a removal leaves to run.
remove_pending-work :
    (j : Job) (q : Queue)
    → has_job j.id (lane_at j.key q.lanes).jobs ≡ true
    → Lanes q
    → Listed q
    → work (remove_pending j q) ≤ work q
unfolding remove_pending
remove_pending-work j q h v l = omega (
  arith,
  make_ready-same_work j.key (unqueue j q) (unqueue-Lanes j q h v) (not_added j q l),
  unqueue-work j q,
)

pub remove_pending-Inv :
    (j : Job) (q : Queue)
    → has_job j.id (lane_at j.key q.lanes).jobs ≡ true
    → Inv q
    → Inv (remove_pending j q)
unfolding remove_pending
remove_pending-Inv j q h v = record {
  lanes = make_ready-Lanes j.key (unqueue j q) (unqueue-Lanes j q h v.lanes);
  listed =
      make_ready-Listed j.key (unqueue j q) (unqueue-Lanes j q h v.lanes).distinct
        (unqueue-Unlisted j q (Listed-Unlisted j.key q v.listed));
  load = record {
    bounded = omega (arith, v.load.bounded);
    busy = v.load.busy;
    capped = v.load.capped;
    served = elim v.load.served [
      | inl f ↦ inl f
      | inr w ↦ inr (omega (arith, w, remove_pending-work j q h v.lanes v.listed))
    ];
  };
}

pub count_ready-total :
    (limit n : ℕ) (lanes : Entries Lane) (r : List String)
    → (count_ready limit n lanes r ≡ n + (keyed r + count_of "" r * length (lane_at "" lanes).jobs))
      ⊎ (limit ≤ count_ready limit n lanes r)
unfolding count_ready keyed count_of
count_ready-total limit n lanes [] = inl (omega arith)
count_ready-total limit n lanes (k ∷ r) = elim (Bool-cases (ltb n limit)) [
  | inl y ↦ elim (Bool-cases (str_eq k "")) [
    | inl e ↦
        let same : k ≡ "" = (eq_iff k "").0 e in
        let ih = count_ready-total limit (n + length (lane_at "" lanes).jobs) lanes r in
        rw (y, e, same) (elim ih [ inl t ↦ inl (t ∙ grind arith) | inr o ↦ inr o ])
    | inr f ↦
        let ih = count_ready-total limit (n + 1) lanes r in
        rw (y, f) (elim ih [ inl t ↦ inl (omega (arith, t)) | inr o ↦ inr o ])
  ]
  | inr z ↦ inr (rw z (ground (arith, z)))
]
