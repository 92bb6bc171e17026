-- ===== src/Signal/Queue/Stopping.antt =====
-- stop removes the waiting jobs lane by lane (internal/signal/queue.go).
use elbot.Base.{
  ℕ, suc, ◌+◌, ◌≤◌, ◌<◌, ◌≡◌, refl, sym, ap, ◌∙◌, subst, String, Bool, true, false, ◌||◌, none,
  some, List, [], ◌∷◌, if◌then◌else◌, str_eq, eq_iff, eq_refl, ◌==◌, ==_iff, Entries, Bool-cases,
  inl, inr, arith, All,
}
use elbot.Signal.Queue.{
  Job, Lane, Queue, lane_at, remove_job, has_job, unqueue, make_ready, remove_pending,
}
use elbot.Signal.Queue.Ready.{make_ready-lane}
use elbot.Signal.Queue.Steps.{unqueue-Lanes, length-remove_job, lane_le}
use elbot.Signal.Queue.{stop_lane, stop_lanes, is_cancel_pending}
use elbot.Base.{none}
use elbot.Signal.Queue.Ready.{Ascending}
use elbot.Signal.Queue.Invariant.{Inv, unqueue-lane, remove_pending-Inv}
use elbot.Signal.Queue.Sections.{adjust, adjust-Inv}
use elbot.Base.{Distinct, lookup}

-- What removing jobs leaves as it was; `n` and `m` are the counts of the removed ones.
pub record Removed (q : Queue) (n : ℕ) (r : Queue) (m : ℕ) : Type 0 where
  pub inv : Inv r
  pub counted : r.pending + m ≡ q.pending + n
  pub workers : r.workers ≡ q.workers
  pub finishing : r.finishing ≡ q.finishing
  pub closed : r.closed ≡ q.closed
  pub done_closes : r.done_closes ≡ q.done_closes
  pub concurrency : r.concurrency ≡ q.concurrency

-- A removal, logged.
drop_job : Job → Queue → Queue
unfolding remove_pending
drop_job j q = let s = remove_pending j q in record s { ended = j.id ∷ s.ended }

pub pending_pos :
    (j : Job) (q : Queue) → Inv q → has_job j.id (lane_at j.key q.lanes).jobs ≡ true → 1 ≤ q.pending
pending_pos j q v h =
    omega (arith, lane_le j.key q v.lanes, length-remove_job j.id (lane_at j.key q.lanes).jobs h)

-- What the inner loop makes of one job.
abbrev visited : Bool → Job → Queue → ℕ → Queue × ℕ
unfolding drop_job
visited b j q n = if b then (drop_job j q, n + 1) else (q, n)

drop_job-Inv :
    (j : Job) (q : Queue)
    → has_job j.id (lane_at j.key q.lanes).jobs ≡ true
    → Inv q
    → Inv (drop_job j q)
unfolding drop_job adjust
drop_job-Inv j q h v =
    let s = remove_pending j q in
    adjust-Inv s s.done_closes s.finishing s.closed (j.id ∷ s.ended) (remove_pending-Inv j q h v)

drop_job-lane :
    (j : Job) (k : String) (q : Queue)
    → Inv q
    → has_job j.id (lane_at j.key q.lanes).jobs ≡ true
    → (lane_at k (drop_job j q).lanes).jobs ≡ (
        if str_eq j.key k
        then remove_job j.id (lane_at j.key q.lanes).jobs
        else (lane_at k q.lanes).jobs)
unfolding drop_job remove_pending
drop_job-lane j k q v h =
    ap (λ (l : Lane). l.jobs)
      (make_ready-lane j.key k (unqueue j q) (unqueue-Lanes j q h v.lanes).distinct
        ∙ unqueue-lane j k q)
    ∙ split (str_eq j.key k)
  where
    split :
        (b : Bool)
        → (if b
            then record {
              jobs = remove_job j.id (lane_at j.key q.lanes).jobs;
              active = (lane_at j.key q.lanes).active;
            }
            else lane_at k q.lanes).jobs
          ≡ (if b then remove_job j.id (lane_at j.key q.lanes).jobs else (lane_at k q.lanes).jobs)
    split true = refl
    split false = refl

has_job-remove_job :
    (i id : ℕ) (js : List Job) → (id == i) ≡ false → has_job i (remove_job id js) ≡ has_job i js
unfolding has_job remove_job
has_job-remove_job i id [] n = refl
has_job-remove_job i id (j ∷ js) n = elim (Bool-cases (j.id == id)) [
  | inl y ↦ rw y (ground (arith, ==_iff j.id id, ==_iff id i, ==_iff j.id i))
  | inr z ↦ rw z (ap (λ b. j.id == i || b) (has_job-remove_job i id js n))
]

-- The jobs that the loop still has to see wait in the lane.
abbrev Waiting : String → List Job → Queue → Type 0
Waiting k js q = All (λ (j : Job). (j.key ≡ k) × (has_job j.id (lane_at k q.lanes).jobs ≡ true)) js

Waiting-drop :
    (k : String) (lo : ℕ) (j : Job) (js : List Job) (q : Queue)
    → Inv q
    → j.key ≡ k
    → has_job j.id (lane_at j.key q.lanes).jobs ≡ true
    → j.id < lo
    → Ascending lo js
    → Waiting k js q
    → Waiting k js (drop_job j q)
Waiting-drop k lo j [] q v e h b a w = tt
Waiting-drop k lo j (i ∷ js) q v e h b a w = (
  (
    w.0.0,
    ap (has_job i.id) (drop_job-lane j k q v h ∙ rw (e, eq_refl k) refl)
        ∙ (has_job-remove_job i.id j.id (lane_at k q.lanes).jobs (ground (arith, a.0)) ∙ w.0.1),
  ),
  Waiting-drop k (suc i.id) j js q v e h (omega (arith, a.0)) a.1 w.1,
)

stop_lane-Removed :
    (all : Bool) (k : String) (lo : ℕ) (js : List Job) (q : Queue) (n : ℕ)
    → Inv q
    → Ascending lo js
    → Waiting k js q
    → Removed q n (stop_lane all js (q, n)).0 (stop_lane all js (q, n)).1
unfolding stop_lane drop_job remove_pending unqueue make_ready
stop_lane-Removed all k lo [] q n v a w = record {
  inv = v;
  counted = refl;
  workers = refl;
  finishing = refl;
  closed = refl;
  done_closes = refl;
  concurrency = refl;
}
stop_lane-Removed all k lo (j ∷ js) q n v a w =
    elim (Bool-cases (all || is_cancel_pending j.shutdown)) [
      | inl y ↦
          let h : has_job j.id (lane_at j.key q.lanes).jobs ≡ true =
            ap (λ x. has_job j.id (lane_at x q.lanes).jobs) w.0.0 ∙ w.0.1 in
          let r =
            stop_lane-Removed all k (suc j.id) js (drop_job j q) (n + 1) (drop_job-Inv j q h v) a.1
              (Waiting-drop k (suc j.id) j js q v w.0.0 h (omega arith) a.1 w.1) in
          subst
            (λ b.
              Removed q n (stop_lane all js (visited b j q n)).0
                (stop_lane all js (visited b j q n)).1)
            (sym y)
            (record {
              inv = r.inv;
              counted = omega (arith, r.counted, pending_pos j q v h);
              workers = r.workers;
              finishing = r.finishing;
              closed = r.closed;
              done_closes = r.done_closes;
              concurrency = r.concurrency;
            })
      | inr z ↦
          subst
            (λ b.
              Removed q n (stop_lane all js (visited b j q n)).0
                (stop_lane all js (visited b j q n)).1)
            (sym z) (stop_lane-Removed all k (suc j.id) js q n v a.1 w.1)
    ]

-- The lanes of the other keys are not concerned.
stop_lane-others :
    (all : Bool) (k i : String) (lo : ℕ) (js : List Job) (q : Queue) (n : ℕ)
    → str_eq k i ≡ false
    → Inv q
    → Ascending lo js
    → Waiting k js q
    → (lane_at i (stop_lane all js (q, n)).0.lanes).jobs ≡ (lane_at i q.lanes).jobs
unfolding stop_lane drop_job
stop_lane-others all k i lo [] q n d v a w = refl
stop_lane-others all k i lo (j ∷ js) q n d v a w =
    elim (Bool-cases (all || is_cancel_pending j.shutdown)) [
      | inl y ↦
          let h : has_job j.id (lane_at j.key q.lanes).jobs ≡ true =
            ap (λ x. has_job j.id (lane_at x q.lanes).jobs) w.0.0 ∙ w.0.1 in
          let ih =
            stop_lane-others all k i (suc j.id) js (drop_job j q) (n + 1) d (drop_job-Inv j q h v)
              a.1 (Waiting-drop k (suc j.id) j js q v w.0.0 h (omega arith) a.1 w.1) in
          subst
            (λ b.
              (lane_at i (stop_lane all js (visited b j q n)).0.lanes).jobs
              ≡ (lane_at i q.lanes).jobs)
            (sym y) (ih ∙ (drop_job-lane j i q v h ∙ rw (w.0.0, d) refl))
      | inr z ↦
          subst
            (λ b.
              (lane_at i (stop_lane all js (visited b j q n)).0.lanes).jobs
              ≡ (lane_at i q.lanes).jobs)
            (sym z) (stop_lane-others all k i (suc j.id) js q n d v a.1 w.1)
    ]

-- The lanes that the outer loop still has to see are as in its snapshot.
abbrev Unmoved : Entries Lane → Queue → Type 0
Unmoved [] q = Unit
Unmoved ((k, l) ∷ rest) q = ((lane_at k q.lanes).jobs ≡ l.jobs) × Unmoved rest q

abbrev Fresh : String → Entries Lane → Type 0
Fresh k [] = Unit
Fresh k ((i, l) ∷ rest) = (str_eq k i ≡ false) × Fresh k rest

lookup-Fresh : (k : String) (entries : Entries Lane) → lookup k entries ≡ none → Fresh k entries
unfolding lookup
lookup-Fresh k [] e = tt
lookup-Fresh k ((i, l) ∷ rest) e =
    (ground (arith, eq_iff k i, eq_iff i k), lookup-Fresh k rest (ground (arith, e)))

own-Waiting :
    (k : String) (next : ℕ) (js ls : List Job) (q : Queue)
    → (lane_at k q.lanes).jobs ≡ ls
    → ((id : ℕ) → has_job id js ≡ true → has_job id ls ≡ true)
    → All (λ (j : Job). (j.key ≡ k) × (j.id < next)) js
    → Waiting k js q
unfolding has_job
own-Waiting k next [] ls q e sub o = tt
own-Waiting k next (j ∷ js) ls q e sub o = (
  (o.0.0, ap (has_job j.id) e ∙ sub j.id (ground (arith, ==_iff j.id j.id))),
  own-Waiting k next js ls q e (λ id h. sub id (ground (arith, h))) o.1,
)

Unmoved-stop_lane :
    (all : Bool) (k : String) (js : List Job) (entries : Entries Lane) (q : Queue) (n : ℕ)
    → Inv q
    → Ascending 0 js
    → Waiting k js q
    → Fresh k entries
    → Unmoved entries q
    → Unmoved entries (stop_lane all js (q, n)).0
Unmoved-stop_lane all k js [] q n v a w f s = tt
Unmoved-stop_lane all k js ((i, l) ∷ rest) q n v a w f s = (
  stop_lane-others all k i 0 js q n f.0 v a w ∙ s.0,
  Unmoved-stop_lane all k js rest q n v a w f.1 s.1,
)

pub stop_lanes-Removed :
    (all : Bool) (entries : Entries Lane) (q : Queue) (n : ℕ)
    → Distinct entries
    → Unmoved entries q
    → Inv q
    → Removed q n (stop_lanes all entries (q, n)).0 (stop_lanes all entries (q, n)).1
unfolding stop_lanes
stop_lanes-Removed all [] q n d s v = record {
  inv = v;
  counted = refl;
  workers = refl;
  finishing = refl;
  closed = refl;
  done_closes = refl;
  concurrency = refl;
}
stop_lanes-Removed all ((k, l) ∷ rest) q n d s v =
    let ok = v.lanes.lane k in
    let own = subst (λ js. All (λ (j : Job). (j.key ≡ k) × (j.id < q.next_job)) js) s.0 ok.own in
    let asc = subst (λ js. Ascending 0 js) s.0 ok.ascending in
    let wait = own-Waiting k q.next_job l.jobs l.jobs q s.0 (λ id h. h) own in
    let one = stop_lane-Removed all k 0 l.jobs q n v asc wait in
    let more =
      stop_lanes-Removed all rest (stop_lane all l.jobs (q, n)).0 (stop_lane all l.jobs (q, n)).1
        d.1 (Unmoved-stop_lane all k l.jobs rest q n v asc wait (lookup-Fresh k rest d.0) s.1)
        one.inv in
    record {
      inv = more.inv;
      counted = more.counted ∙ one.counted;
      workers = more.workers ∙ one.workers;
      finishing = more.finishing ∙ one.finishing;
      closed = more.closed ∙ one.closed;
      done_closes = more.done_closes ∙ one.done_closes;
      concurrency = more.concurrency ∙ one.concurrency;
    }

-- The map is its own snapshot.
pub lanes-Unmoved : (q : Queue) → Distinct q.lanes → Unmoved q.lanes q
unfolding lookup lane_at
lanes-Unmoved q d = part q.lanes d (λ k l e. rw (e, lane_at) refl)
  where
    part :
        (entries : Entries Lane)
        → Distinct entries
        → ((k : String) (l : Lane) → lookup k entries ≡ some l → (lane_at k q.lanes).jobs ≡ l.jobs)
        → Unmoved entries q
    part [] d f = tt
    part ((k, l) ∷ rest) d f = (
      f k l (rw (eq_refl k) refl),
      part rest d.1 (λ i m e. f i m (ground (arith, eq_iff k i, d.0, e))),
    )
