-- ===== src/Signal/Queue/Sections.antt =====
-- Submit, work and the removals keep the invariant (internal/signal/queue.go).
use elbot.Base.{
  ℕ, ◌+◌, ◌-◌, ◌*◌, ◌≤◌, ◌<◌, ◌≡◌, ◌⊎◌, refl, sym, ap, ◌∙◌, String, Bool, true, false, some, List,
  [], ◌∷◌, if◌then◌else◌, str_eq, eq_iff, eq_refl, length, ◌==◌, ltb, ==_iff, is_empty, Bool-cases,
  inl, inr, arith,
}
use elbot.Signal.Queue.{
  Job, Lane, Queue, lane_at, runnable, has_key, remove_job, has_job, push_job, unqueue, start_job,
  end_job, Shutdown, make_ready, remove_pending, count_ready, start_workers, enqueue, complete_job,
}
use elbot.Signal.Queue.View.{lane_at-insert, count_of, keyed, bit, keyed-remove_key}
use elbot.Signal.Queue.Ready.{Lanes, Listed, make_ready-Lanes, make_ready-Listed}
use elbot.Signal.Queue.Steps.{
  find_job, push-Lanes, push-Unlisted, unqueue-Lanes, unqueue-Unlisted, start-Lanes, start-Unlisted,
  end-Lanes, end-Unlisted, length-remove_job, find_job-has_job,
}
use elbot.Signal.Queue.Invariant.{
  work, Inv, make_ready-work, make_ready-same_work, unqueue-work, unqueue-lane, count_ready-total,
  keyed-remove_key-le,
}

-- A change of the numbers that the lanes do not depend on.
unfoldable pub adjust : Queue → ℕ → ℕ → ℕ → Bool → List ℕ → Queue
adjust q w d f c e = record q { workers = w; done_closes = d; finishing = f; closed = c; ended = e }

pub adjust-Lanes :
    (q : Queue) (w d f : ℕ) (c : Bool) (e : List ℕ) → Lanes q → Lanes (adjust q w d f c e)
unfolding adjust
adjust-Lanes q w d f c e v = record { distinct = v.distinct; summed = v.summed; lane = v.lane }

pub adjust-Inv :
    (q : Queue) (d f : ℕ) (c : Bool) (e : List ℕ) → Inv q → Inv (adjust q q.workers d f c e)
unfolding adjust work
adjust-Inv q d f c e v = record {
  lanes = adjust-Lanes q q.workers d f c e v.lanes;
  listed = v.listed;
  load = record {
    bounded = v.load.bounded;
    busy = v.load.busy;
    capped = v.load.capped;
    served = v.load.served;
  };
}

empty_length : (js : List Job) → is_empty js ≡ true → length js ≡ 0
empty_length [] h = refl
empty_length (j ∷ js) h = ground arith

-- The nil lane is counted in the ready list when it has jobs.
pub nil_total :
    (q : Queue)
    → Listed q
    → count_of "" q.ready * length (lane_at "" q.lanes).jobs ≡ length (lane_at "" q.lanes).jobs
unfolding runnable bit
nil_total q h = elim (Bool-cases (is_empty (lane_at "" q.lanes).jobs)) [
  | inl y ↦ rw (empty_length (lane_at "" q.lanes).jobs y) (grind arith)
  | inr n ↦
      let one : count_of "" q.ready ≡ 1 = ground (arith, h "", n, eq_refl "") in
      rw one (omega arith)
]

-- startWorkers in numbers: `cr` is what the count of the ready jobs gives for a total of `t`.
launched : ℕ → ℕ → ℕ → ℕ → ℕ
launched w c a cr = w + (if ltb (cr - (w - a)) (c - w) then cr - (w - a) else c - w)

launched_le : (w c a cr : ℕ) → w ≤ c → (w ≤ launched w c a cr) × (launched w c a cr ≤ c)
unfolding launched
launched_le w c a cr h = ground arith

launched_enough :
    (w c a cr t : ℕ)
    → a ≤ w
    → w ≤ c
    → (cr ≡ t) ⊎ (c - w + (w - a) ≤ cr)
    → (launched w c a cr ≡ c) ⊎ (t + a ≤ launched w c a cr)
unfolding launched
launched_enough w c a cr t h k d = elim (Bool-cases (ltb (cr - (w - a)) (c - w))) [
  | inl y ↦ rw y (inr (ground (arith, d, y)))
  | inr n ↦ rw n (inl (omega arith))
]

-- The workers that startWorkers launches are enough for the work, or all there may be.
pub start_workers-Inv :
    (q : Queue)
    → Lanes q
    → Listed q
    → q.pending ≤ q.capacity
    → length q.active ≤ q.workers
    → q.workers ≤ q.concurrency
    → Inv (start_workers q)
unfolding start_workers work launched adjust
start_workers-Inv q v l b a c = elim (Bool-cases (q.workers == q.concurrency)) [
  | inl y ↦ rw y (record {
    lanes = v;
    listed = l;
    load = record {
      bounded = b;
      busy = a;
      capped = c;
      served = inl ((==_iff q.workers q.concurrency).0 y);
    };
  })
  | inr n ↦
      let limit = q.concurrency - q.workers + (q.workers - length q.active) in
      let cr = count_ready limit 0 q.lanes q.ready in
      let total : (cr ≡ keyed q.ready + length (lane_at "" q.lanes).jobs) ⊎ (limit ≤ cr) =
        elim (count_ready-total limit 0 q.lanes q.ready) [
          | inl t ↦ inl (omega (arith, t, nil_total q l))
          | inr o ↦ inr o
        ] in
      let le = launched_le q.workers q.concurrency (length q.active) cr c in
      rw n (record {
        lanes =
            adjust-Lanes q (launched q.workers q.concurrency (length q.active) cr) q.done_closes
              q.finishing q.closed q.ended v;
        listed = l;
        load = record {
          bounded = b;
          busy = omega (arith, a, le.0);
          capped = le.1;
          served = launched_enough q.workers q.concurrency (length q.active) cr _ a c total;
        };
      })
]

pub enqueue-Inv :
    (key : String) (s : Shutdown) (q : Queue)
    → q.pending < q.capacity
    → Inv q
    → Inv (enqueue key s q)
unfolding enqueue push_job make_ready
enqueue-Inv key s q h v =
    let p = push-Lanes key s q v.lanes in
    start_workers-Inv (make_ready key (push_job key s q))
      (make_ready-Lanes key (push_job key s q) p)
      (make_ready-Listed key (push_job key s q) p.distinct (push-Unlisted key s q v.listed))
      (omega arith) v.load.busy v.load.capped

start-lane :
    (key k : String) (j : Job) (q : Queue)
    → (lane_at k (start_job key j q).lanes).jobs ≡ (lane_at k q.lanes).jobs
unfolding start_job
start-lane key k j q = elim (Bool-cases (str_eq key k)) [
  | inl y ↦
      rw
        (
          lane_at-insert k key
              (record {
                jobs = (lane_at key q.lanes).jobs;
                active = (lane_at key q.lanes).active + 1;
              })
              q.lanes,
          y,
        )
        (ap (λ x. (lane_at x q.lanes).jobs) ((eq_iff key k).0 y))
  | inr n ↦
      rw
        (
          lane_at-insert k key
              (record {
                jobs = (lane_at key q.lanes).jobs;
                active = (lane_at key q.lanes).active + 1;
              })
              q.lanes,
          n,
        )
        refl
]

start-work :
    (key : String) (j : Job) (q : Queue)
    → has_key key q.ready ≡ true
    → work (start_job key j q) + (if str_eq key "" then 0 else 1) ≡ work q
unfolding work start_job
start-work key j q h = omega (
  arith,
  keyed-remove_key key q.ready h,
  ap (λ (js : List Job). length js) (start-lane key "" j q),
)

-- A job of the nil lane that leaves it is work less.
unqueue-less_work :
    (j : Job) (q : Queue)
    → str_eq j.key "" ≡ true
    → has_job j.id (lane_at j.key q.lanes).jobs ≡ true
    → work (unqueue j q) + 1 ≤ work q
unfolding work unqueue
unqueue-less_work j q n h =
    rw (unqueue-lane j "" q, n)
      (omega (
        arith,
        listed,
        length-remove_job j.id (lane_at j.key q.lanes).jobs h,
        ap (λ x. length (lane_at x q.lanes).jobs) ((eq_iff j.key "").0 n),
      ))
  where
    listed : keyed (unqueue j q).ready ≤ keyed q.ready
    listed = elim (Bool-cases (is_empty (remove_job j.id (lane_at j.key q.lanes).jobs))) [
      | inl y ↦ rw y (keyed-remove_key-le j.key q.ready)
      | inr z ↦ rw z (omega arith)
    ]

start-active :
    (key : String) (j : Job) (q : Queue)
    → (lane_at key (start_job key j q).lanes).active ≡ (lane_at key q.lanes).active + 1
unfolding start_job
start-active key j q =
    rw
      (
        lane_at-insert key key
            (record {
              jobs = (lane_at key q.lanes).jobs;
              active = (lane_at key q.lanes).active + 1;
            })
            q.lanes,
        eq_refl key,
      )
      refl

-- A keyed lane with an active job is not runnable.
started-keyed :
    (j : Job) (q : Queue)
    → str_eq j.key "" ≡ false
    → runnable j.key (lane_at j.key (unqueue j (start_job j.key j q)).lanes) ≡ false
unfolding runnable
started-keyed j q n =
    let s = start_job j.key j q in
    let e = unqueue-lane j j.key s in
    let a : (lane_at j.key (unqueue j s).lanes).active ≡ (lane_at j.key q.lanes).active + 1 =
      ap (λ (l : Lane). l.active) e ∙ (rw (eq_refl j.key) (start-active j.key j q)) in
    rw a (ground (arith, n))

make_ready-nil_work :
    (key : String) (q : Queue) → Lanes q → str_eq key "" ≡ true → work (make_ready key q) ≡ work q
make_ready-nil_work key q v n = make_ready-work key q v ∙ ground (arith, n)

take-work :
    (j : Job) (q : Queue)
    → has_key j.key q.ready ≡ true
    → has_job j.id (lane_at j.key q.lanes).jobs ≡ true
    → Lanes (unqueue j (start_job j.key j q))
    → work (remove_pending j (start_job j.key j q)) + 1 ≤ work q
unfolding remove_pending
take-work j q r h v = elim (Bool-cases (str_eq j.key "")) [
  | inl n ↦
      let hs : has_job j.id (lane_at j.key (start_job j.key j q).lanes).jobs ≡ true =
        ap (has_job j.id) (start-lane j.key j.key j q) ∙ h in
      omega (
        arith,
        make_ready-nil_work j.key (unqueue j (start_job j.key j q)) v n,
        unqueue-less_work j (start_job j.key j q) n hs,
        start-work j.key j q r,
      )
  | inr k ↦
      let one : work (start_job j.key j q) + 1 ≡ work q =
        ap (λ b. work (start_job j.key j q) + (if b then 0 else 1)) (sym k)
        ∙ start-work j.key j q r in
      omega (
        arith,
        make_ready-same_work j.key (unqueue j (start_job j.key j q)) v
            (rw (started-keyed j q k) refl),
        unqueue-work j (start_job j.key j q),
        one,
      )
]

pub take-Inv :
    (j : Job) (q : Queue)
    → runnable j.key (lane_at j.key q.lanes) ≡ true
    → has_key j.key q.ready ≡ true
    → has_job j.id (lane_at j.key q.lanes).jobs ≡ true
    → length q.active < q.workers
    → Inv q
    → Inv (remove_pending j (start_job j.key j q))
unfolding remove_pending start_job unqueue make_ready
take-Inv j q r k h a v =
    let s = start_job j.key j q in
    let vs = start-Lanes j.key j q refl r v.lanes in
    let hs : has_job j.id (lane_at j.key s.lanes).jobs ≡ true =
      ap (has_job j.id) (start-lane j.key j.key j q) ∙ h in
    let vu = unqueue-Lanes j s hs vs in
    record {
      lanes = make_ready-Lanes j.key (unqueue j s) vu;
      listed =
          make_ready-Listed j.key (unqueue j s) vu.distinct
            (unqueue-Unlisted j s (start-Unlisted j.key j q v.listed));
      load = record {
        bounded = omega (arith, v.load.bounded);
        busy = omega (arith, a);
        capped = v.load.capped;
        served = elim v.load.served [
          | inl f ↦ inl f
          | inr w ↦ inr (omega (arith, w, take-work j q k h vu))
        ];
      };
    }

end-work : (j : Job) (q : Queue) → work (end_job j q) ≡ work q
unfolding work end_job
end-work j q = elim (Bool-cases (str_eq j.key "")) [
  | inl y ↦
      rw
        (
          lane_at-insert "" j.key
              (record {
                jobs = (lane_at j.key q.lanes).jobs;
                active = (lane_at j.key q.lanes).active - 1;
              })
              q.lanes,
          y,
        )
        (ap (λ x. keyed q.ready + length (lane_at x q.lanes).jobs) ((eq_iff j.key "").0 y))
  | inr n ↦
      rw
        (
          lane_at-insert "" j.key
              (record {
                jobs = (lane_at j.key q.lanes).jobs;
                active = (lane_at j.key q.lanes).active - 1;
              })
              q.lanes,
          n,
        )
        refl
]

make_ready-work-le : (key : String) (q : Queue) → Lanes q → work (make_ready key q) ≤ work q + 1
make_ready-work-le key q v = ground (arith, make_ready-work key q v)

pub complete-Inv :
    (j : Job) (q : Queue) → find_job j.id q.active ≡ some j → Inv q → Inv (complete_job j q)
unfolding complete_job end_job make_ready
complete-Inv j q e v =
    let ve = end-Lanes j q e v.lanes in
    let fewer = length-remove_job j.id q.active (find_job-has_job j.id q.active j e) in
    record {
      lanes = make_ready-Lanes j.key (end_job j q) ve;
      listed = make_ready-Listed j.key (end_job j q) ve.distinct (end-Unlisted j q v.listed);
      load = record {
        bounded = v.load.bounded;
        busy = omega (arith, v.load.busy, fewer);
        capped = v.load.capped;
        served = elim v.load.served [
          | inl f ↦ inl f
          | inr w ↦
              inr (omega (arith, w, fewer, end-work j q, make_ready-work-le j.key (end_job j q) ve))
        ];
      };
    }
