-- ===== src/Signal/Queue/Runs.antt =====
-- Runs of the queue: callers and workers interleave in any order (internal/signal/queue.go).
use elbot.Base.{
  ℕ, ◌+◌, ◌-◌, ◌*◌, ◌≤◌, ◌<◌, ◌≡◌, refl, sym, ap, ◌∙◌, subst, String, Bool, true, false, not, ◌&&◌,
  some, List, [], ◌∷◌, eq_refl, length, ◌==◌, ==_iff, is_empty, Bool-cases, inl, inr, arith, All,
}
use elbot.Signal.Queue.{
  Job, Queue, lane_at, runnable, has_key, has_job, push_job, unqueue, start_job, end_job, Shutdown,
  make_ready, remove_pending, start_workers, enqueue, finish_closed, take_job, take_ready,
  take_first, complete_job,
}
use elbot.Signal.Queue.View.{count_of, keyed, bit, has_key-count_of}
use elbot.Signal.Queue.Ready.{Listed}
use elbot.Signal.Queue.Steps.{find_job, length-remove_job, find_job-has_job}
use elbot.Base.{ℤ, if_elim}
use elbot.Signal.Queue.{
  new_queue, Submitted, submit, resume, retire, begin_cancel, end_finish, begin_stop, stop_lanes,
  is_pending,
}
use elbot.Signal.Queue.Invariant.{work, Inv, remove_pending-Inv}
use elbot.Signal.Queue.Sections.{
  adjust, adjust-Inv, adjust-Lanes, enqueue-Inv, take-Inv, complete-Inv, nil_total,
}
use elbot.Signal.Queue.Stopping.{stop_lanes-Removed, lanes-Unmoved, pending_pos}

-- What can happen next. A worker at the head of its loop is one of `workers` that runs no job. A
-- return from the calls of Finish takes off at most what is outstanding.
pub data Step (q : Queue) : Queue → Type 0 where
  submits : (k : String) (s : Shutdown) (ended : Bool) → Step q (submit k s ended q).0
  resumes : (k : String) (s : Shutdown) (ended : Bool) → Step q (resume k s ended q).0
  takes : length q.active < q.workers → is_empty q.ready ≡ false → Step q (take_job q)
  retires : length q.active < q.workers → is_empty q.ready ≡ true → Step q (retire q)
  completes : (j : Job) → find_job j.id q.active ≡ some j → Step q (complete_job j q)
  cancels : (j : Job) → Step q (begin_cancel j q)
  ends : (n : ℕ) → n ≤ q.finishing → Step q (end_finish n q)
  stops : (all : Bool) → Step q (begin_stop all q).0

pub data Reach : Queue → Type 0 where
  opened :
      (capacity concurrency timeout : ℤ) (wait : Bool) {q : Queue}
      → new_queue capacity concurrency timeout wait ≡ some q
      → Reach q
  later : {q r : Queue} → Reach q → Step q r → Reach r

-- Closed, and nothing is left.
unfoldable pub drained : Queue → Bool
drained q = q.closed && q.workers == 0 && q.pending == 0 && q.finishing == 0

-- The same of the numbers.
rest : Bool → ℕ → ℕ → ℕ → ℕ
rest c w p f = bit (c && w == 0 && p == 0 && f == 0)

rest_finish : (d : ℕ) (c : Bool) (w p f n : ℕ) → d ≡ rest c w p f → d ≤ rest c w p (f - n)
unfolding rest bit
rest_finish d c w p f n e = ground (arith, ==_iff f 0, ==_iff (f - n) 0)

rest_retire : (d : ℕ) (c : Bool) (w p f : ℕ) → d ≡ rest c w p f → 0 < w → d ≤ rest c (w - 1) p f
unfolding rest bit
rest_retire d c w p f e h = ground arith

rest_busy : (d : ℕ) (c : Bool) (w p f p' f' : ℕ) → d ≡ rest c w p f → 0 < w → d ≡ rest c w p' f'
unfolding rest bit
rest_busy d c w p f p' f' e h = ground arith

rest_cancel : (d : ℕ) (c : Bool) (w p f p' : ℕ) → d ≡ rest c w p f → 1 ≤ p → d ≡ rest c w p' (f + 1)
unfolding rest bit
rest_cancel d c w p f p' e h = ground arith

rest_stop :
    (d : ℕ) (c : Bool) (w p f p' n : ℕ) → d ≡ rest c w p f → p' + n ≡ p → d ≤ rest true w p' (f + n)
unfolding rest bit
rest_stop d c w p f p' n e h = ground arith

rest_open :
    (d : ℕ) (c : Bool) (w p f w' p' f' : ℕ) → c ≡ false → d ≡ rest c w p f → d ≡ rest c w' p' f'
unfolding rest bit
rest_open d c w p f w' p' f' o e = ground arith

rest_le :
    (d : ℕ) (c c' : Bool) (w w' p f f' : ℕ)
    → c ≡ c'
    → w ≡ w'
    → f ≡ f'
    → d ≤ rest c' w' p f'
    → d ≤ rest c w p f
unfolding rest bit
rest_le d c c' w w' p f f' a b e h = ground arith

pub record Good (q : Queue) : Type 0 where
  pub inv : Inv q
  pub done : q.done_closes ≡ bit (drained q)
  pub some_worker : 0 < q.concurrency

finish_closed-Inv : (q : Queue) → Inv q → Inv (finish_closed q)
unfolding finish_closed adjust
finish_closed-Inv q v =
    elim (Bool-cases
      (q.closed && q.workers == 0 && q.pending == 0 && q.finishing == 0 && q.done_closes == 0)) [
        | inl y ↦ rw y (adjust-Inv q 1 q.finishing q.closed q.ended v)
        | inr n ↦ rw n v
      ]

finish_closed-done :
    (q : Queue)
    → q.done_closes ≤ bit (drained q)
    → (finish_closed q).done_closes ≡ bit (drained (finish_closed q))
unfolding finish_closed drained bit
finish_closed-done q h =
    elim (Bool-cases
      (q.closed && q.workers == 0 && q.pending == 0 && q.finishing == 0 && q.done_closes == 0)) [
        | inl y ↦ rw y (ground (arith, y))
        | inr n ↦ rw n (ground (arith, n, h))
      ]

finish_closed-same : (q : Queue) → (finish_closed q).concurrency ≡ q.concurrency
unfolding finish_closed
finish_closed-same q =
    elim (Bool-cases
      (q.closed && q.workers == 0 && q.pending == 0 && q.finishing == 0 && q.done_closes == 0)) [
        | inl y ↦ rw y refl
        | inr n ↦ rw n refl
      ]

finish_closed-Good :
    (q : Queue)
    → Inv q
    → q.done_closes ≤ bit (drained q)
    → 0 < q.concurrency
    → Good (finish_closed q)
finish_closed-Good q v d c = record {
  inv = finish_closed-Inv q v;
  done = finish_closed-done q d;
  some_worker = rw (finish_closed-same q) c;
}

start_workers-same :
    (q : Queue)
    → ((start_workers q).done_closes ≡ q.done_closes)
      × ((start_workers q).closed ≡ q.closed)
      × ((start_workers q).concurrency ≡ q.concurrency)
unfolding start_workers
start_workers-same q = elim (Bool-cases (q.workers == q.concurrency)) [
  | inl y ↦ rw y (refl, refl, refl)
  | inr n ↦ rw n (refl, refl, refl)
]

enqueue-Good :
    (k : String) (s : Shutdown) (q : Queue)
    → q.closed ≡ false
    → (q.pending == q.capacity) ≡ false
    → Good q
    → Good (enqueue k s q)
unfolding drained rest enqueue push_job make_ready
enqueue-Good k s q o f g =
    let p = make_ready k (push_job k s q) in
    let same = start_workers-same p in
    record {
      inv =
          enqueue-Inv k s q (ground (arith, g.inv.load.bounded, ==_iff q.pending q.capacity)) g.inv;
      done =
          same.0
          ∙ (rest_open q.done_closes q.closed q.workers q.pending q.finishing
                (start_workers p).workers (start_workers p).pending (start_workers p).finishing o
                g.done
              ∙ ap
                  (λ c.
                    rest c (start_workers p).workers (start_workers p).pending
                      (start_workers p).finishing)
                  (sym same.1));
      some_worker = rw same.2 g.some_worker;
    }

pub submit-Good :
    (k : String) (s : Shutdown) (ended : Bool) (q : Queue) → Good q → Good (submit k s ended q).0
unfolding submit
submit-Good k s ended q g =
    if_elim (λ (r : Queue × Submitted). Good r.0) q.closed _ _ (λ y. g)
      λ o.
        if_elim (λ (r : Queue × Submitted). Good r.0) ended _ _ (λ y. g)
          λ n.
            if_elim (λ (r : Queue × Submitted). Good r.0) (q.pending == q.capacity) _ _ (λ y. g)
              λ f. enqueue-Good k s q o f g

pub resume-Good :
    (k : String) (s : Shutdown) (ended : Bool) (q : Queue) → Good q → Good (resume k s ended q).0
unfolding resume
resume-Good k s ended q g =
    if_elim (λ (r : Queue × Submitted). Good r.0)
      (q.pending == q.capacity && not q.closed && not ended) _ _ (λ y. g)
      λ w.
        if_elim (λ (r : Queue × Submitted). Good r.0) q.closed _ _ (λ y. g)
          λ o.
            if_elim (λ (r : Queue × Submitted). Good r.0) ended _ _ (λ y. g)
              λ n. enqueue-Good k s q o (ground (arith, w, o, n)) g

pub complete-Good :
    (j : Job) (q : Queue) → find_job j.id q.active ≡ some j → Good q → Good (complete_job j q)
unfolding complete_job end_job make_ready drained rest
complete-Good j q e g = record {
  inv = complete-Inv j q e g.inv;
  done =
      rest_busy q.done_closes q.closed q.workers q.pending q.finishing q.pending q.finishing g.done
        (omega (
          arith,
          g.inv.load.busy,
          length-remove_job j.id q.active (find_job-has_job j.id q.active j e),
        ));
  some_worker = g.some_worker;
}

keyed-empty : (r : List String) → is_empty r ≡ true → (keyed r ≡ 0) × (count_of "" r ≡ 0)
unfolding keyed count_of
keyed-empty [] h = (refl, refl)
keyed-empty (k ∷ r) h = ground arith

retired-Inv :
    (q : Queue)
    → length q.active < q.workers
    → is_empty q.ready ≡ true
    → Inv q
    → Inv (record q { workers = q.workers - 1 })
unfolding adjust work
retired-Inv q a r v =
    let none_ready = keyed-empty q.ready r in
    let nil : 0 * length (lane_at "" q.lanes).jobs ≡ length (lane_at "" q.lanes).jobs =
      ap (λ c. c * length (lane_at "" q.lanes).jobs) (sym none_ready.1) ∙ nil_total q v.listed in
    record {
      lanes = adjust-Lanes q (q.workers - 1) q.done_closes q.finishing q.closed q.ended v.lanes;
      listed = v.listed;
      load = record {
        bounded = v.load.bounded;
        busy = omega arith;
        capped = omega (arith, v.load.capped);
        served = inr (omega (arith, none_ready.0, nil));
      };
    }

pub retire-Good :
    (q : Queue) → length q.active < q.workers → is_empty q.ready ≡ true → Good q → Good (retire q)
unfolding retire drained rest
retire-Good q a r g =
    finish_closed-Good (record q { workers = q.workers - 1 }) (retired-Inv q a r g.inv)
      (rest_retire q.done_closes q.closed q.workers q.pending q.finishing g.done (omega arith))
      g.some_worker

pub end_finish-Good : (n : ℕ) (q : Queue) → n ≤ q.finishing → Good q → Good (end_finish n q)
unfolding end_finish adjust drained rest
end_finish-Good n q h g =
    finish_closed-Good (record q { finishing = q.finishing - n })
      (adjust-Inv q q.done_closes (q.finishing - n) q.closed q.ended g.inv)
      (rest_finish q.done_closes q.closed q.workers q.pending q.finishing n g.done) g.some_worker

pub begin_cancel-Good : (j : Job) (q : Queue) → Good q → Good (begin_cancel j q)
unfolding begin_cancel adjust is_pending remove_pending unqueue make_ready drained rest
begin_cancel-Good j q g = elim (Bool-cases (is_pending j q)) [
  | inl y ↦ rw y (record {
    inv =
        adjust-Inv (remove_pending j q) q.done_closes (q.finishing + 1) q.closed (j.id ∷ q.ended)
          (remove_pending-Inv j q y g.inv);
    done =
        rest_cancel q.done_closes q.closed q.workers q.pending q.finishing (q.pending - 1) g.done
          (pending_pos j q g.inv y);
    some_worker = g.some_worker;
  })
  | inr n ↦ rw n g
]

pub begin_stop-Good : (all : Bool) (q : Queue) → Good q → Good (begin_stop all q).0
unfolding begin_stop adjust drained rest
begin_stop-Good all q g =
    let c = record q { closed = true } in
    let v : Inv c = adjust-Inv q q.done_closes q.finishing true q.ended g.inv in
    let r =
      stop_lanes-Removed all q.lanes c 0 g.inv.lanes.distinct (lanes-Unmoved c v.lanes.distinct)
        v in
    let t = (stop_lanes all q.lanes (c, 0)).0 in
    let n = (stop_lanes all q.lanes (c, 0)).1 in
    finish_closed-Good (record t { finishing = t.finishing + n })
      (adjust-Inv t t.done_closes (t.finishing + n) t.closed t.ended r.inv)
      (rest_le t.done_closes t.closed true t.workers q.workers t.pending (t.finishing + n)
        (q.finishing + n) r.closed r.workers (omega (arith, r.finishing))
        (rest_stop t.done_closes q.closed q.workers q.pending q.finishing t.pending n
          (r.done_closes ∙ g.done) (omega (arith, r.counted))))
      (omega (arith, r.concurrency, g.some_worker))

leads : (k : String) (r : List String) → has_key k (k ∷ r) ≡ true
unfolding has_key
leads k r = ground (arith, eq_refl k)

first : (j : Job) (js : List Job) → has_job j.id (j ∷ js) ≡ true
unfolding has_job
first j js = ground (arith, ==_iff j.id j.id)

runs :
    (b : Bool) (k : String) (q : Queue)
    → Listed q
    → has_key k q.ready ≡ true
    → runnable k (lane_at k q.lanes) ≡ b
    → b ≡ true
unfolding bit
runs true k q l h e = refl
runs false k q l h e =
    let none_listed : count_of k q.ready ≡ 0 = l k ∙ ap bit e in
    absurd (omega (arith, none_listed, has_key-count_of k q.ready h))

-- A lane that stands in the ready list is runnable, so it has a first job.
take_first-Good :
    (k : String) (jobs : List Job) (q : Queue)
    → has_key k q.ready ≡ true
    → (lane_at k q.lanes).jobs ≡ jobs
    → length q.active < q.workers
    → Good q
    → Good (take_first k jobs q)
unfolding take_first drained rest remove_pending unqueue make_ready start_job
take_first-Good k [] q h e a g = g
take_first-Good k (j ∷ js) q h e a g =
    let ok = g.inv.lanes.lane k in
    let own : j.key ≡ k =
      (subst (λ x. All (λ (i : Job). (i.key ≡ k) × (i.id < q.next_job)) x) e ok.own).0.0 in
    let key : has_key j.key q.ready ≡ true = ap (λ x. has_key x q.ready) own ∙ h in
    let run : runnable j.key (lane_at j.key q.lanes) ≡ true =
      runs (runnable j.key (lane_at j.key q.lanes)) j.key q g.inv.listed key refl in
    let waits : has_job j.id (lane_at j.key q.lanes).jobs ≡ true =
      ap (λ x. has_job j.id (lane_at x q.lanes).jobs) own ∙ (ap (has_job j.id) e ∙ first j js) in
    record {
      inv =
          subst (λ x. Inv (remove_pending j (start_job x j q))) own
            (take-Inv j q run key waits a g.inv);
      done =
          rest_busy q.done_closes q.closed q.workers q.pending q.finishing (q.pending - 1)
            q.finishing g.done (omega arith);
      some_worker = g.some_worker;
    }

take_ready-Good :
    (r : List String) (q : Queue)
    → q.ready ≡ r
    → is_empty r ≡ false
    → length q.active < q.workers
    → Good q
    → Good (take_ready r q)
unfolding take_ready
take_ready-Good [] q e h a g = g
take_ready-Good (k ∷ r) q e h a g =
    take_first-Good k (lane_at k q.lanes).jobs q (ap (has_key k) e ∙ leads k r) refl a g

pub take-Good :
    (q : Queue)
    → length q.active < q.workers
    → is_empty q.ready ≡ false
    → Good q
    → Good (take_job q)
unfolding take_job
take-Good q a r g = take_ready-Good q.ready q refl r a g
