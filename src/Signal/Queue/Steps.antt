-- ===== src/Signal/Queue/Steps.antt =====
-- Each change of one lane keeps the lanes in order (internal/signal/queue.go).
use elbot.Base.{
  ℕ, suc, ◌+◌, ◌-◌, ◌≤◌, ◌<◌, ◌≡◌, refl, sym, ap, ◌∙◌, subst, String, true, false, Option, none,
  some, List, [], ◌∷◌, ◌++◌, if◌then◌else◌, str_eq, eq_iff, eq_refl, insert, length, length-append,
  ◌==◌, ==_iff, Entries, is_empty, insert-Distinct, Bool-cases, inl, inr, arith, weigh,
  weigh-insert, weigh_opt-le-weigh, All,
}
use elbot.Signal.Queue.{
  Job, Lane, Queue, lane_at, runnable, remove_job, has_job, push_job, unqueue, start_job, end_job,
  Shutdown,
}
use elbot.Signal.Queue.View.{lane_at-insert, count_of, bit, count_of-remove_key}
use elbot.Signal.Queue.Ready.{
  Ascending, jobs_of, active_of, LaneOk, Lanes, Listed, Unlisted, weigh_opt-lane_at,
  Listed-Unlisted,
}

-- The job of a number in a list.
unfoldable pub find_job : ℕ → List Job → Option Job
find_job id [] = none
find_job id (j ∷ rest) = if j.id == id then some j else find_job id rest

insert_lane :
    (P : String → Lane → Type 0) (key : String) (l : Lane) (lanes : Entries Lane)
    → P key l
    → ((k : String) → str_eq key k ≡ false → P k (lane_at k lanes))
    → (k : String) → P k (lane_at k (insert key l lanes))
insert_lane P key l lanes at others k = elim (Bool-cases (str_eq key k)) [
  | inl y ↦
      subst (P k)
        (sym (lane_at-insert k key l lanes ∙ ap (λ b. if b then l else lane_at k lanes) y))
        (subst (λ x. P x l) ((eq_iff key k).0 y) at)
  | inr n ↦
      subst (P k)
        (sym (lane_at-insert k key l lanes ∙ ap (λ b. if b then l else lane_at k lanes) n))
        (others k n)
]

-- The number of jobs once a lane is replaced.
weigh-insert_jobs :
    (key : String) (l : Lane) (lanes : Entries Lane)
    → weigh jobs_of (insert key l lanes) + length (lane_at key lanes).jobs
      ≡ weigh jobs_of lanes + length l.jobs
weigh-insert_jobs key l lanes =
    omega (arith, weigh-insert jobs_of key l lanes, weigh_opt-lane_at key lanes)

pub lane_le : (key : String) (q : Queue) → Lanes q → length (lane_at key q.lanes).jobs ≤ q.pending
lane_le key q v =
    omega (arith, v.summed, weigh_opt-le-weigh jobs_of key q.lanes, weigh_opt-lane_at key q.lanes)

-- A lane whose key differs from a job's is not concerned by the job's running.
others-LaneOk :
    (next next' : ℕ) (running running' : List Job) (k : String) (l : Lane)
    → next ≤ next'
    → active_of k running ≡ active_of k running'
    → LaneOk next running k l
    → LaneOk next' running' k l
others-LaneOk next next' running running' k l h e v = record {
  own = below l.jobs v.own;
  ascending = v.ascending;
  counted = v.counted ∙ e;
  single = v.single;
}
  where
    below :
        (js : List Job)
        → All (λ (j : Job). (j.key ≡ k) × (j.id < next)) js
        → All (λ (j : Job). (j.key ≡ k) × (j.id < next')) js
    below [] a = tt
    below (j ∷ js) a = ((a.0.0, omega arith), below js a.1)

Ascending-append :
    (lo n : ℕ) (k : String) (js : List Job) (j : Job)
    → lo ≤ n
    → j.id ≡ n
    → All (λ (i : Job). (i.key ≡ k) × (i.id < n)) js
    → Ascending lo js
    → Ascending lo (js ++ (j ∷ []))
Ascending-append lo n k [] j h e a s = (omega arith, tt)
Ascending-append lo n k (i ∷ js) j h e a s =
    (s.0, Ascending-append (suc i.id) n k js j (omega (arith, a.0.1)) e a.1 s.1)

All-append {ℓ} :
    {A : Type ℓ} (P : A → Type 0) (xs : List A) (x : A) → All P xs → P x → All P (xs ++ (x ∷ []))
All-append P [] x a h = (h, tt)
All-append P (y ∷ xs) x a h = (a.0, All-append P xs x a.1 h)

pub push-Lanes : (key : String) (s : Shutdown) (q : Queue) → Lanes q → Lanes (push_job key s q)
unfolding push_job
push-Lanes key s q v =
    let l = lane_at key q.lanes in
    let ok = v.lane key in
    let j : Job = record { id = q.next_job; key = key; shutdown = s } in
    let wide =
      others-LaneOk q.next_job (q.next_job + 1) q.active q.active key l (omega arith) refl ok in
    record {
      distinct = insert-Distinct key _ q.lanes v.distinct;
      summed = omega (
        arith,
        v.summed,
        weigh-insert_jobs key (record { jobs = l.jobs ++ (j ∷ []); active = l.active }) q.lanes,
        length-append l.jobs (j ∷ []),
      );
      lane =
          insert_lane (λ k x. LaneOk (q.next_job + 1) q.active k x) key _ q.lanes
            (record {
              own = All-append _ l.jobs j wide.own (refl, omega arith);
              ascending =
                  Ascending-append 0 q.next_job key l.jobs j (omega arith) refl ok.own ok.ascending;
              counted = ok.counted;
              single = ok.single;
            })
            (λ k n.
              others-LaneOk q.next_job (q.next_job + 1) q.active q.active k _ (omega arith) refl
                (v.lane k));
    }

-- A change of one lane and of its key's place in the ready list.
relist :
    (key : String) (l : Lane) (q r : Queue)
    → r.lanes ≡ insert key l q.lanes
    → ((k : String) → str_eq key k ≡ false → count_of k r.ready ≡ count_of k q.ready)
    → count_of key r.ready ≤ bit (runnable key l)
    → Unlisted key q
    → Unlisted key r
relist key l q r e keep at u = record {
  others = λ k n.
      let same : lane_at k r.lanes ≡ lane_at k q.lanes =
        ap (lane_at k) e
        ∙ (lane_at-insert k key l q.lanes ∙ ap (λ b. if b then l else lane_at k q.lanes) n) in
      keep k n ∙ (u.others k n ∙ ap (λ x. bit (runnable k x)) (sym same));
  at_most =
      let same : lane_at key r.lanes ≡ l =
        ap (lane_at key) e
        ∙ (lane_at-insert key key l q.lanes
            ∙ ap (λ b. if b then l else lane_at key q.lanes) (eq_refl key)) in
      subst (λ x. count_of key r.ready ≤ bit (runnable key x)) (sym same) at;
}

nonempty-append : (js : List Job) (j : Job) → is_empty (js ++ (j ∷ [])) ≡ false
nonempty-append [] j = refl
nonempty-append (i ∷ js) j = refl

pub push-Unlisted :
    (key : String) (s : Shutdown) (q : Queue) → Listed q → Unlisted key (push_job key s q)
unfolding push_job runnable bit
push-Unlisted key s q h =
    let l = lane_at key q.lanes in
    let j : Job = record { id = q.next_job; key = key; shutdown = s } in
    relist key (record { jobs = l.jobs ++ (j ∷ []); active = l.active }) q (push_job key s q) refl
      (λ k n. refl) (ground (arith, h key, nonempty-append l.jobs j)) (Listed-Unlisted key q h)

All-remove_job : (P : Job → Type 0) (id : ℕ) (js : List Job) → All P js → All P (remove_job id js)
unfolding remove_job
All-remove_job P id [] a = tt
All-remove_job P id (j ∷ js) a = elim (Bool-cases (j.id == id)) [
  | inl y ↦ rw y a.1
  | inr n ↦ rw n (a.0, All-remove_job P id js a.1)
]

Ascending-le : (lo hi : ℕ) (js : List Job) → lo ≤ hi → Ascending hi js → Ascending lo js
Ascending-le lo hi [] h a = tt
Ascending-le lo hi (j ∷ js) h a = (omega (arith, a.0), a.1)

Ascending-remove_job :
    (lo id : ℕ) (js : List Job) → Ascending lo js → Ascending lo (remove_job id js)
unfolding remove_job
Ascending-remove_job lo id [] a = tt
Ascending-remove_job lo id (j ∷ js) a = elim (Bool-cases (j.id == id)) [
  | inl y ↦ rw y (Ascending-le lo (suc j.id) js (omega (arith, a.0)) a.1)
  | inr n ↦ rw n (a.0, Ascending-remove_job (suc j.id) id js a.1)
]

pub length-remove_job :
    (id : ℕ) (js : List Job) → has_job id js ≡ true → length (remove_job id js) + 1 ≡ length js
unfolding remove_job has_job
length-remove_job id [] h = ground arith
length-remove_job id (j ∷ js) h = elim (Bool-cases (j.id == id)) [
  | inl y ↦ rw y (omega arith)
  | inr n ↦ rw n (ground (arith, length-remove_job id js))
]

pub unqueue-Lanes :
    (j : Job) (q : Queue)
    → has_job j.id (lane_at j.key q.lanes).jobs ≡ true
    → Lanes q
    → Lanes (unqueue j q)
unfolding unqueue
unqueue-Lanes j q h v =
    let l = lane_at j.key q.lanes in
    let ok = v.lane j.key in
    record {
      distinct = insert-Distinct j.key _ q.lanes v.distinct;
      summed = omega (
        arith,
        v.summed,
        lane_le j.key q v,
        weigh-insert_jobs j.key (record { jobs = remove_job j.id l.jobs; active = l.active })
            q.lanes,
        length-remove_job j.id l.jobs h,
      );
      lane =
          insert_lane (λ k x. LaneOk q.next_job q.active k x) j.key _ q.lanes
            (record {
              own = All-remove_job _ j.id l.jobs ok.own;
              ascending = Ascending-remove_job 0 j.id l.jobs ok.ascending;
              counted = ok.counted;
              single = ok.single;
            })
            (λ k n. v.lane k);
    }

pub remaining : (id : ℕ) (js : List Job) → is_empty (remove_job id js) ≡ false → is_empty js ≡ false
unfolding remove_job
remaining id [] h = h
remaining id (j ∷ js) h = refl

pub unqueue-Unlisted : (j : Job) (q : Queue) → Unlisted j.key q → Unlisted j.key (unqueue j q)
unfolding unqueue runnable bit
unqueue-Unlisted j q u =
    let l = lane_at j.key q.lanes in
    relist j.key (record { jobs = remove_job j.id l.jobs; active = l.active }) q (unqueue j q) refl
      (λ k n. kept k n) at u
  where
    kept :
        (k : String) → str_eq j.key k ≡ false → count_of k (unqueue j q).ready ≡ count_of k q.ready
    kept k n = elim (Bool-cases (is_empty (remove_job j.id (lane_at j.key q.lanes).jobs))) [
      | inl y ↦ rw y (ground (arith, count_of-remove_key k j.key q.ready))
      | inr z ↦ rw z refl
    ]

    at :
        count_of j.key (unqueue j q).ready
        ≤ bit (
            runnable j.key (record {
              jobs = remove_job j.id (lane_at j.key q.lanes).jobs;
              active = (lane_at j.key q.lanes).active;
            }))
    at = elim (Bool-cases (is_empty (remove_job j.id (lane_at j.key q.lanes).jobs))) [
      | inl y ↦
          rw y (ground (arith, count_of-remove_key j.key j.key q.ready, eq_refl j.key, u.at_most))
      | inr z ↦ rw z (ground (arith, u.at_most, remaining j.id (lane_at j.key q.lanes).jobs z))
    ]

pub start-Lanes :
    (key : String) (j : Job) (q : Queue)
    → j.key ≡ key
    → runnable key (lane_at key q.lanes) ≡ true
    → Lanes q
    → Lanes (start_job key j q)
unfolding start_job active_of runnable
start-Lanes key j q e h v =
    let l = lane_at key q.lanes in
    let ok = v.lane key in
    record {
      distinct = insert-Distinct key _ q.lanes v.distinct;
      summed = omega (
        arith,
        v.summed,
        weigh-insert_jobs key (record { jobs = l.jobs; active = l.active + 1 }) q.lanes,
      );
      lane =
          insert_lane (λ k x. LaneOk q.next_job (j ∷ q.active) k x) key _ q.lanes
            (record {
              own = ok.own;
              ascending = ok.ascending;
              counted = ground (arith, ok.counted, eq_iff j.key key);
              single = ground (arith, ==_iff l.active 0);
            })
            (λ k n.
              others-LaneOk q.next_job q.next_job q.active (j ∷ q.active) k _ (omega arith)
                (ground (arith, eq_iff j.key k, eq_iff key k)) (v.lane k));
    }

pub start-Unlisted :
    (key : String) (j : Job) (q : Queue) → Listed q → Unlisted key (start_job key j q)
unfolding start_job runnable bit
start-Unlisted key j q h =
    let l = lane_at key q.lanes in
    relist key (record { jobs = l.jobs; active = l.active + 1 }) q (start_job key j q) refl
      (λ k n. ground (arith, count_of-remove_key k key q.ready))
      (ground (arith, count_of-remove_key key key q.ready, eq_refl key, h key))
      (Listed-Unlisted key q h)

-- A running job leaves the jobs that run.
pub active_of-remove_job :
    (id : ℕ) (k : String) (js : List Job) (j : Job)
    → find_job id js ≡ some j
    → active_of k (remove_job id js) + (if str_eq j.key k then 1 else 0) ≡ active_of k js
unfolding find_job active_of remove_job
active_of-remove_job id k [] j e = ground arith
active_of-remove_job id k (i ∷ js) j e = elim (Bool-cases (i.id == id)) [
  | inl y ↦ rw y (ground arith)
  | inr n ↦ rw n (ground (arith, active_of-remove_job id k js j))
]

pub find_job-has_job :
    (id : ℕ) (js : List Job) (j : Job) → find_job id js ≡ some j → has_job id js ≡ true
unfolding find_job has_job
find_job-has_job id [] j e = ground arith
find_job-has_job id (i ∷ js) j e = ground (arith, find_job-has_job id js j)

pub end-Lanes :
    (j : Job) (q : Queue) → find_job j.id q.active ≡ some j → Lanes q → Lanes (end_job j q)
unfolding end_job
end-Lanes j q e v =
    let l = lane_at j.key q.lanes in
    let ok = v.lane j.key in
    record {
      distinct = insert-Distinct j.key _ q.lanes v.distinct;
      summed = omega (
        arith,
        v.summed,
        weigh-insert_jobs j.key (record { jobs = l.jobs; active = l.active - 1 }) q.lanes,
      );
      lane =
          insert_lane (λ k x. LaneOk q.next_job (remove_job j.id q.active) k x) j.key _ q.lanes
            (record {
              own = ok.own;
              ascending = ok.ascending;
              counted =
                  ground (
                    arith,
                    ok.counted,
                    active_of-remove_job j.id j.key q.active j e,
                    eq_refl j.key,
                  );
              single = ground (arith, ok.single);
            })
            (λ k n.
              others-LaneOk q.next_job q.next_job q.active (remove_job j.id q.active) k _
                (omega arith) (ground (arith, active_of-remove_job j.id k q.active j e))
                (v.lane k));
    }

pub end-Unlisted : (j : Job) (q : Queue) → Listed q → Unlisted j.key (end_job j q)
unfolding end_job runnable bit
end-Unlisted j q h =
    let l = lane_at j.key q.lanes in
    relist j.key (record { jobs = l.jobs; active = l.active - 1 }) q (end_job j q) refl
      (λ k n. refl) (ground (arith, h j.key, ==_iff l.active 0, ==_iff (l.active - 1) 0))
      (Listed-Unlisted j.key q h)
