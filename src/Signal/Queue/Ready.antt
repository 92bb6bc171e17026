-- ===== src/Signal/Queue/Ready.antt =====
-- The lanes and the ready list agree after makeReady (internal/signal/queue.go).
use elbot.Base.{
  ℕ, suc, ◌+◌, ◌≤◌, ◌<◌, ◌≡◌, refl, sym, ap, ◌∙◌, subst, String, true, false, not, ◌&&◌, List, [],
  ◌∷◌, if◌then◌else◌, str_eq, eq_iff, eq_refl, lookup, delete, length, Entries, is_empty, Distinct,
  delete-Distinct, Bool-cases, Option-cases, inl, inr, arith, weigh, weigh-delete, weigh_opt, All,
}
use elbot.Signal.Queue.{Job, Lane, Queue, lane_at, runnable, vacant, has_key, make_ready}
use elbot.Signal.Queue.View.{
  lane_at-vacate, count_of, bit, count_of-has_key, has_key-count_of, count_of-append,
}

-- The numbers of a lane's jobs ascend from a bound.
abbrev pub Ascending : ℕ → List Job → Type 0
Ascending lo [] = Unit
Ascending lo (j ∷ rest) = (lo ≤ j.id) × Ascending (suc j.id) rest

abbrev pub jobs_of : Lane → ℕ
jobs_of l = length l.jobs

unfoldable pub active_of : String → List Job → ℕ
active_of k [] = 0
active_of k (j ∷ rest) = (if str_eq j.key k then 1 else 0) + active_of k rest

-- What holds of one lane: its jobs carry its key, stand in the order of their submission, and
-- its active jobs are those that run, of a keyed lane one at most.
pub record LaneOk (next : ℕ) (running : List Job) (k : String) (l : Lane) : Type 0 where
  pub own : All (λ (j : Job). (j.key ≡ k) × (j.id < next)) l.jobs
  pub ascending : Ascending 0 l.jobs
  pub counted : l.active ≡ active_of k running
  pub single : (if str_eq k "" then 0 else l.active) ≤ 1

pub record Lanes (q : Queue) : Type 0 where
  pub distinct : Distinct q.lanes
  pub summed : q.pending ≡ weigh jobs_of q.lanes
  pub lane : (k : String) → LaneOk q.next_job q.active k (lane_at k q.lanes)

-- A key stands in the ready list once when its lane is runnable, and else not at all.
abbrev pub Listed : Queue → Type 0
Listed q = (k : String) → count_of k q.ready ≡ bit (runnable k (lane_at k q.lanes))

-- The same but for one key, which may be missing from the list.
pub record Unlisted (key : String) (q : Queue) : Type 0 where
  pub others :
      (k : String)
      → str_eq key k ≡ false
      → count_of k q.ready ≡ bit (runnable k (lane_at k q.lanes))
  pub at_most : count_of key q.ready ≤ bit (runnable key (lane_at key q.lanes))

pub Listed-Unlisted : (key : String) (q : Queue) → Listed q → Unlisted key q
Listed-Unlisted key q h = record { others = λ k n. h k; at_most = omega (arith, h key) }

pub make_ready-lane :
    (key k : String) (q : Queue)
    → Distinct q.lanes
    → lane_at k (make_ready key q).lanes ≡ lane_at k q.lanes
unfolding make_ready
make_ready-lane key k q d = lane_at-vacate k key q.lanes d

pub weigh_opt-lane_at :
    (key : String) (lanes : Entries Lane)
    → weigh_opt jobs_of (lookup key lanes) ≡ length (lane_at key lanes).jobs
unfolding lane_at
weigh_opt-lane_at key lanes = elim (Option-cases (lookup key lanes)) [
  | inl n ↦ rw (n, lane_at) refl
  | inr (l, e) ↦ rw (e, lane_at) refl
]

vacant-jobs : (key : String) (l : Lane) → vacant key l ≡ true → length l.jobs ≡ 0
unfolding vacant
vacant-jobs key l v = empty l.jobs (ground arith)
  where
    empty : (js : List Job) → is_empty js ≡ true → length js ≡ 0
    empty [] h = refl
    empty (j ∷ js) h = ground arith

weigh_vacate :
    (key : String) (lanes : Entries Lane)
    → weigh jobs_of (if vacant key (lane_at key lanes) then delete key lanes else lanes)
      ≡ weigh jobs_of lanes
weigh_vacate key lanes = elim (Bool-cases (vacant key (lane_at key lanes))) [
  | inl y ↦ rw y (
      omega (
        arith,
        weigh-delete jobs_of key lanes,
        weigh_opt-lane_at key lanes,
        vacant-jobs key (lane_at key lanes) y,
      ))
  | inr n ↦ rw n refl
]

pub make_ready-Lanes : (key : String) (q : Queue) → Lanes q → Lanes (make_ready key q)
unfolding make_ready
make_ready-Lanes key q v = record {
  distinct = elim (Bool-cases (vacant key (lane_at key q.lanes))) [
    | inl y ↦ rw y (delete-Distinct key q.lanes v.distinct)
    | inr n ↦ rw n v.distinct
  ];
  summed = v.summed ∙ sym (weigh_vacate key q.lanes);
  lane = λ k.
      subst (λ l. LaneOk q.next_job q.active k l) (sym (make_ready-lane key k q v.distinct))
        (v.lane k);
}

ready_after :
    (key k : String) (q : Queue)
    → Unlisted key q
    → count_of k (make_ready key q).ready ≡ bit (runnable k (lane_at k q.lanes))
unfolding make_ready bit
ready_after key k q u =
    elim (Bool-cases (runnable key (lane_at key q.lanes) && not (has_key key q.ready))) [
      | inl y ↦ elim (Bool-cases (str_eq key k)) [
        | inl e ↦
            rw (y, sym ((eq_iff key k).0 e))
              (ground
                (arith, count_of-append key key q.ready, eq_refl key, count_of-has_key key q.ready))
        | inr n ↦ rw y (ground (arith, count_of-append k key q.ready, u.others k n))
      ]
      | inr z ↦ elim (Bool-cases (str_eq key k)) [
        | inl e ↦
            rw (z, sym ((eq_iff key k).0 e))
              (ground (arith, has_key-count_of key q.ready, u.at_most))
        | inr n ↦ rw z (u.others k n)
      ]
    ]

pub make_ready-Listed :
    (key : String) (q : Queue) → Distinct q.lanes → Unlisted key q → Listed (make_ready key q)
make_ready-Listed key q d u k =
    ready_after key k q u ∙ ap (λ l. bit (runnable k l)) (sym (make_ready-lane key k q d))
