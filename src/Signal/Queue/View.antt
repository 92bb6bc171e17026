-- ===== src/Signal/Queue/View.antt =====
-- What each lane looks like after a change of the map (internal/signal/queue.go).
use elbot.Base.{
  ℕ, ◌+◌, ◌-◌, ◌≤◌, ◌≡◌, refl, sym, ap, ◌∙◌, String, Bool, true, false, Option, none, some, List,
  [], ◌∷◌, ◌++◌, if◌then◌else◌, str_eq, eq_iff, lookup, insert, delete, ==_iff, Entries, is_empty,
  Distinct, lookup-insert, lookup-delete, Bool-cases, inl, inr, arith,
}
use elbot.Signal.Queue.{Job, Lane, lane_at, vacant, has_key, remove_key}

abbrev pub empty_lane : Lane
empty_lane = record { jobs = []; active = 0 }

-- A lane with no jobs and no active job is empty.
lane_eta : (l : Lane) → is_empty l.jobs ≡ true → l.active ≡ 0 → l ≡ empty_lane
lane_eta l e a = cc (nil l.jobs e, a)
  where
    nil : (js : List Job) → is_empty js ≡ true → js ≡ []
    nil [] h = refl
    nil (j ∷ js) h = ground arith

abbrev lane_of : Option Lane → Lane
lane_of o = elim o [ none ↦ empty_lane | some l ↦ l ]

pub lane_at-insert :
    (j k : String) (l : Lane) (lanes : Entries Lane)
    → lane_at j (insert k l lanes) ≡ (if str_eq k j then l else lane_at j lanes)
unfolding lane_at
lane_at-insert j k l lanes = elim (Bool-cases (str_eq k j)) [
  | inl y ↦
      let e : lookup j (insert k l lanes) ≡ some l = lookup-insert k j l lanes ∙ rw y refl in
      rw y (ap lane_of e)
  | inr n ↦
      let e : lookup j (insert k l lanes) ≡ lookup j lanes =
        lookup-insert k j l lanes ∙ rw n refl in
      rw n (ap lane_of e)
]

pub lane_at-delete :
    (j k : String) (lanes : Entries Lane)
    → Distinct lanes
    → lane_at j (delete k lanes) ≡ (if str_eq k j then empty_lane else lane_at j lanes)
unfolding lane_at
lane_at-delete j k lanes d = elim (Bool-cases (str_eq k j)) [
  | inl y ↦
      let e : lookup j (delete k lanes) ≡ none = lookup-delete k j lanes d ∙ rw y refl in
      rw y (ap lane_of e)
  | inr n ↦
      let e : lookup j (delete k lanes) ≡ lookup j lanes = lookup-delete k j lanes d ∙ rw n refl in
      rw n (ap lane_of e)
]

-- Removing a vacant lane changes no lane.
pub lane_at-vacate :
    (j k : String) (lanes : Entries Lane)
    → Distinct lanes
    → lane_at j (if vacant k (lane_at k lanes) then delete k lanes else lanes) ≡ lane_at j lanes
unfolding vacant
lane_at-vacate j k lanes d = elim (Bool-cases (vacant k (lane_at k lanes))) [
  | inl y ↦ elim (Bool-cases (str_eq k j)) [
    | inl e ↦ rw y (
        lane_at-delete j k lanes d
        ∙ (rw e (
            sym (
              ap (λ x. lane_at x lanes) (sym ((eq_iff k j).0 e))
              ∙ lane_eta (lane_at k lanes) (ground arith)
                  (ground (arith, ==_iff (lane_at k lanes).active 0))))))
    | inr n ↦ rw y (lane_at-delete j k lanes d ∙ rw n refl)
  ]
  | inr n ↦ rw n refl
]

-- How often a key stands in the ready list.
unfoldable pub count_of : String → List String → ℕ
count_of k [] = 0
count_of k (j ∷ rest) = (if str_eq j k then 1 else 0) + count_of k rest

-- How many keys other than the nil key stand there.
unfoldable pub keyed : List String → ℕ
keyed [] = 0
keyed (j ∷ rest) = (if str_eq j "" then 0 else 1) + keyed rest

unfoldable pub bit : Bool → ℕ
bit true = 1
bit false = 0

pub count_of-has_key : (k : String) (r : List String) → (has_key k r ≡ false) → count_of k r ≡ 0
unfolding count_of has_key
count_of-has_key k [] h = refl
count_of-has_key k (j ∷ r) h = ground (arith, count_of-has_key k r)

pub has_key-count_of : (k : String) (r : List String) → (has_key k r ≡ true) → 1 ≤ count_of k r
unfolding count_of has_key
has_key-count_of k [] h = ground arith
has_key-count_of k (j ∷ r) h = ground (arith, has_key-count_of k r)

pub count_of-append :
    (k j : String) (r : List String)
    → count_of k (r ++ (j ∷ [])) ≡ count_of k r + (if str_eq j k then 1 else 0)
unfolding count_of
count_of-append k j [] = ground arith
count_of-append k j (i ∷ r) = ground (arith, count_of-append k j r)

pub count_of-remove_key :
    (k j : String) (r : List String)
    → count_of k (remove_key j r) ≡ count_of k r - (if str_eq j k then 1 else 0)
unfolding count_of remove_key
count_of-remove_key k j [] = ground arith
count_of-remove_key k j (i ∷ r) =
    ground (arith, eq_iff i j, eq_iff i k, eq_iff j k, count_of-remove_key k j r)

pub keyed-append :
    (j : String) (r : List String)
    → keyed (r ++ (j ∷ [])) ≡ keyed r + (if str_eq j "" then 0 else 1)
unfolding keyed
keyed-append j [] = ground arith
keyed-append j (i ∷ r) = ground (arith, keyed-append j r)

pub keyed-remove_key :
    (j : String) (r : List String)
    → has_key j r ≡ true
    → keyed (remove_key j r) + (if str_eq j "" then 0 else 1) ≡ keyed r
unfolding keyed remove_key has_key
keyed-remove_key j [] h = ground arith
keyed-remove_key j (i ∷ r) h = elim (Bool-cases (str_eq i j)) [
  | inl y ↦ rw y (ground (arith, eq_iff i j))
  | inr n ↦ rw n (ground (arith, keyed-remove_key j r))
]

pub remove_key_absent : (j : String) (r : List String) → has_key j r ≡ false → remove_key j r ≡ r
unfolding remove_key has_key
remove_key_absent j [] h = refl
remove_key_absent j (i ∷ r) h = elim (Bool-cases (str_eq i j)) [
  | inl y ↦ ground arith
  | inr n ↦ rw n (ap (λ x. i ∷ x) (remove_key_absent j r (ground arith)))
]
