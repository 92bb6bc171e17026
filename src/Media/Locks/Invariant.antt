-- ===== src/Media/Locks/Invariant.antt =====
-- What each operation on the locks keeps (internal/media/object/locks.go).
use elbot.Base.{
  ℕ, ◌+◌, ◌-◌, ◌≤◌, ◌<◌, ◌≡◌, refl, sym, ap, ◌∙◌, subst, String, true, false, Option, none, some,
  if◌then◌else◌, ◌==◌, str_eq, eq_iff, eq_refl, arith, Bool-cases, inl, inr, ◌⊎◌, lookup, insert,
  delete, Distinct, lookup-insert, lookup-delete, insert-Distinct, delete-Distinct, if_false,
  if_elim,
}
use elbot.Media.Locks.{
  ObjectLocks, no_locks, set_lock, find_or_make, add_user, enter, take_token, free_token, drop_user,
}

abbrev pub one : String → String → ℕ
one id i = if str_eq id i then 1 else 0

-- The table has the IDs in use, each with its own entry, which counts its users and whether one holds it.
-- `u` and `h` are how many calls use an ID and how many hold it.
pub record Counted (l : ObjectLocks) (u h : String → ℕ) : Type 0 where
  pub distinct : Distinct l.entries
  pub used : (i : String) (a : ℕ) → lookup i l.entries ≡ some a → (l.objects a).users ≡ u i
  pub busy :
      (i : String) (a : ℕ)
      → lookup i l.entries ≡ some a
      → (if (l.objects a).held then 1 else 0) ≡ h i
  pub live : (i : String) (a : ℕ) → lookup i l.entries ≡ some a → 1 ≤ u i
  pub absent : (i : String) → lookup i l.entries ≡ none → u i ≡ 0
  pub unheld : (i : String) → lookup i l.entries ≡ none → h i ≡ 0
  pub apart :
      (i j : String) (a : ℕ) → lookup i l.entries ≡ some a → lookup j l.entries ≡ some a → i ≡ j
  pub old : (i : String) (a : ℕ) → lookup i l.entries ≡ some a → a < l.next

pub no_locks-Counted : Counted no_locks (λ i. 0) (λ i. 0)
unfolding lookup
no_locks-Counted = record {
  distinct = tt;
  used = λ i a e. ground arith;
  busy = λ i a e. ground arith;
  live = λ i a e. ground arith;
  absent = λ i e. refl;
  unheld = λ i e. refl;
  apart = λ i j a e f. ground arith;
  old = λ i a e. ground arith;
}

-- One change of an entry that the ID has, by its user count and its token.
module _ (l : ObjectLocks) (u h : String → ℕ) (c : Counted l u h) (id : String) (a : ℕ)
    (e : lookup id l.entries ≡ some a) where
  same : (i : String) (b : ℕ) → lookup i l.entries ≡ some b → (b == a) ≡ true → id ≡ i
  same i b f q = c.apart id i a e (f ∙ ap some (ground (arith, q)))

  other :
      (i : String) (b : ℕ) → lookup i l.entries ≡ some b → (b == a) ≡ false → str_eq id i ≡ false
  other i b f q = ground (arith, eq_iff id i, e, f, q, ap (λ x. lookup x l.entries))

  absent_other : (i : String) → lookup i l.entries ≡ none → str_eq id i ≡ false
  absent_other i f = ground (arith, eq_iff id i, e, f, ap (λ x. lookup x l.entries))

  pub add_user-Counted : Counted (add_user a l) (λ i. one id i + u i) h
  unfolding add_user set_lock
  add_user-Counted = record {
    distinct = c.distinct;
    used = λ i b f. elim (Bool-cases (b == a)) [
      | inl q ↦ ground (arith, q, c.used id a e, eq_iff id i, same i b f q, ap u (same i b f q))
      | inr q ↦ ground (arith, q, c.used i b f, other i b f q)
    ];
    busy = λ i b f. elim (Bool-cases (b == a)) [
      | inl q ↦ ground (arith, q, c.busy id a e, ap h (same i b f q))
      | inr q ↦ ground (arith, q, c.busy i b f)
    ];
    live = λ i b f. omega (arith, c.live i b f);
    absent = λ i f. ground (arith, c.absent i f, eq_iff id i, absent_other i f);
    unheld = c.unheld;
    apart = c.apart;
    old = c.old;
  }

  pub take_token-Counted :
      (k : ObjectLocks)
      → take_token a l ≡ some k
      → (k.entries ≡ l.entries) × Counted k u (λ i. one id i + h i)
  unfolding take_token set_lock
  take_token-Counted k t = elim (Bool-cases (l.objects a).held) [
    | inl y ↦ absurd (ground (arith, y, t))
    | inr n ↦
        subst (λ (k : ObjectLocks). (k.entries ≡ l.entries) × Counted k u (λ i. one id i + h i))
          (some_inj (sym (if_false n _ _) ∙ t)) (refl, taken n)
  ]
    where
      some_inj : {x y : ObjectLocks} → some x ≡ some y → x ≡ y
      some_inj q = ground arith

      taken :
          (l.objects a).held ≡ false
          → Counted
              (record l { objects = set_lock a (record (l.objects a) { held = true }) l.objects })
              u
              (λ i. one id i + h i)
      taken n = record {
        distinct = c.distinct;
        used = λ i b f. elim (Bool-cases (b == a)) [
          | inl q ↦ ground (arith, q, c.used id a e, ap u (same i b f q))
          | inr q ↦ ground (arith, q, c.used i b f)
        ];
        busy = λ i b f. elim (Bool-cases (b == a)) [
          | inl q ↦
              ground (arith, q, n, c.busy id a e, eq_iff id i, same i b f q, ap h (same i b f q))
          | inr q ↦ ground (arith, q, c.busy i b f, other i b f q)
        ];
        live = c.live;
        absent = c.absent;
        unheld = λ i f. ground (arith, c.unheld i f, absent_other i f);
        apart = c.apart;
        old = c.old;
      }

-- The token of an ID that is held is freed.
pub free_token-Counted :
    (l : ObjectLocks) (u h : String → ℕ) (id : String) (a : ℕ)
    → Counted l u (λ i. one id i + h i)
    → lookup id l.entries ≡ some a
    → Counted (free_token a l) u h
unfolding free_token set_lock
free_token-Counted l u h id a c e = record {
  distinct = c.distinct;
  used = λ i b f. elim (Bool-cases (b == a)) [
    | inl q ↦ ground (arith, q, c.used id a e, ap u (same l u _ c id a e i b f q))
    | inr q ↦ ground (arith, q, c.used i b f)
  ];
  busy = λ i b f. elim (Bool-cases (b == a)) [
    | inl q ↦ ground (arith, q, c.busy id a e, eq_refl id, ap h (same l u _ c id a e i b f q))
    | inr q ↦ ground (arith, q, c.busy i b f, other l u _ c id a e i b f q)
  ];
  live = c.live;
  absent = c.absent;
  unheld = λ i f. omega (arith, c.unheld i f);
  apart = c.apart;
  old = c.old;
}

-- A user that does not hold the ID drops it: the entry of an ID without users goes.
module _ (l : ObjectLocks) (u h : String → ℕ) (id : String) (a : ℕ)
    (c : Counted l (λ i. one id i + u i) h) (below : (i : String) → h i ≤ u i)
    (e : lookup id l.entries ≡ some a) where
  fewer : ObjectLocks
  fewer = record l {
    objects = set_lock a (record (l.objects a) { users = (l.objects a).users - 1 }) l.objects;
  }

  counts : (l.objects a).users - 1 ≡ u id
  counts = ground (arith, c.used id a e, eq_refl id)

  fewer_used : (i : String) (b : ℕ) → lookup i l.entries ≡ some b → (fewer.objects b).users ≡ u i
  unfolding fewer set_lock
  fewer_used i b f = elim (Bool-cases (b == a)) [
    | inl q ↦ ground (arith, q, counts, ap u (same l _ h c id a e i b f q))
    | inr q ↦ ground (arith, q, c.used i b f, other l _ h c id a e i b f q)
  ]

  fewer_busy :
      (i : String) (b : ℕ)
      → lookup i l.entries ≡ some b
      → (if (fewer.objects b).held then 1 else 0) ≡ h i
  unfolding fewer set_lock
  fewer_busy i b f = elim (Bool-cases (b == a)) [
    | inl q ↦ ground (arith, q, c.busy id a e, ap h (same l _ h c id a e i b f q))
    | inr q ↦ ground (arith, q, c.busy i b f)
  ]

  some_left : (u id == 0) ≡ false → Counted fewer u h
  unfolding fewer
  some_left n = record {
    distinct = c.distinct;
    used = fewer_used;
    busy = fewer_busy;
    live = λ i b f. ground (arith, n, c.live i b f, eq_iff id i, ap u);
    absent = λ i f. omega (arith, c.absent i f);
    unheld = c.unheld;
    apart = c.apart;
    old = c.old;
  }

  none_left : (u id == 0) ≡ true → Counted (record fewer { entries = delete id l.entries }) u h
  unfolding fewer
  none_left y = record {
    distinct = delete-Distinct id l.entries c.distinct;
    used = λ i b f. fewer_used i b (kept i b f).1;
    busy = λ i b f. fewer_busy i b (kept i b f).1;
    live = λ i b f. ground (arith, c.live i b (kept i b f).1, (kept i b f).0);
    absent = λ i f. gone i f;
    unheld = λ i f. omega (arith, gone i f, below i);
    apart = λ i j b f g. c.apart i j b (kept i b f).1 (kept j b g).1;
    old = λ i b f. c.old i b (kept i b f).1;
  }
    where
      kept :
          (i : String) (b : ℕ)
          → lookup i (delete id l.entries) ≡ some b
          → (str_eq id i ≡ false) × (lookup i l.entries ≡ some b)
      kept i b f = elim (Bool-cases (str_eq id i)) [
        | inl q ↦ absurd (ground (arith, q, f, lookup-delete id i l.entries c.distinct))
        | inr q ↦ (q, ground (arith, q, f, lookup-delete id i l.entries c.distinct))
      ]

      gone : (i : String) → lookup i (delete id l.entries) ≡ none → u i ≡ 0
      gone i f = elim (Bool-cases (str_eq id i)) [
        | inl q ↦ ground (arith, y, q, eq_iff id i, ap u)
        | inr q ↦ ground (arith, q, f, lookup-delete id i l.entries c.distinct, c.absent i)
      ]

  pub drop_user-Counted : Counted (drop_user id a l) u h
  unfolding drop_user fewer
  drop_user-Counted =
      if_elim (λ (k : ObjectLocks). Counted k u h) ((l.objects a).users - 1 == 0) _ _
        (λ y. none_left (ground (arith, counts, y))) (λ n. some_left (ground (arith, counts, n)))

  -- The IDs that are still used keep their entries.
  pub drop_user-lookup :
      (i : String) (b : ℕ)
      → 1 ≤ u i
      → lookup i l.entries ≡ some b
      → lookup i (drop_user id a l).entries ≡ some b
  unfolding drop_user
  drop_user-lookup i b p f =
      if_elim (λ (k : ObjectLocks). lookup i k.entries ≡ some b) ((l.objects a).users - 1 == 0) _ _
        (λ y.
          ground
            (arith, y, p, f, counts, lookup-delete id i l.entries c.distinct, eq_iff id i, ap u))
        (λ n. f)

-- What entering gives: the call has the entry of its ID, and the entries of all others stay.
pub record Entered (l : ObjectLocks) (u h : String → ℕ) (id : String) (r : ObjectLocks × ℕ)
    : Type 0 where
  pub counted : Counted r.0 (λ i. one id i + u i) h
  pub mine : lookup id r.0.entries ≡ some r.1
  pub stay : (i : String) (b : ℕ) → lookup i l.entries ≡ some b → lookup i r.0.entries ≡ some b

-- The entry that is made for an ID without one.
module _ (l : ObjectLocks) (u h : String → ℕ) (c : Counted l u h) (id : String)
    (e : lookup id l.entries ≡ none) where
  abbrev made : ObjectLocks
  made = (find_or_make none id l).0

  old_or_new :
      (i : String) (b : ℕ)
      → lookup i (insert id l.next l.entries) ≡ some b
      → ((id ≡ i) × (b ≡ l.next)) ⊎ ((lookup i l.entries ≡ some b) × (str_eq id i ≡ false))
  old_or_new i b f = elim (Bool-cases (str_eq id i)) [
    | inl q ↦
        inl (
          ground (arith, q, eq_iff id i),
          ground (arith, q, f, lookup-insert id i l.next l.entries),
        )
    | inr q ↦ inr (ground (arith, q, f, lookup-insert id i l.next l.entries), q)
  ]

  none_before :
      (i : String)
      → lookup i (insert id l.next l.entries) ≡ none
      → (lookup i l.entries ≡ none) × (str_eq id i ≡ false)
  none_before i f = elim (Bool-cases (str_eq id i)) [
    | inl q ↦ absurd (ground (arith, q, f, lookup-insert id i l.next l.entries))
    | inr q ↦ (ground (arith, q, f, lookup-insert id i l.next l.entries), q)
  ]

  made-Counted : Counted (add_user l.next made) (λ i. one id i + u i) h
  unfolding add_user set_lock find_or_make
  made-Counted = record {
    distinct = insert-Distinct id l.next l.entries c.distinct;
    used = λ i b f. elim (old_or_new i b f) [
      | inl q ↦ ground (arith, q.1, c.absent id e, eq_iff id i, q.0, ap u q.0)
      | inr q ↦ ground (arith, q.1, c.used i b q.0, c.old i b q.0)
    ];
    busy = λ i b f. elim (old_or_new i b f) [
      | inl q ↦ ground (arith, q.1, c.unheld id e, ap h q.0)
      | inr q ↦ ground (arith, q.1, c.busy i b q.0, c.old i b q.0)
    ];
    live = λ i b f. elim (old_or_new i b f) [
      | inl q ↦ ground (arith, eq_iff id i, q.0)
      | inr q ↦ omega (arith, c.live i b q.0)
    ];
    absent = λ i f. ground (arith, (none_before i f).1, c.absent i (none_before i f).0);
    unheld = λ i f. c.unheld i (none_before i f).0;
    apart = λ i j b f g. elim (old_or_new i b f) [
      | inl p ↦ elim (old_or_new j b g) [
        | inl q ↦ sym p.0 ∙ q.0
        | inr q ↦ absurd (omega (arith, p.1, c.old j b q.0))
      ]
      | inr p ↦ elim (old_or_new j b g) [
        | inl q ↦ absurd (omega (arith, q.1, c.old i b p.0))
        | inr q ↦ c.apart i j b p.0 q.0
      ]
    ];
    old = λ i b f. elim (old_or_new i b f) [
      | inl q ↦ omega (arith, q.1)
      | inr q ↦ omega (arith, c.old i b q.0)
    ];
  }

  made-Entered : Entered l u h id (add_user l.next made, l.next)
  unfolding add_user find_or_make
  made-Entered = record {
    counted = made-Counted;
    mine = ground (arith, lookup-insert id id l.next l.entries, eq_refl id);
    stay = λ i b f. ground (
      arith,
      f,
      e,
      lookup-insert id i l.next l.entries,
      eq_iff id i,
      ap (λ x. lookup x l.entries),
    );
  }

pub enter-Entered :
    (l : ObjectLocks) (u h : String → ℕ) (id : String)
    → Counted l u h
    → Entered l u h id (enter id l)
unfolding enter find_or_make add_user
enter-Entered l u h id c = go (lookup id l.entries) refl
  where
    go :
        (o : Option ℕ)
        → lookup id l.entries ≡ o
        → Entered l u h id
            (add_user (find_or_make o id l).1 (find_or_make o id l).0, (find_or_make o id l).1)
    go none e = made-Entered l u h c id e
    go (some a) e = record {
      counted = add_user-Counted l u h c id a e;
      mine = e;
      stay = λ i b f. f;
    }
