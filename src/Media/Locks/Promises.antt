-- ===== src/Media/Locks/Promises.antt =====
-- What the locks promise, with any calls under way in any order (internal/media/object/locks.go).
use elbot.Base.{
  ℕ, ◌+◌, ◌≤◌, ◌≡◌, refl, sym, ap, ◌∙◌, subst, String, false, some, List, [], ◌∷◌, ◌++◌, All, leb,
  eq_refl, arith, Option-cases, inl, inr, lookup, is_some, if_false,
}
use elbot.Media.Locks.{ObjectLocks, enter, take_token, free_token, drop_user}
use elbot.Media.Locks.Callers.{
  Caller, waiting, holding, leaving, id_of, lock_of, uses, holds, total, total-append, System, idle,
  Step, entered, took, gave_up, freed, dropped, Steps, here, next,
}
use elbot.Media.Locks.Invariant.{
  one, Counted, no_locks-Counted, take_token-Counted, free_token-Counted, drop_user-Counted,
  drop_user-lookup, enter-Entered,
}

recount-Counted :
    (l : ObjectLocks) (u u' h h' : String → ℕ)
    → ((i : String) → u i ≡ u' i)
    → ((i : String) → h i ≡ h' i)
    → Counted l u h
    → Counted l u' h'
recount-Counted l u u' h h' p q c = record {
  distinct = c.distinct;
  used = λ i a e. c.used i a e ∙ p i;
  busy = λ i a e. c.busy i a e ∙ q i;
  live = λ i a e. omega (arith, c.live i a e, p i);
  absent = λ i e. sym (p i) ∙ c.absent i e;
  unheld = λ i e. sym (q i) ∙ c.unheld i e;
  apart = c.apart;
  old = c.old;
}

abbrev Owns : ObjectLocks → Caller → Type 0
Owns l c = lookup (id_of c) l.entries ≡ some (lock_of c)

-- The table counts the calls, and each call has the entry that the table has for its ID.
record Fair (s : System) : Type 0 where
  counted : Counted s.locks (λ i. total (uses i) s.callers) (λ i. total (holds i) s.callers)
  own : All (Owns s.locks) s.callers

split-All :
    (P : Caller → Type 0) (l : List Caller) (c : Caller) (r : List Caller)
    → All P (l ++ (c ∷ r))
    → P c × All P (l ++ r)
split-All P [] c r a = a
split-All P (b ∷ l) c r a = let later = split-All P l c r a.1 in (later.0, (a.0, later.1))

join-All :
    (P : Caller → Type 0) (l : List Caller) (c : Caller) (r : List Caller)
    → P c
    → All P (l ++ r)
    → All P (l ++ (c ∷ r))
join-All P [] c r p a = (p, a)
join-All P (b ∷ l) c r p a = (a.0, join-All P l c r p a.1)

map-All : (P Q : Caller → Type 0) (l : List Caller) → ((c : Caller) → P c → Q c) → All P l → All Q l
map-All P Q [] f a = tt
map-All P Q (c ∷ l) f a = (f c a.0, map-All P Q l f a.1)

-- The state seen from one call, with the others in front of it and behind it.
record Apart (k : ObjectLocks) (l : List Caller) (c : Caller) (r : List Caller) : Type 0 where
  counts :
      Counted k
        (λ i. uses i c + total (uses i) (l ++ r))
        (λ i. holds i c + total (holds i) (l ++ r))
  mine : Owns k c
  theirs : All (Owns k) (l ++ r)

split-Apart :
    (s : System) (l : List Caller) (c : Caller) (r : List Caller)
    → s.callers ≡ l ++ (c ∷ r)
    → Fair s
    → Apart s.locks l c r
split-Apart s l c r q g = record {
  counts =
      recount-Counted s.locks _ _ _ _ (λ i. ap (total (uses i)) q ∙ total-append (uses i) l c r)
        (λ i. ap (total (holds i)) q ∙ total-append (holds i) l c r) g.counted;
  mine = (split-All (Owns s.locks) l c r (subst (All (Owns s.locks)) q g.own)).0;
  theirs = (split-All (Owns s.locks) l c r (subst (All (Owns s.locks)) q g.own)).1;
}

join-Fair :
    (k : ObjectLocks) (l : List Caller) (c : Caller) (r : List Caller)
    → Apart k l c r
    → Fair (record { locks = k; callers = l ++ (c ∷ r) })
join-Fair k l c r a = record {
  counted =
      recount-Counted k _ _ _ _ (λ i. sym (total-append (uses i) l c r))
        (λ i. sym (total-append (holds i) l c r)) a.counts;
  own = join-All (Owns k) l c r a.mine a.theirs;
}

holds-uses : (i : String) (l : List Caller) → total (holds i) l ≤ total (uses i) l
holds-uses i [] = omega arith
holds-uses i (waiting j a ∷ l) = omega (arith, holds-uses i l)
holds-uses i (holding j a ∷ l) = omega (arith, holds-uses i l)
holds-uses i (leaving j a ∷ l) = omega (arith, holds-uses i l)

-- Every call uses its own ID.
present : (l : List Caller) → All (λ c. 1 ≤ total (uses (id_of c)) l) l
present [] = tt
present (c ∷ l) = (
  ground (arith, eq_refl (id_of c)),
  map-All (λ b. 1 ≤ total (uses (id_of b)) l) (λ b. 1 ≤ total (uses (id_of b)) (c ∷ l)) l
      (λ b h. omega (arith, h)) (present l),
)

both-All : (P Q : Caller → Type 0) (l : List Caller) → All P l → All Q l → All (λ c. P c × Q c) l
both-All P Q [] a b = tt
both-All P Q (c ∷ l) a b = ((a.0, b.0), both-All P Q l a.1 b.1)

step-Fair : {s s' : System} → Step s s' → Fair s → Fair s'
unfolding free_token
step-Fair {s} (entered id) g =
    let v = enter-Entered s.locks _ _ id g.counted in
    record {
      counted =
          recount-Counted (enter id s.locks).0 _ _ _ _ (λ i. refl) (λ i. omega arith) v.counted;
      own = (
        v.mine,
        map-All (Owns s.locks) (Owns (enter id s.locks).0) s.callers
            (λ c. v.stay (id_of c) (lock_of c)) g.own,
      );
    }
step-Fair {s} (took l r id a k q t) g =
    let p = split-Apart s l (waiting id a) r q g in
    let v = take_token-Counted s.locks _ _ p.counts id a p.mine k t in
    join-Fair k l (holding id a) r (record {
      counts = recount-Counted k _ _ _ _ (λ i. refl) (λ i. omega arith) v.1;
      mine = ap (lookup id) v.0 ∙ p.mine;
      theirs =
          map-All (Owns s.locks) (Owns k) (l ++ r) (λ c h. ap (lookup (id_of c)) v.0 ∙ h) p.theirs;
    })
step-Fair {s} (gave_up l r id a q) g =
    let p = split-Apart s l (waiting id a) r q g in
    join-Fair s.locks l (leaving id a) r
      (record { counts = p.counts; mine = p.mine; theirs = p.theirs })
step-Fair {s} (freed l r id a q) g =
    let p = split-Apart s l (holding id a) r q g in
    join-Fair (free_token a s.locks) l (leaving id a) r (record {
      counts =
          recount-Counted (free_token a s.locks) _ _ _ _ (λ i. refl) (λ i. omega arith)
            (free_token-Counted s.locks _ _ id a p.counts p.mine);
      mine = p.mine;
      theirs = p.theirs;
    })
step-Fair {s} (dropped l r id a q) g =
    let p = split-Apart s l (leaving id a) r q g in
    let c : Counted s.locks (λ i. one id i + total (uses i) (l ++ r))
        (λ i. total (holds i) (l ++ r)) =
      recount-Counted s.locks _ _ _ _ (λ i. refl) (λ i. omega arith) p.counts in
    record {
      counted = drop_user-Counted s.locks _ _ id a c (λ i. holds-uses i (l ++ r)) p.mine;
      own =
          map-All (λ b. Owns s.locks b × (1 ≤ total (uses (id_of b)) (l ++ r)))
            (Owns (drop_user id a s.locks)) (l ++ r)
            (λ b h.
              drop_user-lookup s.locks _ _ id a c (λ i. holds-uses i (l ++ r)) p.mine (id_of b)
                (lock_of b) h.1 h.0)
            (both-All (Owns s.locks) (λ b. 1 ≤ total (uses (id_of b)) (l ++ r)) (l ++ r) p.theirs
              (present (l ++ r)));
    }

run-Fair : {s s' : System} → Steps s s' → Fair s → Fair s'
run-Fair here g = g
run-Fair (next r s) g = step-Fair s (run-Fair r g)

reach-Fair : {s : System} → Steps idle s → Fair s
reach-Fair r = run-Fair r (record { counted = no_locks-Counted; own = tt })

-- Whatever calls are under way, an ID has one holder at most.
pub one_holder : {s : System} (id : String) → Steps idle s → total (holds id) s.callers ≤ 1
one_holder {s} id r =
    let c = (reach-Fair r).counted in
    elim (Option-cases (lookup id s.locks.entries)) [
      | inl n ↦ omega (arith, c.unheld id n)
      | inr (a, e) ↦ ground (arith, c.busy id a e)
    ]

-- The table has exactly the IDs that a call uses: it holds nothing back, and no call loses its lock.
pub table_in_use :
    {s : System} (id : String)
    → Steps idle s
    → is_some (lookup id s.locks.entries) ≡ leb 1 (total (uses id) s.callers)
table_in_use {s} id r =
    let c = (reach-Fair r).counted in
    elim (Option-cases (lookup id s.locks.entries)) [
      | inl n ↦ ground (arith, n, c.absent id n)
      | inr (a, e) ↦ ground (arith, e, c.live id a e)
    ]

free_to_take :
    (l : ObjectLocks) (a : ℕ)
    → (l.objects a).held ≡ false
    → (k : ObjectLocks) × (take_token a l ≡ some k)
unfolding take_token
free_to_take l a n = (_, if_false n _ _)

-- A call that waits for an ID that no call holds can take its token at once.
pub waiter_proceeds :
    {s : System} (l r : List Caller) (id : String) (a : ℕ)
    → Steps idle s
    → s.callers ≡ l ++ (waiting id a ∷ r)
    → total (holds id) s.callers ≡ 0
    → (k : ObjectLocks) × (take_token a s.locks ≡ some k)
waiter_proceeds {s} l r id a t q n =
    let g = reach-Fair t in
    let p = split-Apart s l (waiting id a) r q g in
    free_to_take s.locks a (ground (arith, g.counted.busy id a p.mine, n))
