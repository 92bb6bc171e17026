-- ===== src/Contextmgr/Loader/Laws.antt =====
-- What the loader relies on in the store (internal/storage/storage.go), and what its loops then do
-- (internal/contextmgr/loader.go).
use elbot.Base.{
  arith, ℕ, zero, suc, ◌≡◌, refl, subst, String, Bool, true, false, List, [], ◌∷◌, ◌++◌, All,
  str_eq, length, take, drop, if_elim,
}
use elbot.Contextmgr.Loader.{
  LoadError, not_found, fork_depth_exceeded, checkpoint_missing, store_failed, Result, ok, err,
  Store, HistoryRange, History, add_range, uncounted, collect,
}

-- `rows` are the messages of a session's conversation up to a message, newest first: they are counted,
-- and where that is possible, read from an offset on, as many as asked for.
pub record Lawful {Message : Type 0} (store : Store Message) (rows : String → String → List Message)
    : Type 0 where
  pub counted :
      (id until : String) (n : ℕ)
      → store.count_conversation id until ≡ ok n
      → n ≡ length (rows id until)
  pub listed :
      (id until : String) (n limit offset : ℕ)
      → store.count_conversation id until ≡ ok n
      → store.list_conversation id until limit offset
        ≡ ok (take limit (drop offset (rows id until)))

-- A result of either kind.
res_elim :
    {A B : Type 0} (P : B → Type 0) (o : Result A) (f : LoadError → B) (g : A → B)
    → ((e : LoadError) → P (f e))
    → ((a : A) → o ≡ ok a → P (g a))
    → P (elim o [ err e ↦ f e | ok a ↦ g a ])
res_elim P (err e) f g p q = p e
res_elim P (ok a) f g p q = q a refl

pub ok-step :
    {A B : Type 0} (P : B → Type 0) (o : Result A) (f : LoadError → B) (g : A → B) (a : A)
    → o ≡ ok a
    → P (g a)
    → P (elim o [ err e ↦ f e | ok a ↦ g a ])
ok-step P (err e) f g a q p = absurd (ground arith)
ok-step P (ok x) f g a q p = subst (λ y. P (g y)) (same q) p
  where
    same : ok x ≡ ok a → a ≡ x
    same q = ground arith

pub err-step :
    {A B : Type 0} (P : B → Type 0) (o : Result A) (f : LoadError → B) (g : A → B) (e : LoadError)
    → o ≡ err e
    → P (f e)
    → P (elim o [ err e ↦ f e | ok a ↦ g a ])
err-step P (ok x) f g e q p = absurd (ground arith)
err-step {A} P (err x) f g e q p = subst (λ y. P (f y)) (same q) p
  where
    same : ◌≡◌ {A = Result A} (err x) (err e) → e ≡ x
    same q = ground arith

module _ {Message : Type 0} (store : Store Message) where
  -- The store has counted this range.
  abbrev pub IsCounted : HistoryRange → Type 0
  IsCounted r = store.count_conversation r.id r.until ≡ ok r.count

  abbrev AllCounted : Result History → Type 0
  AllCounted (ok h) = All IsCounted h.ranges
  AllCounted (err e) = Unit

  add_range-AllCounted :
      (r : HistoryRange) (o : Result History)
      → IsCounted r
      → AllCounted o
      → AllCounted (add_range r o)
  unfolding add_range
  add_range-AllCounted r (ok h) c a = (c, a)
  add_range-AllCounted r (err e) c a = tt

  uncounted-AllCounted :
      (until : String) (e : LoadError) (o : Result History)
      → AllCounted o
      → AllCounted (uncounted until e o)
  unfolding uncounted
  uncounted-AllCounted until not_found o a =
      if_elim AllCounted (str_eq until "") _ _ (λ _. tt) (λ _. a)
  uncounted-AllCounted until fork_depth_exceeded o a = tt
  uncounted-AllCounted until (checkpoint_missing id) o a = tt
  uncounted-AllCounted until (store_failed n) o a = tt

  collect-AllCounted :
      (rounds : ℕ) (id until : String) (b : Bool) → AllCounted (collect store rounds id until b)
  unfolding collect
  collect-AllCounted zero id until b = if_elim AllCounted (str_eq id "") _ _ (λ _. tt) (λ _. tt)
  collect-AllCounted (suc rounds) id until b =
      if_elim AllCounted (str_eq id "") _ _ (λ _. tt)
        (λ _.
          res_elim AllCounted (store.get_session id) _ _ (λ e. tt)
            (λ row _.
              res_elim AllCounted (store.count_conversation id until) _ _
                (λ e.
                  uncounted-AllCounted until e _ (collect-AllCounted rounds row.parent until true))
                (λ count c. add_range-AllCounted _ _ c (
                  if_elim AllCounted (str_eq row.fork_from "") _ _ (λ _. tt)
                    (λ _. collect-AllCounted rounds row.parent row.fork_from false)))))

  -- The store has counted every range that the first loop finds.
  pub collect-IsCounted :
      (rounds : ℕ) (id until : String) (b : Bool) (h : History)
      → collect store rounds id until b ≡ ok h
      → All IsCounted h.ranges
  collect-IsCounted rounds id until b h e =
      subst AllCounted e (collect-AllCounted rounds id until b)

-- The conversation of some ranges, newest first.
unfoldable pub rows_of :
    {Message : Type 0} → (String → String → List Message) → List HistoryRange → List Message
rows_of rows [] = []
rows_of rows (r ∷ rest) = rows r.id r.until ++ rows_of rows rest
