-- ===== src/Media/Locks/Callers.antt =====
-- The calls of acquire that are under way, in any order (internal/media/object/locks.go).
use elbot.Base.{ℕ, ◌+◌, ◌≡◌, refl, String, some, List, [], ◌∷◌, ◌++◌, if◌then◌else◌, str_eq, arith}
use elbot.Media.Locks.{ObjectLocks, no_locks, enter, take_token, free_token, drop_user}

-- A call with its ID and its entry: it waits for the token; it has it, so that its caller may change the
-- object; it is past it, with its drop before it.
pub data Caller : Type 0 where
  waiting holding leaving : String → ℕ → Caller

abbrev pub id_of : Caller → String
id_of (waiting id a) = id
id_of (holding id a) = id
id_of (leaving id a) = id

abbrev pub lock_of : Caller → ℕ
lock_of (waiting id a) = a
lock_of (holding id a) = a
lock_of (leaving id a) = a

abbrev pub uses : String → Caller → ℕ
uses id c = if str_eq (id_of c) id then 1 else 0

abbrev pub holds : String → Caller → ℕ
holds id (waiting i a) = 0
holds id (holding i a) = if str_eq i id then 1 else 0
holds id (leaving i a) = 0

abbrev pub total : (Caller → ℕ) → List Caller → ℕ
total f [] = 0
total f (c ∷ l) = f c + total f l

pub total-append :
    (f : Caller → ℕ) (l : List Caller) (c : Caller) (r : List Caller)
    → total f (l ++ (c ∷ r)) ≡ f c + total f (l ++ r)
total-append f [] c r = refl
total-append f (b ∷ l) c r = ground (arith, total-append f l c r)

pub record System : Type 0 where
  pub locks : ObjectLocks
  pub callers : List Caller

abbrev pub idle : System
idle = record { locks = no_locks; callers = [] }

-- One caller goes on. A call that waits gives up when its context is done, and the caller that holds the
-- token frees it, or acquire itself where the context is done.
pub data Step (s : System) : System → Type 0 where
  entered :
      (id : String)
      → Step s (record {
        locks = (enter id s.locks).0;
        callers = waiting id (enter id s.locks).1 ∷ s.callers;
      })
  took :
      (l r : List Caller) (id : String) (a : ℕ) (k : ObjectLocks)
      → s.callers ≡ l ++ (waiting id a ∷ r)
      → take_token a s.locks ≡ some k
      → Step s (record { locks = k; callers = l ++ (holding id a ∷ r) })
  gave_up :
      (l r : List Caller) (id : String) (a : ℕ)
      → s.callers ≡ l ++ (waiting id a ∷ r)
      → Step s (record { locks = s.locks; callers = l ++ (leaving id a ∷ r) })
  freed :
      (l r : List Caller) (id : String) (a : ℕ)
      → s.callers ≡ l ++ (holding id a ∷ r)
      → Step s (record { locks = free_token a s.locks; callers = l ++ (leaving id a ∷ r) })
  dropped :
      (l r : List Caller) (id : String) (a : ℕ)
      → s.callers ≡ l ++ (leaving id a ∷ r)
      → Step s (record { locks = drop_user id a s.locks; callers = l ++ r })

pub data Steps (s : System) : System → Type 0 where
  here : Steps s s
  next : {s' s'' : System} → Steps s s' → Step s' s'' → Steps s s''
