-- ===== src/Request.antt =====
-- The requests in flight (internal/request/manager.go).
--
-- A context is the chain of its cancel functions, its own first and those it inherits after; the
-- cancelled ones and those whose deadline has passed are logged in `ended`, so `ctx.Err() != nil`
-- asks whether the chain meets the log. The ID sequence is not part of the package: its result is
-- an argument of `start`, as is the time. The facts that `start` adds to the context's execution are
-- left out. `once` logs the done functions that have run.
pub mod Cancelling
pub mod Examples
use elbot.Base.{
  contains, ℕ, ◌+◌, String, Bool, true, false, not, ◌&&◌, ◌||◌, Option, none, some, List, [], ◌∷◌,
  ◌++◌, if◌then◌else◌, str_eq, lookup, insert, delete, length, ◌==◌, Entries,
}

pub data Kind : Type 0 where
  turn tool hook compress : Kind

pub record Request : Type 0 where
  pub id : String
  pub parent_id : String
  pub session_id : String
  pub kind : Kind
  pub label : String
  pub started_at : ℕ
  pub stopping : Bool

pub record StartRequest : Type 0 where
  pub parent_id : String
  pub session_id : String
  pub kind : Kind
  pub label : String
  pub timeout : ℕ

pub record ActiveRequest : Type 0 where
  pub request : Request
  pub cancel : ℕ
  pub ctx : List ℕ

pub record Manager : Type 0 where
  pub active : Entries ActiveRequest
  pub next_context : ℕ
  pub ended : List ℕ
  pub once : List ℕ

abbrev pub new_manager : Manager
new_manager = record { active = []; next_context = 0; ended = []; once = [] }

-- ctx.Err() != nil
unfoldable pub has_err : List ℕ → List ℕ → Bool
unfolding contains
has_err [] ended = false
has_err (c ∷ chain) ended = contains c ended || has_err chain ended

-- What Start hands to its caller: the request, its context, and what `done` closes over.
pub record Started : Type 0 where
  pub request : Request
  pub ctx : List ℕ
  pub cancel : ℕ

unfoldable pub new_started : String → List ℕ → StartRequest → ℕ → ℕ → Started
new_started id parent req now c = record {
  request = record {
    id = id;
    parent_id = req.parent_id;
    session_id = req.session_id;
    kind = req.kind;
    label = req.label;
    started_at = now;
    stopping = false;
  };
  ctx = c ∷ parent;
  cancel = c;
}

unfoldable pub register : Started → Manager → Manager
unfolding insert
register s m = record m {
  active =
      insert s.request.id (record { request = s.request; cancel = s.cancel; ctx = s.ctx }) m.active;
  next_context = m.next_context + 1;
}

unfoldable pub start :
    Option String → List ℕ → StartRequest → ℕ → Manager → Manager × Option Started
unfolding new_started register
start none parent req now m = (m, none)
start (some id) parent req now m =
    let s = new_started id parent req now m.next_context in (register s m, some s)

-- The closure `done`, which runs once.
unfoldable pub done : Started → Manager → Manager
unfolding delete contains
done s m = if contains s.cancel m.once then m else record m {
  active = delete s.request.id m.active;
  ended = s.cancel ∷ m.ended;
  once = s.cancel ∷ m.once;
}

-- The end of a context that is not the manager's doing: a deadline, or a caller's cancel.
unfoldable pub end_context : ℕ → Manager → Manager
end_context c m = record m { ended = c ∷ m.ended }

unfoldable pub snapshot : List ℕ → ActiveRequest → Request
unfolding has_err
snapshot ended a = record (a.request) { stopping = a.request.stopping || has_err a.ctx ended }

unfoldable pub list_entries : List ℕ → Entries ActiveRequest → List Request
unfolding snapshot
list_entries ended [] = []
list_entries ended ((id, a) ∷ rest) = snapshot ended a ∷ list_entries ended rest

unfoldable pub list : Manager → List Request
unfolding list_entries
list m = list_entries m.ended m.active

unfoldable pub session_entries : String → List ℕ → Entries ActiveRequest → List Request
unfolding snapshot
session_entries sid ended [] = []
session_entries sid ended ((id, a) ∷ rest) =
    let more = session_entries sid ended rest in
    if str_eq a.request.session_id sid then snapshot ended a ∷ more else more

unfoldable pub list_by_session : String → Manager → List Request
unfolding session_entries
list_by_session sid m = session_entries sid m.ended m.active

unfoldable pub get : String → Manager → Option Request
unfolding lookup snapshot
get id m = elim (lookup id m.active) [ none ↦ none | some a ↦ some (snapshot m.ended a) ]

unfoldable pub mark_stopping : ActiveRequest → ActiveRequest
mark_stopping a = record a { request = record (a.request) { stopping = true } }

-- `cancel()` runs after the mutex is released; nothing of the method follows it.
unfoldable pub cancel : String → Manager → Manager × Bool
unfolding lookup insert snapshot mark_stopping
cancel id m = elim (lookup id m.active) [
  | none ↦ (m, false)
  | some a ↦ if (snapshot m.ended a).stopping then (m, false) else (
    record m { active = insert id (mark_stopping a) m.active; ended = a.cancel ∷ m.ended },
    true,
  )
]

-- The test of the loop of CancelSession.
unfoldable pub to_cancel : String → List ℕ → ActiveRequest → Bool
unfolding snapshot
to_cancel sid ended a = str_eq a.request.session_id sid && not (snapshot ended a).stopping

unfoldable pub mark_session :
    String → List ℕ → Entries ActiveRequest → Entries ActiveRequest × List ℕ
unfolding to_cancel mark_stopping
mark_session sid ended [] = ([], [])
mark_session sid ended ((id, a) ∷ rest) =
    let more = mark_session sid ended rest in
    if to_cancel sid ended a
    then ((id, mark_stopping a) ∷ more.0, a.cancel ∷ more.1)
    else ((id, a) ∷ more.0, more.1)

-- The contexts are cancelled after the loop, outside the mutex.
unfoldable pub cancel_session : String → Manager → Manager × ℕ
unfolding mark_session
cancel_session sid m =
    let marked = mark_session sid m.ended m.active in
    (record m { active = marked.0; ended = marked.1 ++ m.ended }, length marked.1)
