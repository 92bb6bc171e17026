-- ===== src/Session/Binding.antt =====
-- The current bindings of the scopes (internal/session/binding, internal/session/share/binding.go).
--
-- A scope is its key. A handle is a number, which stands for the pointer's identity; `invalid` logs
-- the handles that were invalidated, `events` the published changes, the latest first. The
-- version is a uint64. Of the admission, the count of admitted calls and the closing are modelled; the
-- gates of the single keys are not, nor is the wait of Close for the end of the event source and for its
-- own goroutine.
pub mod Handles
pub mod Admission
pub mod Current
pub mod Clearing
use elbot.Base.{
  contains, ℕ, zero, suc, ◌+◌, ◌-◌, ◌*◌, ◌%◌, ◌^◌, String, Bool, true, false, not, ◌&&◌, ◌||◌,
  Option, none, some, List, [], ◌∷◌, if◌then◌else◌, str_eq, lookup, insert, delete, ◌==◌, Entries,
  is_some,
}

pub record Binding : Type 0 where
  pub scope : String
  pub session_id : String
  pub version : ℕ
  pub handle : ℕ

pub record BindingChangedEvent : Type 0 where
  pub version : ℕ
  pub old : Option Binding
  pub new : Option Binding

-- `stop_closes` and `idle_closes` count the closings of the two channels.
pub record Manager : Type 0 where
  pub current : Entries Binding
  pub next_handle : ℕ
  pub invalid : List ℕ
  pub binding_version : ℕ
  pub events : List BindingChangedEvent
  pub active : ℕ
  pub closed : Bool
  pub stop_closes : ℕ
  pub idle_closes : ℕ

abbrev pub new_manager : Manager
new_manager = record {
  current = [];
  next_handle = 0;
  invalid = [];
  binding_version = 0;
  events = [];
  active = 0;
  closed = false;
  stop_closes = 0;
  idle_closes = 0;
}

unfoldable pub current_binding : Manager → String → Option Binding
unfolding lookup
current_binding m scope = lookup scope m.current

-- Binding.Valid
unfoldable pub valid : Manager → Binding → Bool
unfolding contains
valid m b = not (contains b.handle m.invalid)

unfoldable pub next_version : Manager → ℕ
next_version m = (m.binding_version + 1) % 2 ^ 64

-- What a change does to the scope's old binding, without the new one.
unfoldable pub unbind : String → Option Binding → Manager → Manager
unfolding delete next_version
unbind scope none m = m
unbind scope (some old) m = record m {
  current = delete scope m.current;
  invalid = old.handle ∷ m.invalid;
  binding_version = next_version m;
  events = record { version = next_version m; old = some old; new = none } ∷ m.events;
}

-- NewBinding, stored and announced.
unfoldable pub bind : String → String → Option Binding → Manager → Manager
unfolding insert next_version
bind scope id old m =
    let b : Binding = record {
      scope = scope;
      session_id = id;
      version = next_version m;
      handle = m.next_handle;
    } in
    record m {
      current = insert scope b m.current;
      next_handle = m.next_handle + 1;
      invalid = elim old [ none ↦ m.invalid | some o ↦ o.handle ∷ m.invalid ];
      binding_version = next_version m;
      events = record { version = next_version m; old = old; new = some b } ∷ m.events;
    }

unfoldable pub set_from : String → String → Option Binding → Manager → Manager
unfolding unbind bind
set_from scope id none m = if str_eq id "" then m else bind scope id none m
set_from scope id (some old) m =
    if str_eq old.session_id id
    then m
    else (if str_eq id "" then unbind scope (some old) m else bind scope id (some old) m)

unfoldable pub set_current : String → String → Manager → Manager
unfolding set_from
set_current scope id m = set_from scope id (current_binding m scope) m

-- One round of the loop of ClearSessionBindings.
unfoldable pub clear_one : String → String → Manager → Manager
unfolding unbind
clear_one id scope m = elim (current_binding m scope) [
  | none ↦ m
  | some b ↦ if str_eq b.session_id id then unbind scope (some b) m else m
]

unfoldable pub keys : Entries Binding → List String
keys [] = []
keys ((scope, b) ∷ rest) = scope ∷ keys rest

unfoldable pub clear_each : String → List String → Manager → Manager
unfolding clear_one
clear_each id [] m = m
clear_each id (scope ∷ rest) m = clear_each id rest (clear_one id scope m)

unfoldable pub clear_session_bindings : String → Manager → Manager
unfolding clear_each keys
clear_session_bindings id m = clear_each id (keys m.current) m

unfoldable pub begin_close : Manager → Manager
begin_close m = if m.closed then m else record m {
  closed = true;
  stop_closes = m.stop_closes + 1;
  idle_closes = if m.active == 0 then m.idle_closes + 1 else m.idle_closes;
}

unfoldable pub invalidate_all : Entries Binding → List ℕ → List ℕ
invalidate_all [] invalid = invalid
invalidate_all ((scope, b) ∷ rest) invalid = b.handle ∷ invalidate_all rest invalid

-- What the goroutine of Close does to the bindings once `idle` is closed; the gates and the event source are
-- not modelled.
unfoldable pub close_bindings : Manager → Manager
unfolding invalidate_all
close_bindings m = record m { current = []; invalid = invalidate_all m.current m.invalid }

-- The start of enterKeys: a closed manager admits nobody.
unfoldable pub begin_admission : Manager → Manager × Bool
begin_admission m = if m.closed then (m, false) else (record m { active = m.active + 1 }, true)

unfoldable pub finish_admission : Manager → Manager
finish_admission m = record m {
  active = m.active - 1;
  idle_closes = if m.closed && ((m.active - 1) == 0) then m.idle_closes + 1 else m.idle_closes;
}
