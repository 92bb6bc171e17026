-- ===== src/Turn/Attempt.antt =====
-- Admission, continuation and stopping of attempts (internal/turn/lifecycle/attempt.go, with the
-- queue operations of pending.go).
use elbot.Base.{
  ℕ, suc, ◌+◌, String, Bool, true, false, not, ◌&&◌, ◌||◌, Option, none, some, List, [], ◌∷◌, ◌++◌,
  if◌then◌else◌, str_eq, opt_eq, is_some, is_empty, lookup, insert,
}
use elbot.Turn.Input.{Input, no_input, has_content, normalize_input, merge_inputs}
use elbot.Turn.State.{
  State, Manager, llm, compact, tool, await_append_confirm, is_llm, is_tool, is_compact,
  is_stopping, is_await_risk, is_await_append, zero_state, push, put, refresh_wait,
  finish_attempt_done, remove_turn, begin_stop_turn,
}

-- A turn kept for the continuation of the execution `e`.
abbrev pub admits : Option ℕ → Option State → Bool
admits e none = true
admits e (some old) = old.reserved && opt_eq old.execution e && is_llm old.phase

abbrev pub blocks_compact : Option ℕ → Option State → Bool
blocks_compact e none = false
blocks_compact e (some old) =
    not old.reserved
    || not old.compact_ready
    || not (is_llm old.phase)
    || not (opt_eq old.execution e)

unfoldable pub start_attempt : String → Input → Option ℕ → String → Manager → Manager × Bool
start_attempt sid input e attempt m =
    let t = zero_state m.next in
    if admits e (lookup sid m.turns)
    then (
      record m {
        turns =
            insert sid
              (record t {
                phase = llm;
                original_input = normalize_input input;
                execution = e;
                attempt = attempt;
                attempt_done = some (m.next + 1);
              })
              m.turns;
        next = m.next + 2;
      },
      true,
    )
    else (m, false)

unfoldable pub reserve_execution : String → Input → Option ℕ → Manager → Manager × Bool
reserve_execution sid input e m =
    let t = zero_state m.next in
    if is_some (lookup sid m.turns) then (m, false) else (
      record m {
        turns =
            insert sid
              (record t {
                phase = llm;
                original_input = normalize_input input;
                execution = e;
                reserved = true;
              })
              m.turns;
        next = m.next + 1;
      },
      true,
    )

abbrev pub compactable : Option ℕ → Option State → Bool
compactable e none = true
compactable e (some t) = t.reserved && t.compact_ready && is_llm t.phase && opt_eq t.execution e

unfoldable pub can_compact : String → Option ℕ → Manager → Bool
can_compact sid e m = compactable e (lookup sid m.turns)

unfoldable pub start_compact_run : String → String → Option ℕ → Manager → Manager × Bool
start_compact_run sid run e m =
    let t = zero_state m.next in
    if blocks_compact e (lookup sid m.turns) then (m, false) else (
      record m {
        turns =
            insert sid
              (record t {
                phase = compact;
                attempt = run;
                execution = e;
                attempt_done = some (m.next + 1);
              })
              m.turns;
        next = m.next + 2;
      },
      true,
    )

unfoldable pub complete_compact_run : String → String → Manager → Manager × Bool
complete_compact_run sid run m = elim (lookup sid m.turns) [
  | none ↦ (m, false)
  | some t ↦
      if (is_compact t.phase || is_stopping t.phase) && str_eq t.attempt run
      then (remove_turn sid t true m, true)
      else (m, false)
]

unfoldable pub start_tool_phase : String → String → Manager → Manager × Bool
start_tool_phase sid attempt m = elim (lookup sid m.turns) [
  | none ↦ (m, false)
  | some t ↦
      if str_eq t.attempt attempt && is_llm t.phase
      then (put sid (record t { phase = tool }) m, true)
      else (m, false)
]

-- The continuation that CompleteTurn leaves behind where input is pending.
abbrev continuation : ℕ → State → Input → State
continuation id t pending =
    let s = zero_state id in
    record s {
      phase = llm;
      original_input = pending;
      execution = t.execution;
      reserved = true;
      compact_ready = true;
    }

complete_turn_with : String → State → Input → Manager → Manager
complete_turn_with sid t pending m =
    if not (is_some t.execution)
    then remove_turn sid t false m
    else if has_content pending
    then record m {
      turns = insert sid (continuation m.next t pending) m.turns;
      next = m.next + 1;
      closed = push t.attempt_done m.closed;
    }
    else remove_turn sid t true m

unfoldable pub complete_turn : String → String → Manager → Manager × Input × Bool
unfolding complete_turn_with
complete_turn sid attempt m = elim (lookup sid m.turns) [
  | none ↦ (m, no_input, false)
  | some t ↦
      let pending = merge_inputs t.pending in
      if str_eq t.attempt attempt && (is_llm t.phase || is_tool t.phase || is_await_risk t.phase)
      then (complete_turn_with sid t pending m, pending, true)
      else (m, no_input, false)
]

unfoldable pub finish_attempt : String → String → Manager → Manager
finish_attempt sid attempt m = elim (lookup sid m.turns) [
  | none ↦ m
  | some t ↦
      if not (str_eq t.attempt attempt)
      then m
      else if is_await_append t.phase
      then finish_attempt_done sid t m
      else remove_turn sid t false m
]

unfoldable pub stop_attempt : String → String → Manager → Manager
stop_attempt sid attempt m = elim (lookup sid m.turns) [
  | none ↦ m
  | some t ↦ if not (str_eq t.attempt attempt) then m else begin_stop_turn sid t m
]

unfoldable pub stop_session : String → Manager → Manager
stop_session sid m = elim (lookup sid m.turns) [ none ↦ m | some t ↦ begin_stop_turn sid t m ]

-- The range over the map reads each entry when it reaches it, and skips one that is gone. Its
-- order is that of the list; Go leaves the order open.
unfoldable pub stop_each : List (String × State) → Manager → Manager
stop_each [] m = m
stop_each ((sid, t) ∷ rest) m = stop_each rest (stop_session sid m)

unfoldable pub stop_all : Manager → Manager
stop_all m = stop_each m.turns m

unfoldable pub resume_append : String → Manager → Manager × Input × Option ℕ × Bool
resume_append sid m = elim (lookup sid m.turns) [
  | none ↦ (m, no_input, none, false)
  | some t ↦
      let input = merge_inputs (t.original_input ∷ t.pending) in
      if not (is_await_append t.phase) then (m, no_input, none, false) else (
        put sid
            (record t {
              phase = llm;
              original_input = input;
              pending = [];
              attempt = "";
              reserved = true;
            })
            m,
        input,
        t.execution,
        true,
      )
]

-- appendPending: the state, and whether the input was kept.
unfoldable pub append_pending : State → Input → State × Bool
append_pending t input =
    let i = normalize_input input in
    if has_content i then (record t { pending = t.pending ++ i ∷ [] }, true) else (t, false)

unfoldable pub begin_append : String → String → Input → Manager → Manager × Bool
unfolding append_pending
begin_append sid attempt input m = elim (lookup sid m.turns) [
  | none ↦ (m, false)
  | some t ↦
      if str_eq t.attempt attempt && is_llm t.phase
      then (put sid (append_pending (record t { phase = await_append_confirm }) input).0 m, true)
      else (m, false)
]

abbrev refreshed : State → Bool → State
refreshed t kept = if kept && is_await_append t.phase then refresh_wait t else t

unfoldable pub append_pending_input : String → Input → Manager → Manager × Bool
unfolding append_pending
append_pending_input sid input m = elim (lookup sid m.turns) [
  | none ↦ (m, false)
  | some t ↦
      let (t', kept) = append_pending t input in
      if is_await_append t.phase || is_tool t.phase
      then (put sid (refreshed t' kept) m, true)
      else (m, false)
]

unfoldable pub drain_merged_input : String → String → Manager → Manager × Input
drain_merged_input sid attempt m = elim (lookup sid m.turns) [
  | none ↦ (m, no_input)
  | some t ↦
      if not (str_eq t.attempt attempt) || is_empty t.pending
      then (m, no_input)
      else (put sid (record t { pending = [] }) m, merge_inputs t.pending)
]

abbrev count_tool : String → List (String × ℕ) → List (String × ℕ)
count_tool name tools = insert name (elim (lookup name tools) [ none ↦ 1 | some n ↦ suc n ]) tools

unfoldable pub add_tool_use : String → String → String → Manager → Manager
add_tool_use sid name attempt m = elim (lookup sid m.turns) [
  | none ↦ m
  | some t ↦
      if str_eq t.attempt attempt
      then put sid (record t { tools = count_tool name t.tools }) m
      else m
]
