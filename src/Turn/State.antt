-- ===== src/Turn/State.antt =====
-- The state of the turns and the transitions that end them
-- (internal/turn/lifecycle/manager.go and the helpers of attempt.go).
--
-- Pointers, channels and executions are identities: numbers, handed out by the field `next`. A
-- nil pointer or channel is `none`. `closed` logs each `close` of a channel, and `finished` each
-- call of Execution.Finish, in the order of the calls, the latest first. The mutex is held through
-- each operation of the source, so an operation is one step.
use elbot.Base.{
  ℕ, String, Bool, true, false, not, Option, none, some, List, [], ◌∷◌, if◌then◌else◌, str_eq,
  insert, delete, is_some,
}
use elbot.Turn.Input.{Input, no_input}

pub data Phase : Type 0 where
  idle llm tool await_risk_confirm await_append_confirm compact stopping : Phase

pub data RiskAction : Type 0 where
  confirm confirm_tool confirm_all reject : RiskAction
  other_action : String → RiskAction

pub record RiskDecision : Type 0 where
  pub action : RiskAction
  pub extra : String
  pub reason : String

pub record RiskConfirmation : Type 0 where
  pub tool_name : String
  pub arguments : String
  pub risk : String
  pub detail : String

-- `riskResponse`, a channel with room for one decision.
pub record Response : Type 0 where
  pub channel : ℕ
  pub buffer : Option RiskDecision

pub record State : Type 0 where
  pub identity : ℕ
  pub execution : Option ℕ
  pub compact_ready : Bool
  pub reserved : Bool
  pub attempt : String
  pub phase : Phase
  pub original_input : Input
  pub pending : List Input
  pub risk_confirm : Option RiskConfirmation
  pub risk_response : Option Response
  pub wait_refresh : Option Bool  -- whether the one place of the channel is taken
  pub risk_done : Option ℕ
  pub tools : List (String × ℕ)
  pub attempt_done : Option ℕ

pub record Manager : Type 0 where
  pub turns : List (String × State)
  pub next : ℕ
  pub closed : List ℕ
  pub finished : List ℕ

abbrev pub new_manager : Manager
new_manager = record { turns = []; next = 0; closed = []; finished = [] }

abbrev pub is_llm : Phase → Bool
is_llm llm = true
is_llm _ = false

abbrev pub is_tool : Phase → Bool
is_tool tool = true
is_tool _ = false

abbrev pub is_await_risk : Phase → Bool
is_await_risk await_risk_confirm = true
is_await_risk _ = false

abbrev pub is_await_append : Phase → Bool
is_await_append await_append_confirm = true
is_await_append _ = false

abbrev pub is_compact : Phase → Bool
is_compact compact = true
is_compact _ = false

abbrev pub is_stopping : Phase → Bool
is_stopping stopping = true
is_stopping _ = false

abbrev pub matches : Option State → String → Bool
matches none expected = false
matches (some t) expected = str_eq t.attempt expected

-- A fresh `&state{...}` with the fields that a composite literal leaves at their zero values.
abbrev pub zero_state : ℕ → State
zero_state id = record {
  identity = id;
  execution = none;
  compact_ready = false;
  reserved = false;
  attempt = "";
  phase = idle;
  original_input = no_input;
  pending = [];
  risk_confirm = none;
  risk_response = none;
  wait_refresh = none;
  risk_done = none;
  tools = [];
  attempt_done = none;
}

abbrev pub push : Option ℕ → List ℕ → List ℕ
push none log = log
push (some c) log = c ∷ log

abbrev pub put : String → State → Manager → Manager
put sid t m = record m { turns = insert sid t m.turns }

-- refreshWait: a send that does nothing where the channel is nil or full.
abbrev pub refresh_wait : State → State
refresh_wait t = record t {
  wait_refresh = elim t.wait_refresh [ none ↦ none | some b ↦ some true ];
}

-- finishAttempt: the state, and the channel that is closed.
unfoldable pub finish_attempt_done : String → State → Manager → Manager
finish_attempt_done sid t m = record m {
  turns = insert sid (record t { attempt_done = none }) m.turns;
  closed = push t.attempt_done m.closed;
}

unfoldable pub remove_turn : String → State → Bool → Manager → Manager
remove_turn sid t preserve m = record m {
  turns = delete sid m.turns;
  closed = push t.risk_done (push t.attempt_done m.closed);
  finished = if preserve then m.finished else push t.execution m.finished;
}

unfoldable pub begin_stop_turn : String → State → Manager → Manager
unfolding remove_turn
begin_stop_turn sid t m =
    if not (is_some t.attempt_done) then remove_turn sid t false m else record m {
      turns = insert sid (record t { risk_done = none; phase = stopping; pending = [] }) m.turns;
      closed = push t.risk_done m.closed;
    }
