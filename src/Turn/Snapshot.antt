-- ===== src/Turn/Snapshot.antt =====
-- What the manager shows of a session (internal/turn/lifecycle/manager.go).
use elbot.Base.{ℕ, String, Option, none, some, List, [], lookup, length}
use elbot.Turn.State.{Phase, idle, State, Manager}

pub record Snapshot : Type 0 where
  pub session_id : String
  pub phase : Phase
  pub pending_count : ℕ
  pub tools : List (String × ℕ)
  pub attempt_done : Option ℕ
  pub execution : Option ℕ
  pub attempt : String

abbrev pub snapshot_of : String → Option State → Snapshot
snapshot_of sid none = record {
  session_id = sid;
  phase = idle;
  pending_count = 0;
  tools = [];
  attempt_done = none;
  execution = none;
  attempt = "";
}
snapshot_of sid (some t) = record {
  session_id = sid;
  phase = t.phase;
  pending_count = length t.pending;
  tools = t.tools;
  attempt_done = t.attempt_done;
  execution = t.execution;
  attempt = t.attempt;
}

unfoldable pub snapshot : String → Manager → Snapshot
snapshot sid m = snapshot_of sid (lookup sid m.turns)
