-- ===== src/Turn/Ops.antt =====
-- Every operation of the turn manager as one step, and runs of them
-- (internal/turn/lifecycle: the methods of Manager and the callbacks of RiskWait).
use elbot.Base.{ℕ, String, Bool, Option, List, [], ◌∷◌}
use elbot.Turn.Input.{Input}
use elbot.Turn.State.{Manager, RiskDecision, RiskConfirmation}
use elbot.Turn.Attempt.{
  start_attempt, reserve_execution, start_compact_run, complete_compact_run, start_tool_phase,
  complete_turn, finish_attempt, stop_attempt, stop_session, stop_all, resume_append, begin_append,
  append_pending_input, drain_merged_input, add_tool_use,
}
use elbot.Turn.Confirmation.{
  RiskWait, begin_risk_confirmation, expire, cancel, complete, receive, resolve_risk_confirmation,
  refresh_risk_confirmation,
}

pub data Op : Type 0 where
  start : String → Input → Option ℕ → String → Op
  reserve : String → Input → Option ℕ → Op
  start_compact : String → String → Option ℕ → Op
  complete_compact : String → String → Op
  start_tool : String → String → Op
  complete_attempt : String → String → Op
  finish : String → String → Op
  stop_one : String → String → Op
  stop_owner : String → Op
  stop_every : Op
  resume : String → Op
  begin_input : String → String → Input → Op
  append_input : String → Input → Op
  drain : String → String → Op
  use_tool : String → String → String → Op
  begin_risk : String → RiskConfirmation → String → Op
  expire_wait : RiskWait → Op
  cancel_wait : RiskWait → Op
  complete_wait : RiskWait → Bool → Op
  receive_decision : RiskWait → Op
  resolve : String → RiskDecision → Op
  refresh : String → Op

unfoldable pub apply : Op → Manager → Manager
apply (start sid i e a) m = (start_attempt sid i e a m).0
apply (reserve sid i e) m = (reserve_execution sid i e m).0
apply (start_compact sid run e) m = (start_compact_run sid run e m).0
apply (complete_compact sid run) m = (complete_compact_run sid run m).0
apply (start_tool sid a) m = (start_tool_phase sid a m).0
apply (complete_attempt sid a) m = (complete_turn sid a m).0
apply (finish sid a) m = finish_attempt sid a m
apply (stop_one sid a) m = stop_attempt sid a m
apply (stop_owner sid) m = stop_session sid m
apply stop_every m = stop_all m
apply (resume sid) m = (resume_append sid m).0
apply (begin_input sid a i) m = (begin_append sid a i m).0
apply (append_input sid i) m = (append_pending_input sid i m).0
apply (drain sid a) m = (drain_merged_input sid a m).0
apply (use_tool sid name a) m = add_tool_use sid name a m
apply (begin_risk sid r a) m = (begin_risk_confirmation sid r a m).0
apply (expire_wait w) m = (expire w m).0
apply (cancel_wait w) m = (cancel w m).0
apply (complete_wait w failed) m = (complete w failed m).0
apply (receive_decision w) m = receive w m
apply (resolve sid d) m = (resolve_risk_confirmation sid d m).0
apply (refresh sid) m = (refresh_risk_confirmation sid m).0

unfoldable pub run : List Op → Manager → Manager
run [] m = m
run (op ∷ ops) m = run ops (apply op m)
