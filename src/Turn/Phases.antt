-- ===== src/Turn/Phases.antt =====
-- The diagram of the phases, and what other sessions see of a step
-- (internal/turn/lifecycle: the phase that Snapshot shows).
use elbot.Base.{
  ℕ, ◌≡◌, refl, String, Bool, true, false, Option, arith, Distinct, lookup-insert_self,
  lookup-delete_self,
}
use elbot.Turn.State.{
  Phase, idle, llm, tool, await_risk_confirm, await_append_confirm, compact, stopping, State,
  Manager, RiskConfirmation, RiskDecision, remove_turn, begin_stop_turn, finish_attempt_done,
}
use elbot.Turn.Input.{Input}
use elbot.Turn.Attempt.{
  start_attempt, reserve_execution, start_compact_run, complete_compact_run, start_tool_phase,
  complete_turn, finish_attempt, stop_attempt, stop_session, resume_append, begin_append,
  append_pending_input, drain_merged_input, add_tool_use,
}
use elbot.Turn.Confirmation.{
  RiskWait, begin_risk_confirmation, expire, cancel, complete, receive, resolve_risk_confirmation,
  refresh_risk_confirmation,
}
use elbot.Turn.Ops.{run}
use elbot.Turn.Snapshot.{snapshot}
use elbot.Turn.Invariant.{ready, AllReady, AllReady-lookup}

abbrev pub ends : Phase → Bool
ends idle = true
ends stopping = true
ends _ = false

-- The diagram: which phase may follow which. A phase may stay; every phase may end at once, and
-- every stored one by stopping.
unfoldable pub edge : Phase → Phase → Bool
edge idle idle = true
edge idle llm = true
edge idle compact = true
edge idle _ = false
edge llm await_risk_confirm = false
edge llm _ = true
edge tool await_append_confirm = false
edge tool compact = false
edge tool _ = true
edge await_risk_confirm await_append_confirm = false
edge await_risk_confirm compact = false
edge await_risk_confirm _ = true
edge await_append_confirm await_append_confirm = true
edge await_append_confirm llm = true
edge await_append_confirm p = ends p
edge compact compact = true
edge compact p = ends p
edge stopping p = ends p

pub edge_refl : (p : Phase) → edge p p ≡ true
unfolding edge
edge_refl idle = refl
edge_refl _ = refl

pub edge-idle : (p : Phase) → edge p idle ≡ true
unfolding edge
edge-idle idle = refl
edge-idle _ = refl

edge-stopping : (t : State) → ready t ≡ true → edge t.phase stopping ≡ true
unfolding edge
edge-stopping t h = grind arith

ruleset edge_rules = (
  arith, edge_refl, edge-idle, edge-stopping, lookup-insert_self, lookup-delete_self,
  AllReady-lookup,
)

-- Does the phase of the session move along the diagram?
abbrev pub Moves : String → Manager → Manager → Type 0
Moves sid m m' = edge (snapshot sid m).phase (snapshot sid m').phase ≡ true

pub start_attempt-Moves :
    (sid : String) (i : Input) (e : Option ℕ) (a : String) (m : Manager)
    → Distinct m.turns
    → AllReady m
    → Moves sid m (start_attempt sid i e a m).0
unfolding start_attempt snapshot edge remove_turn begin_stop_turn finish_attempt_done
start_attempt-Moves sid i e a m d h = grind edge_rules

pub reserve_execution-Moves :
    (sid : String) (i : Input) (e : Option ℕ) (m : Manager)
    → Distinct m.turns
    → AllReady m
    → Moves sid m (reserve_execution sid i e m).0
unfolding reserve_execution snapshot edge remove_turn begin_stop_turn finish_attempt_done
reserve_execution-Moves sid i e m d h = grind edge_rules

pub start_compact_run-Moves :
    (sid run : String) (e : Option ℕ) (m : Manager)
    → Distinct m.turns
    → AllReady m
    → Moves sid m (start_compact_run sid run e m).0
unfolding start_compact_run snapshot edge remove_turn begin_stop_turn finish_attempt_done
start_compact_run-Moves sid run e m d h = grind edge_rules

pub complete_compact_run-Moves :
    (sid run : String) (m : Manager)
    → Distinct m.turns
    → AllReady m
    → Moves sid m (complete_compact_run sid run m).0
unfolding complete_compact_run snapshot edge remove_turn begin_stop_turn finish_attempt_done
complete_compact_run-Moves sid run m d h = grind edge_rules

pub start_tool_phase-Moves :
    (sid a : String) (m : Manager)
    → Distinct m.turns
    → AllReady m
    → Moves sid m (start_tool_phase sid a m).0
unfolding start_tool_phase snapshot edge remove_turn begin_stop_turn finish_attempt_done
start_tool_phase-Moves sid a m d h = grind edge_rules

pub complete_turn-Moves :
    (sid a : String) (m : Manager)
    → Distinct m.turns
    → AllReady m
    → Moves sid m (complete_turn sid a m).0
unfolding complete_turn snapshot edge remove_turn begin_stop_turn finish_attempt_done
complete_turn-Moves sid a m d h = grind edge_rules

pub finish_attempt-Moves :
    (sid a : String) (m : Manager)
    → Distinct m.turns
    → AllReady m
    → Moves sid m (finish_attempt sid a m)
unfolding finish_attempt snapshot edge remove_turn begin_stop_turn finish_attempt_done
finish_attempt-Moves sid a m d h = grind edge_rules

pub stop_attempt-Moves :
    (sid a : String) (m : Manager)
    → Distinct m.turns
    → AllReady m
    → Moves sid m (stop_attempt sid a m)
unfolding stop_attempt snapshot edge remove_turn begin_stop_turn finish_attempt_done
stop_attempt-Moves sid a m d h = grind edge_rules

pub stop_session-Moves :
    (sid : String) (m : Manager) → Distinct m.turns → AllReady m → Moves sid m (stop_session sid m)
unfolding stop_session snapshot edge remove_turn begin_stop_turn finish_attempt_done
stop_session-Moves sid m d h = grind edge_rules

pub resume_append-Moves :
    (sid : String) (m : Manager)
    → Distinct m.turns
    → AllReady m
    → Moves sid m (resume_append sid m).0
unfolding resume_append snapshot edge remove_turn begin_stop_turn finish_attempt_done
resume_append-Moves sid m d h = grind edge_rules

pub begin_append-Moves :
    (sid a : String) (i : Input) (m : Manager)
    → Distinct m.turns
    → AllReady m
    → Moves sid m (begin_append sid a i m).0
unfolding begin_append snapshot edge remove_turn begin_stop_turn finish_attempt_done
begin_append-Moves sid a i m d h = grind edge_rules

pub append_pending_input-Moves :
    (sid : String) (i : Input) (m : Manager)
    → Distinct m.turns
    → AllReady m
    → Moves sid m (append_pending_input sid i m).0
unfolding append_pending_input snapshot edge remove_turn begin_stop_turn finish_attempt_done
append_pending_input-Moves sid i m d h = grind edge_rules

pub drain_merged_input-Moves :
    (sid a : String) (m : Manager)
    → Distinct m.turns
    → AllReady m
    → Moves sid m (drain_merged_input sid a m).0
unfolding drain_merged_input snapshot edge remove_turn begin_stop_turn finish_attempt_done
drain_merged_input-Moves sid a m d h = grind edge_rules

pub add_tool_use-Moves :
    (sid name a : String) (m : Manager)
    → Distinct m.turns
    → AllReady m
    → Moves sid m (add_tool_use sid name a m)
unfolding add_tool_use snapshot edge remove_turn begin_stop_turn finish_attempt_done
add_tool_use-Moves sid name a m d h = grind edge_rules

pub begin_risk_confirmation-Moves :
    (sid : String) (r : RiskConfirmation) (a : String) (m : Manager)
    → Distinct m.turns
    → AllReady m
    → Moves sid m (begin_risk_confirmation sid r a m).0
unfolding begin_risk_confirmation snapshot edge remove_turn begin_stop_turn finish_attempt_done
begin_risk_confirmation-Moves sid r a m d h = grind edge_rules

pub expire-Moves :
    (w : RiskWait) (m : Manager) → Distinct m.turns → AllReady m → Moves w.session m (expire w m).0
unfolding expire snapshot edge remove_turn begin_stop_turn finish_attempt_done
expire-Moves w m d h = grind edge_rules

pub cancel-Moves :
    (w : RiskWait) (m : Manager) → Distinct m.turns → AllReady m → Moves w.session m (cancel w m).0
unfolding cancel snapshot edge remove_turn begin_stop_turn finish_attempt_done
cancel-Moves w m d h = grind edge_rules

pub complete-Moves :
    (w : RiskWait) (failed : Bool) (m : Manager)
    → Distinct m.turns
    → AllReady m
    → Moves w.session m (complete w failed m).0
unfolding complete snapshot edge remove_turn begin_stop_turn finish_attempt_done
complete-Moves w failed m d h = grind edge_rules

pub receive-Moves :
    (w : RiskWait) (m : Manager) → Distinct m.turns → AllReady m → Moves w.session m (receive w m)
unfolding receive snapshot edge remove_turn begin_stop_turn finish_attempt_done
receive-Moves w m d h = grind edge_rules

pub resolve_risk_confirmation-Moves :
    (sid : String) (r : RiskDecision) (m : Manager)
    → Distinct m.turns
    → AllReady m
    → Moves sid m (resolve_risk_confirmation sid r m).0
unfolding resolve_risk_confirmation snapshot edge remove_turn begin_stop_turn finish_attempt_done
resolve_risk_confirmation-Moves sid r m d h = grind edge_rules

pub refresh_risk_confirmation-Moves :
    (sid : String) (m : Manager)
    → Distinct m.turns
    → AllReady m
    → Moves sid m (refresh_risk_confirmation sid m).0
unfolding refresh_risk_confirmation snapshot edge remove_turn begin_stop_turn finish_attempt_done
refresh_risk_confirmation-Moves sid m d h = grind edge_rules
