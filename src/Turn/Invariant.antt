-- ===== src/Turn/Invariant.antt =====
-- Every stored turn is in good order (internal/turn/lifecycle: what the phases promise).
use elbot.Base.{
  ℕ, ◌+◌, ◌≤◌, ◌≡◌, String, Bool, true, false, not, ◌&&◌, Option, some, List, [], ◌∷◌, arith,
  if◌then◌else◌, lookup, insert, delete, weigh, weigh-insert, weigh-delete, weigh_opt-le-weigh,
  weigh_opt, is_some, is_empty,
}
use elbot.Turn.State.{
  Phase, idle, stopping, compact, await_risk_confirm, State, Manager, RiskConfirmation,
  RiskDecision, new_manager, remove_turn, begin_stop_turn, finish_attempt_done,
}
use elbot.Turn.Input.{Input}
use elbot.Turn.Attempt.{
  start_attempt, reserve_execution, start_compact_run, complete_compact_run, start_tool_phase,
  complete_turn, finish_attempt, stop_attempt, stop_session, resume_append, begin_append,
  append_pending_input, drain_merged_input, add_tool_use, stop_each, stop_all,
}
use elbot.Turn.Confirmation.{
  RiskWait, begin_risk_confirmation, expire, cancel, complete, receive, resolve_risk_confirmation,
  refresh_risk_confirmation,
}
use elbot.Turn.Ops.{Op, apply, run}

-- What each phase promises of its turn: the idle phase is never stored, a risk confirmation has all
-- its parts, a stopping or compacting turn has an owner that is still to finish, and a stopping one
-- has dropped its input. Outside a confirmation no riskDone channel is open.
abbrev pub ready_in : Phase → State → Bool
ready_in idle t = false
ready_in await_risk_confirm t =
    is_some t.risk_confirm
    && is_some t.risk_response
    && is_some t.wait_refresh
    && is_some t.risk_done
ready_in stopping t = is_some t.attempt_done && is_empty t.pending && not (is_some t.risk_done)
ready_in compact t = is_some t.attempt_done && not t.reserved && not (is_some t.risk_done)
ready_in _ t = not (is_some t.risk_done)

abbrev pub ready : State → Bool
ready t = ready_in t.phase t

abbrev unready : State → ℕ
unready t = if ready t then 0 else 1

insert-unready :
    (k : String) (t : State) (m : List (String × State))
    → weigh unready (insert k t m) + weigh_opt unready (lookup k m) ≡ weigh unready m + unready t
insert-unready = weigh-insert unready

delete-unready :
    (k : String) (m : List (String × State))
    → weigh unready (delete k m) + weigh_opt unready (lookup k m) ≡ weigh unready m
delete-unready = weigh-delete unready

lookup-unready :
    (k : String) (m : List (String × State)) → weigh_opt unready (lookup k m) ≤ weigh unready m
lookup-unready = weigh_opt-le-weigh unready

ruleset ready_rules = (arith, insert-unready, delete-unready, lookup-unready)

-- No stored turn is out of order.
pub AllReady : Manager → Type 0
AllReady m = weigh unready m.turns ≤ 0

pub AllReady-lookup :
    (m : Manager) (sid : String) {t : State}
    → AllReady m
    → lookup sid m.turns ≡ some t
    → ready t ≡ true
unfolding AllReady
AllReady-lookup m sid h e = grind (arith, weigh_opt-le-weigh unready sid m.turns)

pub start_attempt-AllReady :
    (sid : String) (i : Input) (e : Option ℕ) (a : String) (m : Manager)
    → AllReady m
    → AllReady (start_attempt sid i e a m).0
unfolding start_attempt AllReady remove_turn begin_stop_turn finish_attempt_done
start_attempt-AllReady sid i e a m h = grind ready_rules

pub reserve_execution-AllReady :
    (sid : String) (i : Input) (e : Option ℕ) (m : Manager)
    → AllReady m
    → AllReady (reserve_execution sid i e m).0
unfolding reserve_execution AllReady remove_turn begin_stop_turn finish_attempt_done
reserve_execution-AllReady sid i e m h = grind ready_rules

pub start_compact_run-AllReady :
    (sid run : String) (e : Option ℕ) (m : Manager)
    → AllReady m
    → AllReady (start_compact_run sid run e m).0
unfolding start_compact_run AllReady remove_turn begin_stop_turn finish_attempt_done
start_compact_run-AllReady sid run e m h = grind ready_rules

pub complete_compact_run-AllReady :
    (sid run : String) (m : Manager) → AllReady m → AllReady (complete_compact_run sid run m).0
unfolding complete_compact_run AllReady remove_turn begin_stop_turn finish_attempt_done
complete_compact_run-AllReady sid run m h = grind ready_rules

pub start_tool_phase-AllReady :
    (sid a : String) (m : Manager) → AllReady m → AllReady (start_tool_phase sid a m).0
unfolding start_tool_phase AllReady remove_turn begin_stop_turn finish_attempt_done
start_tool_phase-AllReady sid a m h = grind ready_rules

pub complete_turn-AllReady :
    (sid a : String) (m : Manager) → AllReady m → AllReady (complete_turn sid a m).0
unfolding complete_turn AllReady remove_turn begin_stop_turn finish_attempt_done
complete_turn-AllReady sid a m h = grind ready_rules

pub finish_attempt-AllReady :
    (sid a : String) (m : Manager) → AllReady m → AllReady (finish_attempt sid a m)
unfolding finish_attempt AllReady remove_turn begin_stop_turn finish_attempt_done
finish_attempt-AllReady sid a m h = grind ready_rules

pub stop_attempt-AllReady :
    (sid a : String) (m : Manager) → AllReady m → AllReady (stop_attempt sid a m)
unfolding stop_attempt AllReady remove_turn begin_stop_turn finish_attempt_done
stop_attempt-AllReady sid a m h = grind ready_rules

pub stop_session-AllReady :
    (sid : String) (m : Manager) → AllReady m → AllReady (stop_session sid m)
unfolding stop_session AllReady remove_turn begin_stop_turn finish_attempt_done
stop_session-AllReady sid m h = grind ready_rules

pub resume_append-AllReady :
    (sid : String) (m : Manager) → AllReady m → AllReady (resume_append sid m).0
unfolding resume_append AllReady remove_turn begin_stop_turn finish_attempt_done
resume_append-AllReady sid m h = grind ready_rules

pub begin_append-AllReady :
    (sid a : String) (i : Input) (m : Manager) → AllReady m → AllReady (begin_append sid a i m).0
unfolding begin_append AllReady remove_turn begin_stop_turn finish_attempt_done
begin_append-AllReady sid a i m h = grind ready_rules

pub append_pending_input-AllReady :
    (sid : String) (i : Input) (m : Manager)
    → AllReady m
    → AllReady (append_pending_input sid i m).0
unfolding append_pending_input AllReady remove_turn begin_stop_turn finish_attempt_done
append_pending_input-AllReady sid i m h = grind ready_rules

pub drain_merged_input-AllReady :
    (sid a : String) (m : Manager) → AllReady m → AllReady (drain_merged_input sid a m).0
unfolding drain_merged_input AllReady remove_turn begin_stop_turn finish_attempt_done
drain_merged_input-AllReady sid a m h = grind ready_rules

pub add_tool_use-AllReady :
    (sid name a : String) (m : Manager) → AllReady m → AllReady (add_tool_use sid name a m)
unfolding add_tool_use AllReady remove_turn begin_stop_turn finish_attempt_done
add_tool_use-AllReady sid name a m h = grind ready_rules

pub begin_risk_confirmation-AllReady :
    (sid : String) (r : RiskConfirmation) (a : String) (m : Manager)
    → AllReady m
    → AllReady (begin_risk_confirmation sid r a m).0
unfolding begin_risk_confirmation AllReady remove_turn begin_stop_turn finish_attempt_done
begin_risk_confirmation-AllReady sid r a m h = grind ready_rules

pub expire-AllReady : (w : RiskWait) (m : Manager) → AllReady m → AllReady (expire w m).0
unfolding expire AllReady remove_turn begin_stop_turn finish_attempt_done
expire-AllReady w m h = grind ready_rules

pub cancel-AllReady : (w : RiskWait) (m : Manager) → AllReady m → AllReady (cancel w m).0
unfolding cancel AllReady remove_turn begin_stop_turn finish_attempt_done
cancel-AllReady w m h = grind ready_rules

pub complete-AllReady :
    (w : RiskWait) (failed : Bool) (m : Manager) → AllReady m → AllReady (complete w failed m).0
unfolding complete AllReady remove_turn begin_stop_turn finish_attempt_done
complete-AllReady w failed m h = grind ready_rules

pub receive-AllReady : (w : RiskWait) (m : Manager) → AllReady m → AllReady (receive w m)
unfolding receive AllReady remove_turn begin_stop_turn finish_attempt_done
receive-AllReady w m h = grind ready_rules

pub resolve_risk_confirmation-AllReady :
    (sid : String) (d : RiskDecision) (m : Manager)
    → AllReady m
    → AllReady (resolve_risk_confirmation sid d m).0
unfolding resolve_risk_confirmation AllReady remove_turn begin_stop_turn finish_attempt_done
resolve_risk_confirmation-AllReady sid d m h = grind ready_rules

pub refresh_risk_confirmation-AllReady :
    (sid : String) (m : Manager) → AllReady m → AllReady (refresh_risk_confirmation sid m).0
unfolding refresh_risk_confirmation AllReady remove_turn begin_stop_turn finish_attempt_done
refresh_risk_confirmation-AllReady sid m h = grind ready_rules

stop_each-AllReady :
    (l : List (String × State)) (m : Manager) → AllReady m → AllReady (stop_each l m)
unfolding stop_each
stop_each-AllReady [] m h = h
stop_each-AllReady ((sid, t) ∷ l) m h =
    stop_each-AllReady l (stop_session sid m) (stop_session-AllReady sid m h)

pub apply-AllReady : (op : Op) (m : Manager) → AllReady m → AllReady (apply op m)
unfolding apply stop_all
apply-AllReady (Op.start sid i e a) m h = start_attempt-AllReady sid i e a m h
apply-AllReady (Op.reserve sid i e) m h = reserve_execution-AllReady sid i e m h
apply-AllReady (Op.start_compact sid run e) m h = start_compact_run-AllReady sid run e m h
apply-AllReady (Op.complete_compact sid run) m h = complete_compact_run-AllReady sid run m h
apply-AllReady (Op.start_tool sid a) m h = start_tool_phase-AllReady sid a m h
apply-AllReady (Op.complete_attempt sid a) m h = complete_turn-AllReady sid a m h
apply-AllReady (Op.finish sid a) m h = finish_attempt-AllReady sid a m h
apply-AllReady (Op.stop_one sid a) m h = stop_attempt-AllReady sid a m h
apply-AllReady (Op.stop_owner sid) m h = stop_session-AllReady sid m h
apply-AllReady Op.stop_every m h = stop_each-AllReady m.turns m h
apply-AllReady (Op.resume sid) m h = resume_append-AllReady sid m h
apply-AllReady (Op.begin_input sid a i) m h = begin_append-AllReady sid a i m h
apply-AllReady (Op.append_input sid i) m h = append_pending_input-AllReady sid i m h
apply-AllReady (Op.drain sid a) m h = drain_merged_input-AllReady sid a m h
apply-AllReady (Op.use_tool sid name a) m h = add_tool_use-AllReady sid name a m h
apply-AllReady (Op.begin_risk sid r a) m h = begin_risk_confirmation-AllReady sid r a m h
apply-AllReady (Op.expire_wait w) m h = expire-AllReady w m h
apply-AllReady (Op.cancel_wait w) m h = cancel-AllReady w m h
apply-AllReady (Op.complete_wait w failed) m h = complete-AllReady w failed m h
apply-AllReady (Op.receive_decision w) m h = receive-AllReady w m h
apply-AllReady (Op.resolve sid d) m h = resolve_risk_confirmation-AllReady sid d m h
apply-AllReady (Op.refresh sid) m h = refresh_risk_confirmation-AllReady sid m h

pub AllReady-new : AllReady new_manager
unfolding AllReady weigh
AllReady-new = omega arith

pub run_from-AllReady : (ops : List Op) (m : Manager) → AllReady m → AllReady (run ops m)
unfolding run
run_from-AllReady [] m h = h
run_from-AllReady (op ∷ ops) m h = run_from-AllReady ops (apply op m) (apply-AllReady op m h)

-- Whatever operations run from a new manager, every stored turn is in good order: its phase is
-- not idle, a risk confirmation has all its parts, and a stopping or compacting turn still has an
-- attempt to finish.
pub run-ready :
    (ops : List Op) (sid : String) {t : State}
    → lookup sid (run ops new_manager).turns ≡ some t
    → ready t ≡ true
run-ready ops sid e =
    AllReady-lookup (run ops new_manager) sid (run_from-AllReady ops new_manager AllReady-new) e
