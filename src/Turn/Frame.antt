-- ===== src/Turn/Frame.antt =====
-- A step keeps the map a map, and leaves the sessions alone that it does not name
-- (internal/turn/lifecycle: every method works on m.turns[sessionID]).
use elbot.Base.{
  ◌≡◌, String, Bool, true, false, List, [], ◌∷◌, arith, str_eq, lookup, Distinct, lookup-insert,
  lookup-delete, insert-Distinct, delete-Distinct,
}
use elbot.Turn.State.{State, Manager, remove_turn, begin_stop_turn, finish_attempt_done}
use elbot.Turn.Attempt.{
  start_attempt, reserve_execution, start_compact_run, complete_compact_run, start_tool_phase,
  complete_turn, finish_attempt, stop_attempt, stop_session, resume_append, begin_append,
  append_pending_input, drain_merged_input, add_tool_use, stop_each, stop_all,
}
use elbot.Turn.Confirmation.{
  begin_risk_confirmation, expire, cancel, complete, receive, resolve_risk_confirmation,
  refresh_risk_confirmation,
}
use elbot.Turn.Ops.{Op, apply, run}

-- The session that an operation names; StopAll names them all.
unfoldable pub names : Op → String → Bool
names (Op.start sid _ _ _) s = str_eq sid s
names (Op.reserve sid _ _) s = str_eq sid s
names (Op.start_compact sid _ _) s = str_eq sid s
names (Op.complete_compact sid _) s = str_eq sid s
names (Op.start_tool sid _) s = str_eq sid s
names (Op.complete_attempt sid _) s = str_eq sid s
names (Op.finish sid _) s = str_eq sid s
names (Op.stop_one sid _) s = str_eq sid s
names (Op.stop_owner sid) s = str_eq sid s
names Op.stop_every s = true
names (Op.resume sid) s = str_eq sid s
names (Op.begin_input sid _ _) s = str_eq sid s
names (Op.append_input sid _) s = str_eq sid s
names (Op.drain sid _) s = str_eq sid s
names (Op.use_tool sid _ _) s = str_eq sid s
names (Op.begin_risk sid _ _) s = str_eq sid s
names (Op.expire_wait w) s = str_eq w.session s
names (Op.cancel_wait w) s = str_eq w.session s
names (Op.complete_wait w _) s = str_eq w.session s
names (Op.receive_decision w) s = str_eq w.session s
names (Op.resolve sid _) s = str_eq sid s
names (Op.refresh sid) s = str_eq sid s

ruleset map_rules = (arith, insert-Distinct, delete-Distinct)

ruleset frame_rules = (arith, lookup-insert, lookup-delete)

pub stop_session-Distinct :
    (sid : String) (m : Manager) → Distinct m.turns → Distinct (stop_session sid m).turns
unfolding stop_session begin_stop_turn
stop_session-Distinct sid m d = grind map_rules

pub stop_each-Distinct :
    (l : List (String × State)) (m : Manager) → Distinct m.turns → Distinct (stop_each l m).turns
unfolding stop_each
stop_each-Distinct [] m d = d
stop_each-Distinct ((sid, t) ∷ l) m d =
    stop_each-Distinct l (stop_session sid m) (stop_session-Distinct sid m d)

pub apply-Distinct : (op : Op) (m : Manager) → Distinct m.turns → Distinct (apply op m).turns
unfolding apply start_attempt reserve_execution start_compact_run complete_compact_run
    start_tool_phase complete_turn finish_attempt stop_attempt stop_session resume_append
    begin_append append_pending_input drain_merged_input add_tool_use begin_risk_confirmation expire
    cancel complete receive resolve_risk_confirmation refresh_risk_confirmation remove_turn
    begin_stop_turn finish_attempt_done
apply-Distinct (Op.start sid i e a) m d = grind map_rules
apply-Distinct (Op.reserve sid i e) m d = grind map_rules
apply-Distinct (Op.start_compact sid run e) m d = grind map_rules
apply-Distinct (Op.complete_compact sid run) m d = grind map_rules
apply-Distinct (Op.start_tool sid a) m d = grind map_rules
apply-Distinct (Op.complete_attempt sid a) m d = grind map_rules
apply-Distinct (Op.finish sid a) m d = grind map_rules
apply-Distinct (Op.stop_one sid a) m d = grind map_rules
apply-Distinct (Op.stop_owner sid) m d = grind map_rules
apply-Distinct Op.stop_every m d = unfold stop_all in stop_each-Distinct m.turns m d
apply-Distinct (Op.resume sid) m d = grind map_rules
apply-Distinct (Op.begin_input sid a i) m d = grind map_rules
apply-Distinct (Op.append_input sid i) m d = grind map_rules
apply-Distinct (Op.drain sid a) m d = grind map_rules
apply-Distinct (Op.use_tool sid name a) m d = grind map_rules
apply-Distinct (Op.begin_risk sid r a) m d = grind map_rules
apply-Distinct (Op.expire_wait w) m d = grind map_rules
apply-Distinct (Op.cancel_wait w) m d = grind map_rules
apply-Distinct (Op.complete_wait w failed) m d = grind map_rules
apply-Distinct (Op.receive_decision w) m d = grind map_rules
apply-Distinct (Op.resolve sid r) m d = grind map_rules
apply-Distinct (Op.refresh sid) m d = grind map_rules

pub run-Distinct : (ops : List Op) (m : Manager) → Distinct m.turns → Distinct (run ops m).turns
unfolding run
run-Distinct [] m d = d
run-Distinct (op ∷ ops) m d = run-Distinct ops (apply op m) (apply-Distinct op m d)

-- An operation leaves every session as it was, but for the one that it names.
pub apply-frame :
    (op : Op) (s : String) (m : Manager)
    → Distinct m.turns
    → names op s ≡ false
    → lookup s (apply op m).turns ≡ lookup s m.turns
unfolding apply names start_attempt reserve_execution start_compact_run complete_compact_run
    start_tool_phase complete_turn finish_attempt stop_attempt stop_session resume_append
    begin_append append_pending_input drain_merged_input add_tool_use begin_risk_confirmation expire
    cancel complete receive resolve_risk_confirmation refresh_risk_confirmation remove_turn
    begin_stop_turn finish_attempt_done
apply-frame (Op.start sid i e a) s m d h = grind frame_rules
apply-frame (Op.reserve sid i e) s m d h = grind frame_rules
apply-frame (Op.start_compact sid run e) s m d h = grind frame_rules
apply-frame (Op.complete_compact sid run) s m d h = grind frame_rules
apply-frame (Op.start_tool sid a) s m d h = grind frame_rules
apply-frame (Op.complete_attempt sid a) s m d h = grind frame_rules
apply-frame (Op.finish sid a) s m d h = grind frame_rules
apply-frame (Op.stop_one sid a) s m d h = grind frame_rules
apply-frame (Op.stop_owner sid) s m d h = grind frame_rules
apply-frame Op.stop_every s m d h = cc
apply-frame (Op.resume sid) s m d h = grind frame_rules
apply-frame (Op.begin_input sid a i) s m d h = grind frame_rules
apply-frame (Op.append_input sid i) s m d h = grind frame_rules
apply-frame (Op.drain sid a) s m d h = grind frame_rules
apply-frame (Op.use_tool sid name a) s m d h = grind frame_rules
apply-frame (Op.begin_risk sid r a) s m d h = grind frame_rules
apply-frame (Op.expire_wait w) s m d h = grind frame_rules
apply-frame (Op.cancel_wait w) s m d h = grind frame_rules
apply-frame (Op.complete_wait w failed) s m d h = grind frame_rules
apply-frame (Op.receive_decision w) s m d h = grind frame_rules
apply-frame (Op.resolve sid r) s m d h = grind frame_rules
apply-frame (Op.refresh sid) s m d h = grind frame_rules
