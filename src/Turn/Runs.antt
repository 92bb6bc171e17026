-- ===== src/Turn/Runs.antt =====
-- Runs of the turn manager: phases, isolation and stopping over any sequence of operations
-- (internal/turn/lifecycle).
use elbot.Base.{
  ◌≡◌, ◌⊎◌, inl, inr, refl, String, Bool, true, false, none, List, [], ◌∷◌, arith, str_eq, eq_iff,
  lookup, Distinct, lookup-insert, lookup-delete, Bool-cases, Option-cases, not, ◌&&◌, subst,
  is_some,
}
use elbot.Turn.State.{idle, llm, State, Manager, new_manager, begin_stop_turn, Phase}
use elbot.Turn.Attempt.{stop_session, stop_each, stop_all}
use elbot.Turn.Ops.{Op, apply, run}
use elbot.Turn.Snapshot.{snapshot}
use elbot.Turn.Invariant.{AllReady, AllReady-lookup, run_from-AllReady, AllReady-new}
use elbot.Turn.Frame.{names, apply-frame, apply-Distinct, run-Distinct, stop_session-Distinct}
use elbot.Turn.Phases.{
  ends, edge, edge_refl, Moves, start_attempt-Moves, reserve_execution-Moves,
  start_compact_run-Moves, complete_compact_run-Moves, start_tool_phase-Moves, complete_turn-Moves,
  finish_attempt-Moves, stop_attempt-Moves, stop_session-Moves, resume_append-Moves,
  begin_append-Moves, append_pending_input-Moves, drain_merged_input-Moves, add_tool_use-Moves,
  begin_risk_confirmation-Moves, expire-Moves, cancel-Moves, complete-Moves, receive-Moves,
  resolve_risk_confirmation-Moves, refresh_risk_confirmation-Moves,
}

stop_session-ends :
    (s sid : String) (m : Manager)
    → Distinct m.turns
    → (ends (snapshot s m).phase ≡ true) ⊎ (sid ≡ s)
    → ends (snapshot s (stop_session sid m)).phase ≡ true
unfolding stop_session begin_stop_turn snapshot
stop_session-ends s sid m d h = grind (arith, lookup-insert, lookup-delete, eq_iff sid s)

stop_each-ends :
    (s : String) (l : List (String × State)) (m : Manager)
    → Distinct m.turns
    → (ends (snapshot s m).phase ≡ true) ⊎ (is_some (lookup s l) ≡ true)
    → ends (snapshot s (stop_each l m)).phase ≡ true
unfolding stop_each lookup
stop_each-ends s [] m d h = grind arith
stop_each-ends s ((sid, t) ∷ l) m d h = ground (
  arith,
  stop_each-ends s l (stop_session sid m) (stop_session-Distinct sid m d),
  stop_session-ends s sid m d,
  eq_iff sid s,
)

none-idle : (s : String) (m : Manager) → lookup s m.turns ≡ none → (snapshot s m).phase ≡ idle
unfolding snapshot
none-idle s m e = rw e

snapshot-none :
    (s : String) (m : Manager)
    → is_some (lookup s m.turns) ≡ false
    → ends (snapshot s m).phase ≡ true
unfolding snapshot
snapshot-none s m h = ground arith

stop_all-ends :
    (s : String) (m : Manager) → Distinct m.turns → ends (snapshot s (stop_all m)).phase ≡ true
unfolding stop_all
stop_all-ends s m d = ground (arith, stop_each-ends s m.turns m d, snapshot-none s m)

-- A session that no turn holds is not stopped into being.
stop_each-none :
    (s : String) (l : List (String × State)) (m : Manager)
    → Distinct m.turns
    → lookup s m.turns ≡ none
    → lookup s (stop_each l m).turns ≡ none
unfolding stop_each
stop_each-none s [] m d e = e
stop_each-none s ((sid, t) ∷ l) m d e =
    stop_each-none s l (stop_session sid m) (stop_session-Distinct sid m d) (
      unfold stop_session begin_stop_turn in
      grind (arith, lookup-insert, lookup-delete, eq_iff sid s))

idle-none :
    (s : String) (m : Manager) → AllReady m → (snapshot s m).phase ≡ idle → lookup s m.turns ≡ none
unfolding snapshot
idle-none s m h e = elim (Option-cases (lookup s m.turns)) [
  | inl q ↦ q
  | inr (t, q) ↦ absurd (ground (arith, AllReady-lookup m s h q))
]

edge-ends : (p q : Phase) → ends q ≡ true → (p ≡ idle → q ≡ idle) → edge p q ≡ true
unfolding edge
edge-ends idle q h k = ground (arith, k refl)
edge-ends llm q h k = ground arith
edge-ends _ q h k = ground arith

stop_all-Moves : (s : String) (m : Manager) → Distinct m.turns → AllReady m → Moves s m (stop_all m)
unfolding stop_all
stop_all-Moves s m d h =
    edge-ends _ _ (stop_all-ends s m d)
      (λ e. none-idle s (stop_all m) (stop_each-none s m.turns m d (idle-none s m h e)))

moved : (sid s : String) (m m' : Manager) → str_eq sid s ≡ true → Moves sid m m' → Moves s m m'
moved sid s m m' e h = subst (λ k. Moves k m m') ((eq_iff sid s).0 e) h

apply-Moves_named :
    (op : Op) (s : String) (m : Manager)
    → Distinct m.turns
    → AllReady m
    → names op s ≡ true
    → Moves s m (apply op m)
unfolding apply names
apply-Moves_named (Op.start sid i e a) s m d h y =
    moved sid s m _ y (start_attempt-Moves sid i e a m d h)
apply-Moves_named (Op.reserve sid i e) s m d h y =
    moved sid s m _ y (reserve_execution-Moves sid i e m d h)
apply-Moves_named (Op.start_compact sid run e) s m d h y =
    moved sid s m _ y (start_compact_run-Moves sid run e m d h)
apply-Moves_named (Op.complete_compact sid run) s m d h y =
    moved sid s m _ y (complete_compact_run-Moves sid run m d h)
apply-Moves_named (Op.start_tool sid a) s m d h y =
    moved sid s m _ y (start_tool_phase-Moves sid a m d h)
apply-Moves_named (Op.complete_attempt sid a) s m d h y =
    moved sid s m _ y (complete_turn-Moves sid a m d h)
apply-Moves_named (Op.finish sid a) s m d h y = moved sid s m _ y (finish_attempt-Moves sid a m d h)
apply-Moves_named (Op.stop_one sid a) s m d h y = moved sid s m _ y (stop_attempt-Moves sid a m d h)
apply-Moves_named (Op.stop_owner sid) s m d h y = moved sid s m _ y (stop_session-Moves sid m d h)
apply-Moves_named Op.stop_every s m d h y = stop_all-Moves s m d h
apply-Moves_named (Op.resume sid) s m d h y = moved sid s m _ y (resume_append-Moves sid m d h)
apply-Moves_named (Op.begin_input sid a i) s m d h y =
    moved sid s m _ y (begin_append-Moves sid a i m d h)
apply-Moves_named (Op.append_input sid i) s m d h y =
    moved sid s m _ y (append_pending_input-Moves sid i m d h)
apply-Moves_named (Op.drain sid a) s m d h y =
    moved sid s m _ y (drain_merged_input-Moves sid a m d h)
apply-Moves_named (Op.use_tool sid name a) s m d h y =
    moved sid s m _ y (add_tool_use-Moves sid name a m d h)
apply-Moves_named (Op.begin_risk sid r a) s m d h y =
    moved sid s m _ y (begin_risk_confirmation-Moves sid r a m d h)
apply-Moves_named (Op.expire_wait w) s m d h y = moved w.session s m _ y (expire-Moves w m d h)
apply-Moves_named (Op.cancel_wait w) s m d h y = moved w.session s m _ y (cancel-Moves w m d h)
apply-Moves_named (Op.complete_wait w failed) s m d h y =
    moved w.session s m _ y (complete-Moves w failed m d h)
apply-Moves_named (Op.receive_decision w) s m d h y =
    moved w.session s m _ y (receive-Moves w m d h)
apply-Moves_named (Op.resolve sid r) s m d h y =
    moved sid s m _ y (resolve_risk_confirmation-Moves sid r m d h)
apply-Moves_named (Op.refresh sid) s m d h y =
    moved sid s m _ y (refresh_risk_confirmation-Moves sid m d h)

apply-Moves :
    (op : Op) (s : String) (m : Manager) → Distinct m.turns → AllReady m → Moves s m (apply op m)
unfolding snapshot
apply-Moves op s m d h = elim (Bool-cases (names op s)) [
  | inl y ↦ apply-Moves_named op s m d h y
  | inr n ↦ rw (apply-frame op s m d n) (edge_refl _)
]

new-Distinct : Distinct new_manager.turns
new-Distinct = tt

-- After any operations from a new manager, every further operation moves the phase of every
-- session along the diagram `edge`, or leaves it.
pub run-edge :
    (ops : List Op) (op : Op) (s : String)
    → edge
        (snapshot s (run ops new_manager)).phase
        (snapshot s (apply op (run ops new_manager))).phase
      ≡ true
run-edge ops op s =
    apply-Moves op s (run ops new_manager) (run-Distinct ops new_manager new-Distinct)
      (run_from-AllReady ops new_manager AllReady-new)

-- After any operations from a new manager, StopAll leaves every session idle or stopping.
pub run-stop_all :
    (ops : List Op) (s : String) → ends (snapshot s (stop_all (run ops new_manager))).phase ≡ true
run-stop_all ops s =
    stop_all-ends s (run ops new_manager) (run-Distinct ops new_manager new-Distinct)

abbrev pub none_named : List Op → String → Bool
none_named [] s = true
none_named (op ∷ ops) s = not (names op s) && none_named ops s

-- Operations that do not name a session leave its snapshot as it was, in any number and order.
pub run-isolated :
    (ops : List Op) (s : String) (m : Manager)
    → Distinct m.turns
    → none_named ops s ≡ true
    → snapshot s (run ops m) ≡ snapshot s m
unfolding run snapshot
run-isolated [] s m d h = refl
run-isolated (op ∷ ops) s m d h =
    rw (run-isolated ops s (apply op m) (apply-Distinct op m d) (grind arith))
      (rw (apply-frame op s m d (grind arith)))
