-- ===== src/Session/Binding/Admission.antt =====
-- Closing while calls are admitted (internal/session/binding/coordination.go and manager.go).
use elbot.Base.{
  ◌+◌, ◌≡◌, refl, ◌<◌, arith, String, true, false, ◌&&◌, if◌then◌else◌, ◌==◌, Bool-cases, inl, inr,
  Option, none, some, ap, sym, subst, List, [], ◌∷◌, str_eq, Option-cases,
}
use elbot.Session.Binding.{
  Manager, Binding, new_manager, begin_close, close_bindings, begin_admission, finish_admission,
  set_current, set_from, unbind, bind, current_binding, keys, clear_session_bindings, clear_each,
  clear_one,
}

-- The runs of a manager. An admission is finished once per admitted call, so only while one is active, and
-- the bindings are closed once the manager is closed and drained. A change of a binding may come at any time,
-- also where the code admits none.
pub data Reachable : Manager → Type 0 where
  start : Reachable new_manager
  admit : {m : Manager} → Reachable m → Reachable (begin_admission m).0
  finish : {m : Manager} → Reachable m → 0 < m.active → Reachable (finish_admission m)
  close_manager : {m : Manager} → Reachable m → Reachable (begin_close m)
  close_all :
      {m : Manager} → Reachable m → m.closed ≡ true → m.active ≡ 0 → Reachable (close_bindings m)
  set : {m : Manager} (scope id : String) → Reachable m → Reachable (set_current scope id m)
  clear : {m : Manager} (id : String) → Reachable m → Reachable (clear_session_bindings id m)

-- Each channel has been closed as often as the state says: `stop` once closed, `idle` once closed and
-- drained.
abbrev pub Counted : Manager → Type 0
Counted m =
    (m.stop_closes ≡ (if m.closed then 1 else 0))
    × (m.idle_closes ≡ (if m.closed && (m.active == 0) then 1 else 0))

admit_no : (m : Manager) → m.closed ≡ true → begin_admission m ≡ (m, false)
unfolding begin_admission
admit_no m y = ap (λ x. if x then (m, false) else (record m { active = m.active + 1 }, true)) y

admit_yes :
    (m : Manager)
    → m.closed ≡ false
    → begin_admission m ≡ (record m { active = m.active + 1 }, true)
unfolding begin_admission
admit_yes m n = ap (λ x. if x then (m, false) else (record m { active = m.active + 1 }, true)) n

admit-Counted : (m : Manager) → Counted m → Counted (begin_admission m).0
admit-Counted m c = elim (Bool-cases m.closed) [
  | inl y ↦ subst (λ r. Counted r.0) (sym (admit_no m y)) c
  | inr n ↦ subst (λ r. Counted r.0) (sym (admit_yes m n)) (ground arith)
]

finish-Counted : (m : Manager) → 0 < m.active → Counted m → Counted (finish_admission m)
unfolding finish_admission
finish-Counted m h c = ground arith

close-Counted : (m : Manager) → Counted m → Counted (begin_close m)
unfolding begin_close
close-Counted m c = ground arith

unbind-Counted :
    (scope : String) (old : Option Binding) (m : Manager) → Counted m → Counted (unbind scope old m)
unfolding unbind
unbind-Counted scope none m c = c
unbind-Counted scope (some b) m c = c

bind-Counted :
    (scope id : String) (old : Option Binding) (m : Manager)
    → Counted m
    → Counted (bind scope id old m)
unfolding bind
bind-Counted scope id old m c = c

set_from-Counted :
    (scope id : String) (old : Option Binding) (m : Manager)
    → Counted m
    → Counted (set_from scope id old m)
unfolding set_from
set_from-Counted scope id none m c = elim (Bool-cases (str_eq id "")) [
  | inl y ↦ rw y c
  | inr n ↦ rw n (bind-Counted scope id none m c)
]
set_from-Counted scope id (some b) m c = elim (Bool-cases (str_eq b.session_id id)) [
  | inl y ↦ rw y c
  | inr n ↦ elim (Bool-cases (str_eq id "")) [
    | inl e ↦ rw (n, e) (unbind-Counted scope (some b) m c)
    | inr f ↦ rw (n, f) (bind-Counted scope id (some b) m c)
  ]
]

clear_one-Counted : (id scope : String) (m : Manager) → Counted m → Counted (clear_one id scope m)
unfolding clear_one
clear_one-Counted id scope m c = elim (Option-cases (current_binding m scope)) [
  | inl n ↦ rw (n, clear_one) c
  | inr (b, e) ↦ elim (Bool-cases (str_eq b.session_id id)) [
    | inl y ↦ rw (e, clear_one) (rw y (unbind-Counted scope (some b) m c))
    | inr n ↦ rw (e, clear_one) (rw n c)
  ]
]

clear_each-Counted :
    (id : String) (scopes : List String) (m : Manager)
    → Counted m
    → Counted (clear_each id scopes m)
unfolding clear_each
clear_each-Counted id [] m c = c
clear_each-Counted id (scope ∷ rest) m c =
    clear_each-Counted id rest (clear_one id scope m) (clear_one-Counted id scope m c)

-- Over every run of admissions, their ends, closings and binding changes, each of the two channels is
-- closed exactly as often as the state says: `stop` once the manager is closed, `idle` once it is
-- closed and no admission is active, and neither is ever closed twice.
pub closes_once : {m : Manager} → Reachable m → Counted m
unfolding set_current clear_session_bindings close_bindings
closes_once start = (refl, refl)
closes_once (admit {m} r) = admit-Counted m (closes_once r)
closes_once (finish {m} r h) = finish-Counted m h (closes_once r)
closes_once (close_manager {m} r) = close-Counted m (closes_once r)
closes_once (close_all r y e) = closes_once r
closes_once (set {m} scope id r) =
    set_from-Counted scope id (current_binding m scope) m (closes_once r)
closes_once (clear {m} id r) = clear_each-Counted id (keys m.current) m (closes_once r)
