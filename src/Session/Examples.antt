-- ===== src/Session/Examples.antt =====
-- Two scopes bound to one session, then closed (internal/session/binding).
use elbot.Base.{◌≡◌, refl, true, arith, lookup}
use elbot.Session.Binding.{
  Manager, Binding, new_manager, set_current, set_from, bind, next_version, current_binding, valid,
  begin_admission, begin_close, finish_admission,
}
use elbot.Session.Binding.Admission.{start, admit, finish, close_manager, set, closes_once, Counted}
use elbot.Session.Binding.Current.{current_valid}

abbrev first_binding : Binding
first_binding = record { scope = "x"; session_id = "s"; version = 1; handle = 0 }

abbrev second_binding : Binding
second_binding = record { scope = "y"; session_id = "s"; version = 2; handle = 1 }

abbrev two_bound : Manager
two_bound =
    bind "y" "s" (current_binding (bind "x" "s" (current_binding new_manager "x") new_manager) "y")
      (bind "x" "s" (current_binding new_manager "x") new_manager)

two_bound-set : set_current "y" "s" (set_current "x" "s" new_manager) ≡ two_bound
unfolding set_current set_from bind current_binding lookup
two_bound-set = refl

closes_once_example :
    Counted (finish_admission (begin_close (begin_admission (set_current "x" "s" new_manager)).0))
unfolding set_current set_from bind begin_admission begin_close
closes_once_example =
    closes_once (finish (close_manager (admit (set "x" "s" start))) (ground arith))

current_valid_example :
    (first_binding.scope ≡ "x") × (valid (set_current "x" "s" new_manager) first_binding ≡ true)
unfolding set_current set_from bind current_binding lookup next_version
current_valid_example = current_valid "x" first_binding (set "x" "s" start) refl
