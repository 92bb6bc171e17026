-- ===== src/Session/Binding/Current.antt =====
-- The current binding of a scope over runs of the manager (internal/session/binding/manager.go).
use elbot.Base.{
  ℕ, Entries, ◌⊎◌, ◌==◌, eq_refl, contains, ◌≡◌, refl, ◌<◌, arith, String, true, false, Bool-cases,
  Option-cases, inl, inr, Option, none, some, ap, sym, ◌∙◌, subst, List, [], ◌∷◌, str_eq, lookup,
  lookup-insert_self, lookup-delete_self, Distinct, lookup-insert, lookup-delete, eq_iff, ==_iff,
}
use elbot.Session.Binding.{
  Manager, Binding, valid, set_current, set_from, unbind, bind, current_binding, keys, new_manager,
  clear_session_bindings, clear_each, clear_one, begin_admission, finish_admission, begin_close,
  close_bindings, invalidate_all,
}
use elbot.Session.Binding.Admission.{
  Reachable, start, admit, finish, close_manager, close_all, set, clear,
}
use elbot.Session.Binding.Handles.{Consistent, fresh_binding, unbind-Consistent, bind-Consistent}

set_from-Consistent :
    (scope id : String) (old : Option Binding) (m : Manager)
    → lookup scope m.current ≡ old
    → Consistent m
    → Consistent (set_from scope id old m)
unfolding set_from
set_from-Consistent scope id none m e c = elim (Bool-cases (str_eq id "")) [
  | inl y ↦ rw y c
  | inr n ↦ rw n (bind-Consistent scope id none m e c)
]
set_from-Consistent scope id (some b) m e c = elim (Bool-cases (str_eq b.session_id id)) [
  | inl y ↦ rw y c
  | inr n ↦ elim (Bool-cases (str_eq id "")) [
    | inl z ↦ rw (n, z) (unbind-Consistent scope b m e c)
    | inr f ↦ rw (n, f) (bind-Consistent scope id (some b) m e c)
  ]
]

clear_one-Consistent :
    (id scope : String) (m : Manager) → Consistent m → Consistent (clear_one id scope m)
unfolding clear_one current_binding
clear_one-Consistent id scope m c = elim (Option-cases (lookup scope m.current)) [
  | inl n ↦ rw (n, clear_one) c
  | inr (b, e) ↦ elim (Bool-cases (str_eq b.session_id id)) [
    | inl y ↦ rw (e, clear_one) (rw y (unbind-Consistent scope b m e c))
    | inr n ↦ rw (e, clear_one) (rw n c)
  ]
]

clear_each-Consistent :
    (id : String) (scopes : List String) (m : Manager)
    → Consistent m
    → Consistent (clear_each id scopes m)
unfolding clear_each
clear_each-Consistent id [] m c = c
clear_each-Consistent id (scope ∷ rest) m c =
    clear_each-Consistent id rest (clear_one id scope m) (clear_one-Consistent id scope m c)

-- The parts of the state that admissions do not touch.
same-Consistent :
    (m n : Manager)
    → m.current ≡ n.current
    → m.next_handle ≡ n.next_handle
    → m.invalid ≡ n.invalid
    → Consistent m
    → Consistent n
same-Consistent m n e f g c = record {
  distinct = subst (λ x. Distinct x) e c.distinct;
  owned = λ k b l.
      let o = c.owned k b (ap (λ x. lookup k x) e ∙ l) in
      (o.0, subst (λ x. b.handle < x) f o.1, subst (λ x. contains b.handle x ≡ false) g o.2);
  given = λ h i. subst (λ x. h < x) f (c.given h (ap (λ x. contains h x) g ∙ i));
  unique = λ j k b d lj lk s.
      c.unique j k b d (ap (λ x. lookup j x) e ∙ lj) (ap (λ x. lookup k x) e ∙ lk) s;
}

new-Consistent : Consistent new_manager
unfolding lookup contains
new-Consistent = record {
  distinct = tt;
  owned = λ k b l. ground arith;
  given = λ h i. ground arith;
  unique = λ j k b d lj lk s. ground arith;
}

admit-Consistent : (m : Manager) → Consistent m → Consistent (begin_admission m).0
unfolding begin_admission
admit-Consistent m c = elim (Bool-cases m.closed) [
  | inl y ↦ same-Consistent m (begin_admission m).0 (rw y refl) (rw y refl) (rw y refl) c
  | inr n ↦ same-Consistent m (begin_admission m).0 (rw n refl) (rw n refl) (rw n refl) c
]

close-Consistent : (m : Manager) → Consistent m → Consistent (begin_close m)
unfolding begin_close
close-Consistent m c = elim (Bool-cases m.closed) [
  | inl y ↦ same-Consistent m (begin_close m) (rw y refl) (rw y refl) (rw y refl) c
  | inr n ↦ same-Consistent m (begin_close m) (rw n refl) (rw n refl) (rw n refl) c
]

-- What is invalid behind the closing was so before, or was current.
invalidated-given :
    (h : ℕ) (l : Entries Binding) (invalid : List ℕ)
    → Distinct l
    → contains h (invalidate_all l invalid) ≡ true
    → (contains h invalid ≡ true)
      ⊎ ((k : String) × (b : Binding) × (lookup k l ≡ some b) × (b.handle ≡ h))
unfolding invalidate_all contains lookup
invalidated-given h [] invalid d i = inl i
invalidated-given h ((k, b) ∷ rest) invalid d i = elim (Bool-cases (b.handle == h)) [
  | inl y ↦ inr (k, b, ground (arith, eq_refl k), ground (arith, y))
  | inr n ↦ elim (invalidated-given h rest invalid d.1 (ground (arith, n, i))) [
    | inl j ↦ inl j
    | inr (j, c, e, q) ↦ inr (j, c, ground (arith, e, d.0, eq_iff k j, ap (λ x. lookup x rest)), q)
  ]
]

close_bindings-Consistent : (m : Manager) → Consistent m → Consistent (close_bindings m)
unfolding close_bindings lookup
close_bindings-Consistent m c = record {
  distinct = tt;
  owned = λ k b l. ground arith;
  given = λ h i. elim (invalidated-given h m.current m.invalid c.distinct i) [
    | inl j ↦ c.given h j
    | inr (k, b, e, q) ↦ subst (λ x. x < m.next_handle) q (c.owned k b e).1
  ];
  unique = λ j k b d lj lk s. ground arith;
}

reachable-Consistent : {m : Manager} → Reachable m → Consistent m
unfolding set_current clear_session_bindings current_binding finish_admission
reachable-Consistent start = new-Consistent
reachable-Consistent (admit {m} r) = admit-Consistent m (reachable-Consistent r)
reachable-Consistent (finish {m} r h) =
    same-Consistent m (finish_admission m) refl refl refl (reachable-Consistent r)
reachable-Consistent (close_manager {m} r) = close-Consistent m (reachable-Consistent r)
reachable-Consistent (close_all {m} r y e) = close_bindings-Consistent m (reachable-Consistent r)
reachable-Consistent (set {m} scope id r) =
    set_from-Consistent scope id (lookup scope m.current) m refl (reachable-Consistent r)
reachable-Consistent (clear {m} id r) =
    clear_each-Consistent id (keys m.current) m (reachable-Consistent r)

-- After any run, closings and their end included, the current binding of a scope is one of that scope and
-- valid.
pub current_valid :
    {m : Manager} (k : String) (b : Binding)
    → Reachable m
    → current_binding m k ≡ some b
    → (b.scope ≡ k) × (valid m b ≡ true)
unfolding current_binding valid
current_valid {m} k b r e = let o = (reachable-Consistent r).owned k b e in (o.0, rw o.2 refl)

abbrev session_of : Option Binding → String
session_of none = ""
session_of (some b) = b.session_id

-- The session that a scope is bound to; empty when it is bound to none.
unfoldable pub session_at : Manager → String → String
unfolding current_binding
session_at m k = session_of (current_binding m k)

-- A change of one scope: the session it is bound to, and any other scope.
abbrev Bound : String → String → String → Manager → Manager → Type 0
Bound scope id k m n =
    (session_of (lookup scope n.current) ≡ id) × (lookup k n.current ≡ lookup k m.current)

bind-Bound :
    (scope id k : String) (old : Option Binding) (m : Manager)
    → str_eq scope k ≡ false
    → Bound scope id k m (bind scope id old m)
unfolding bind
bind-Bound scope id k old m n = (
  ap session_of (lookup-insert_self scope (fresh_binding scope id m) m.current),
  lookup-insert scope k (fresh_binding scope id m) m.current ∙ rw n refl,
)

unbind-Bound :
    (scope k : String) (o : Binding) (m : Manager)
    → Distinct m.current
    → str_eq scope k ≡ false
    → Bound scope "" k m (unbind scope (some o) m)
unfolding unbind
unbind-Bound scope k o m d n = (
  ap session_of (lookup-delete_self scope m.current d),
  lookup-delete scope k m.current d ∙ rw n refl,
)

set_from-Bound :
    (scope id k : String) (old : Option Binding) (m : Manager)
    → Distinct m.current
    → lookup scope m.current ≡ old
    → str_eq scope k ≡ false
    → Bound scope id k m (set_from scope id old m)
unfolding set_from
set_from-Bound scope id k none m d e n = elim (Bool-cases (str_eq id "")) [
  | inl y ↦ rw y (ap session_of e ∙ sym ((eq_iff id "").0 y), refl)
  | inr f ↦ rw f (bind-Bound scope id k none m n)
]
set_from-Bound scope id k (some o) m d e n = elim (Bool-cases (str_eq o.session_id id)) [
  | inl y ↦ rw y (ap session_of e ∙ (eq_iff o.session_id id).0 y, refl)
  | inr f ↦ elim (Bool-cases (str_eq id "")) [
    | inl z ↦
        rw (f, z)
          (subst (λ x. Bound scope x k m (unbind scope (some o) m)) (sym ((eq_iff id "").0 z))
            (unbind-Bound scope k o m d n))
    | inr g ↦ rw (f, g) (bind-Bound scope id k (some o) m n)
  ]
]

-- SetCurrent binds the scope to the session, or to none for an empty ID, and leaves every other scope
-- as it was.
pub set_current_binds :
    (scope id k : String) (m : Manager)
    → Distinct m.current
    → str_eq scope k ≡ false
    → (session_at (set_current scope id m) scope ≡ id)
      × (current_binding (set_current scope id m) k ≡ current_binding m k)
unfolding set_current session_at current_binding
set_current_binds scope id k m d n = set_from-Bound scope id k (lookup scope m.current) m d refl n

-- A replaced or removed binding is invalid.
pub set_current_invalidates :
    (scope id : String) (o : Binding) (m : Manager)
    → current_binding m scope ≡ some o
    → str_eq o.session_id id ≡ false
    → valid (set_current scope id m) o ≡ false
unfolding set_current current_binding valid set_from bind unbind contains
set_current_invalidates scope id o m e f = elim (Bool-cases (str_eq id "")) [
  | inl z ↦ rw (e, f, z) (ground (arith, ==_iff o.handle o.handle))
  | inr g ↦ rw (e, f, g) (ground (arith, ==_iff o.handle o.handle))
]
