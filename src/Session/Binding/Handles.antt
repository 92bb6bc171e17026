-- ===== src/Session/Binding/Handles.antt =====
-- Which handles are valid (internal/session/binding/manager.go).
use elbot.Base.{
  contains, ℕ, ◌≡◌, refl, ◌<◌, arith, String, true, false, ◌⊎◌, Bool-cases, inl, inr, Option, none,
  some, ap, sym, ◌∙◌, subst, List, ◌∷◌, str_eq, lookup, insert, delete, Distinct, lookup-insert,
  lookup-delete, insert-Distinct, delete-Distinct, eq_iff, ==_iff,
}
use elbot.Session.Binding.{Manager, Binding, unbind, bind, next_version}

-- What holds of the binding of a scope.
abbrev pub Owned : Manager → String → Binding → Type 0
Owned m k b = (b.scope ≡ k) × (b.handle < m.next_handle) × (contains b.handle m.invalid ≡ false)

-- The map is a map, each current binding is its scope's own and valid, and no handle was
-- invalidated that was not given out.
pub record Consistent (m : Manager) : Type 0 where
  pub distinct : Distinct m.current
  pub owned : (k : String) (b : Binding) → lookup k m.current ≡ some b → Owned m k b
  pub given : (h : ℕ) → contains h m.invalid ≡ true → h < m.next_handle
  pub unique :
      (j k : String) (b c : Binding)
      → lookup j m.current ≡ some b
      → lookup k m.current ≡ some c
      → b.handle ≡ c.handle
      → j ≡ k

lookup_deleted :
    (scope k : String) (b : Binding) (m : Manager)
    → Distinct m.current
    → lookup k (delete scope m.current) ≡ some b
    → (str_eq scope k ≡ false) × (lookup k m.current ≡ some b)
lookup_deleted scope k b m d l = elim (Bool-cases (str_eq scope k)) [
  | inl y ↦
      let absurd : none ≡ some b = sym (lookup-delete scope k m.current d ∙ rw y refl) ∙ l in
      ground arith
  | inr n ↦ (n, sym (lookup-delete scope k m.current d ∙ rw n refl) ∙ l)
]

lookup_inserted :
    (scope k : String) (b v : Binding) (m : Manager)
    → lookup k (insert scope v m.current) ≡ some b
    → ((scope ≡ k) × (v ≡ b)) ⊎ ((str_eq scope k ≡ false) × (lookup k m.current ≡ some b))
lookup_inserted scope k b v m l = elim (Bool-cases (str_eq scope k)) [
  | inl y ↦
      let same : some v ≡ some b = sym (lookup-insert scope k v m.current ∙ rw y refl) ∙ l in
      inl ((eq_iff scope k).0 y, ap (λ o. elim o [ none ↦ v | some x ↦ x ]) same)
  | inr n ↦ inr (n, sym (lookup-insert scope k v m.current ∙ rw n refl) ∙ l)
]

not_contains :
    (h k : ℕ) (hs : List ℕ) → (k ≡ h → ⊥) → contains h hs ≡ false → contains h (k ∷ hs) ≡ false
unfolding contains
not_contains h k hs ne f = ground (arith, ==_iff k h)

contains_head :
    (h k : ℕ) (hs : List ℕ) → contains h (k ∷ hs) ≡ true → (k ≡ h) ⊎ (contains h hs ≡ true)
unfolding contains
contains_head h k hs t = ground (arith, ==_iff k h)

pub unbind-Consistent :
    (scope : String) (old : Binding) (m : Manager)
    → lookup scope m.current ≡ some old
    → Consistent m
    → Consistent (unbind scope (some old) m)
unfolding unbind
unbind-Consistent scope old m e c = record {
  distinct = delete-Distinct scope m.current c.distinct;
  owned = λ k b l.
      let (n, kept) = lookup_deleted scope k b m c.distinct l in
      let o = c.owned k b kept in
      (
        o.0,
        o.1,
        not_contains b.handle old.handle m.invalid
            (λ s. ground (arith, eq_iff scope k, c.unique scope k old b e kept s)) o.2,
      );
  given = λ h i. elim (contains_head h old.handle m.invalid i) [
    | inl s ↦ ground (arith, c.owned scope old e)
    | inr t ↦ c.given h t
  ];
  unique = λ j k b d lj lk s.
      c.unique j k b d (lookup_deleted scope j b m c.distinct lj).1
        (lookup_deleted scope k d m c.distinct lk).1 s;
}

-- The handles that are invalid once the scope's old binding is.
unfoldable retired : Option Binding → List ℕ → List ℕ
retired none hs = hs
retired (some o) hs = o.handle ∷ hs

retired_given :
    (scope : String) (old : Option Binding) (m : Manager)
    → lookup scope m.current ≡ old
    → Consistent m
    → (h : ℕ) → contains h (retired old m.invalid) ≡ true
    → h < m.next_handle
unfolding retired
retired_given scope none m e c h i = c.given h i
retired_given scope (some o) m e c h i = elim (contains_head h o.handle m.invalid i) [
  | inl s ↦ ground (arith, c.owned scope o e)
  | inr t ↦ c.given h t
]

retired_kept :
    (scope k : String) (old : Option Binding) (b : Binding) (m : Manager)
    → lookup scope m.current ≡ old
    → Consistent m
    → str_eq scope k ≡ false
    → lookup k m.current ≡ some b
    → contains b.handle (retired old m.invalid) ≡ false
unfolding retired
retired_kept scope k none b m e c n l = (c.owned k b l).2
retired_kept scope k (some o) b m e c n l =
    not_contains b.handle o.handle m.invalid
      (λ s. ground (arith, eq_iff scope k, c.unique scope k o b e l s)) (c.owned k b l).2

retired_fresh :
    (scope : String) (old : Option Binding) (m : Manager)
    → lookup scope m.current ≡ old
    → Consistent m
    → contains m.next_handle (retired old m.invalid) ≡ false
retired_fresh scope old m e c = elim (Bool-cases (contains m.next_handle (retired old m.invalid))) [
  | inl y ↦ ground (arith, retired_given scope old m e c m.next_handle y)
  | inr n ↦ n
]

abbrev pub fresh_binding : String → String → Manager → Binding
fresh_binding scope id m = record {
  scope = scope;
  session_id = id;
  version = next_version m;
  handle = m.next_handle;
}

bind_invalid :
    (scope id : String) (old : Option Binding) (m : Manager)
    → (bind scope id old m).invalid ≡ retired old m.invalid
unfolding bind retired
bind_invalid scope id none m = refl
bind_invalid scope id (some o) m = refl

pub bind-Consistent :
    (scope id : String) (old : Option Binding) (m : Manager)
    → lookup scope m.current ≡ old
    → Consistent m
    → Consistent (bind scope id old m)
unfolding bind
bind-Consistent scope id old m e c =
    let v = fresh_binding scope id m in
    let w = bind_invalid scope id old m in
    record {
      distinct = insert-Distinct scope v m.current c.distinct;
      owned = λ k b l. elim (lookup_inserted scope k b v m l) [
        | inl (s, q) ↦
            subst (λ x. Owned (bind scope id old m) k x) q
              (
                s,
                omega arith,
                subst (λ hs. contains m.next_handle hs ≡ false) (sym w)
                    (retired_fresh scope old m e c),
              )
        | inr (n, kept) ↦
            let o = c.owned k b kept in
            (
              o.0,
              omega (arith, o.1),
              subst (λ hs. contains b.handle hs ≡ false) (sym w)
                  (retired_kept scope k old b m e c n kept),
            )
      ];
      given = λ h i.
          omega (arith, retired_given scope old m e c h (subst (λ hs. contains h hs ≡ true) w i));
      unique = λ j k b d lj lk s. elim (lookup_inserted scope j b v m lj) [
        | inl (sj, qj) ↦ elim (lookup_inserted scope k d v m lk) [
          | inl (sk, qk) ↦ sym sj ∙ sk
          | inr (nk, kk) ↦ ground (arith, c.owned k d kk, ap (λ (x : Binding). x.handle) qj)
        ]
        | inr (nj, kj) ↦ elim (lookup_inserted scope k d v m lk) [
          | inl (sk, qk) ↦ ground (arith, c.owned j b kj, ap (λ (x : Binding). x.handle) qk)
          | inr (nk, kk) ↦ c.unique j k b d kj kk s
        ]
      ];
    }
