-- ===== src/Session/Binding/Clearing.antt =====
-- What ClearSessionBindings leaves (internal/session/binding/manager.go).
use elbot.Base.{
  ◌≡◌, refl, arith, String, Bool, true, false, not, ◌||◌, Bool-cases, ◌⊎◌, Option-cases, inl, inr,
  Option, none, some, ap, sym, ◌∙◌, List, [], ◌∷◌, str_eq, lookup, Distinct, lookup-delete,
  delete-Distinct, eq_iff, Entries,
}
use elbot.Session.Binding.{
  Manager, Binding, unbind, current_binding, keys, clear_session_bindings, clear_each, clear_one,
}

-- No current binding of the scope is one of the session.
unfoldable pub cleared : String → Option Binding → Bool
cleared id none = true
cleared id (some b) = not (str_eq b.session_id id)

unfoldable has : String → List String → Bool
has k [] = false
has k (j ∷ rest) = str_eq j k || has k rest

has-keys :
    (k : String) (entries : Entries Binding)
    → has k (keys entries) ≡ false
    → lookup k entries ≡ none
unfolding has keys lookup
has-keys k [] h = refl
has-keys k ((j, b) ∷ rest) h = ground (arith, has-keys k rest)

clear_one-Distinct :
    (id scope : String) (m : Manager) → Distinct m.current → Distinct (clear_one id scope m).current
unfolding clear_one current_binding unbind
clear_one-Distinct id scope m d = elim (Option-cases (lookup scope m.current)) [
  | inl n ↦ rw (n, clear_one) d
  | inr (b, e) ↦ elim (Bool-cases (str_eq b.session_id id)) [
    | inl y ↦ rw (e, clear_one) (rw y (delete-Distinct scope m.current d))
    | inr n ↦ rw (e, clear_one) (rw n d)
  ]
]

clear_one-cleared :
    (id scope k : String) (m : Manager)
    → Distinct m.current
    → (str_eq scope k ≡ true) ⊎ (cleared id (lookup k m.current) ≡ true)
    → cleared id (lookup k (clear_one id scope m).current) ≡ true
unfolding clear_one current_binding unbind cleared
clear_one-cleared id scope k m d h = elim (Option-cases (lookup scope m.current)) [
  | inl n ↦
      rw (n, clear_one)
        (elim h [
          | inl y ↦ ap (cleared id) (ap (λ x. lookup x m.current) (sym ((eq_iff scope k).0 y)) ∙ n)
          | inr c ↦ c
        ])
  | inr (b, e) ↦ elim (Bool-cases (str_eq b.session_id id)) [
    | inl y ↦
        rw (e, clear_one)
          (rw y (
            rw (lookup-delete scope k m.current d) (elim (Bool-cases (str_eq scope k)) [
              | inl t ↦ rw t refl
              | inr f ↦ rw f (elim h [ inl t ↦ ground arith | inr c ↦ c ])
            ])))
    | inr n ↦
        rw (e, clear_one)
          (rw n (elim h [
            | inl y ↦
                ap (cleared id) (ap (λ x. lookup x m.current) (sym ((eq_iff scope k).0 y)) ∙ e)
                ∙ rw n refl
            | inr c ↦ c
          ]))
  ]
]

clear_each-cleared :
    (id k : String) (scopes : List String) (m : Manager)
    → Distinct m.current
    → (has k scopes ≡ true) ⊎ (cleared id (lookup k m.current) ≡ true)
    → cleared id (lookup k (clear_each id scopes m).current) ≡ true
unfolding clear_each has
clear_each-cleared id k [] m d h = elim h [ inl y ↦ ground arith | inr c ↦ c ]
clear_each-cleared id k (scope ∷ rest) m d h =
    clear_each-cleared id k rest (clear_one id scope m) (clear_one-Distinct id scope m d)
      (elim (Bool-cases (has k rest)) [
        | inl y ↦ inl y
        | inr n ↦ inr (
            clear_one-cleared id scope k m d
              (elim h [ inl t ↦ inl (ground arith) | inr c ↦ inr c ]))
      ])

-- ClearSessionBindings leaves no scope bound to the session.
pub clear_session_bindings-cleared :
    (id k : String) (m : Manager)
    → Distinct m.current
    → cleared id (current_binding (clear_session_bindings id m) k) ≡ true
unfolding clear_session_bindings current_binding cleared
clear_session_bindings-cleared id k m d =
    clear_each-cleared id k (keys m.current) m d (elim (Bool-cases (has k (keys m.current))) [
      | inl y ↦ inl y
      | inr n ↦ inr (ap (cleared id) (has-keys k m.current n))
    ])
