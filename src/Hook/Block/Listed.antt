-- ===== src/Hook/Block/Listed.antt =====
-- The block policy against the configured lists (internal/hook/share/match.go).
use elbot.Base.{
  ◌≡◌, refl, ap, ◌∙◌, Bool, true, false, not, ◌&&◌, ◌||◌, Option, none, some, List, [], ◌∷◌, Text,
  codes, if◌then◌else◌, text_eq, text_eq_iff, is_empty, trim_space, arith, Bool-cases, inl, inr,
  ◌⊎◌, if_true, if_false,
}
use elbot.Hook.Block.{
  Event, IdSets, BlockPolicy, has, set_of, put_set, add_all, add_sets, new_block_policy, blocks,
}

-- Whether an entry names this text, but for the space around it.
unfoldable listed : Text → List Text → Bool
listed x [] = false
listed x (id ∷ rest) = text_eq (trim_space id) x || listed x rest

-- Whether an entry of the platform names this ID.
unfoldable listed_in : Text → Text → IdSets → Bool
unfolding listed
listed_in platform x [] = false
listed_in platform x ((p, ids) ∷ rest) =
    (text_eq (trim_space p) platform && listed x ids) || listed_in platform x rest

-- No entry is blank.
pub filled : List Text → Bool
filled [] = true
filled (id ∷ rest) = not (is_empty (trim_space id)) && filled rest

pub filled_sets : IdSets → Bool
unfolding filled
filled_sets [] = true
filled_sets ((p, ids) ∷ rest) = not (is_empty (trim_space p)) && (filled ids && filled_sets rest)

-- A result exists where the check passes, and has the property.
abbrev pub Checked : {A : Type 0} → Bool → Option A → (A → Type 0) → Type 0
Checked {A} check o P =
    ((check ≡ false) × (o ≡ none)) ⊎ ((check ≡ true) × (a : A) × (o ≡ some a) × P a)

or_swap : (a b c : Bool) → a || (b || c) ≡ (b || a) || c
or_swap a b c = ground arith

add_all-Checked :
    (ids set : List Text)
    → Checked (filled ids) (add_all ids set) (λ s. (x : Text) → has x s ≡ listed x ids || has x set)
unfolding add_all filled listed has
add_all-Checked [] set = inr (refl, set, refl, λ x. refl)
add_all-Checked (id ∷ rest) set = elim (Bool-cases (is_empty (trim_space id))) [
  | inl y ↦ inl (ground (arith, y), if_true y _ _)
  | inr n ↦ elim (add_all-Checked rest (trim_space id ∷ set)) [
    | inl (f, e) ↦ inl (ground (arith, n, f), if_false n _ _ ∙ e)
    | inr (t, s, e, h) ↦ inr (
      ground (arith, n, t),
      s,
      if_false n _ _ ∙ e,
      λ x. h x ∙ or_swap (listed x rest) (text_eq (trim_space id) x) (has x set),
    )
  ]
]

set_of-put_set :
    (p q : Text) (s : List Text) (t : IdSets)
    → set_of p (put_set q s t) ≡ (if text_eq q p then s else set_of p t)
unfolding set_of put_set
set_of-put_set p q s [] = refl
set_of-put_set p q s ((r, u) ∷ t) =
    ground (arith, set_of-put_set p q s t, text_eq_iff r q, text_eq_iff r p, text_eq_iff q p)

same_set :
    (p q x : Text) (ids s : List Text) (t : IdSets)
    → ((y : Text) → has y s ≡ listed y ids || has y (set_of q t))
    → has x (set_of p (put_set q s t)) ≡ (text_eq q p && listed x ids) || has x (set_of p t)
same_set p q x ids s t h = ap (has x) (set_of-put_set p q s t) ∙ elim (Bool-cases (text_eq q p)) [
  | inl y ↦ ground (arith, y, h x, ap (λ (r : Text). has x (set_of r t)) (equal y))
  | inr n ↦ ground (arith, n)
]
  where
    equal : text_eq q p ≡ true → q ≡ p
    equal y = ground (arith, y, text_eq_iff q p)

add_sets-Checked :
    (entries target : IdSets)
    → Checked
        (filled_sets entries)
        (add_sets entries target)
        (λ t. (p x : Text) → has x (set_of p t) ≡ listed_in p x entries || has x (set_of p target))
unfolding add_sets filled_sets listed_in
add_sets-Checked [] target = inr (refl, target, refl, λ p x. refl)
add_sets-Checked ((q, ids) ∷ rest) target = elim (Bool-cases (is_empty (trim_space q))) [
  | inl y ↦ inl (ground (arith, y), if_true y _ _)
  | inr n ↦ elim (add_all-Checked ids (set_of (trim_space q) target)) [
    | inl (f, e) ↦ inl (ground (arith, n, f), if_false n _ _ ∙ ap pick e)
    | inr (f, s, e, h) ↦ elim (add_sets-Checked rest (put_set (trim_space q) s target)) [
      | inl (g, e') ↦ inl (ground (arith, n, f, g), if_false n _ _ ∙ ap pick e ∙ e')
      | inr (g, t, e', k) ↦ inr (
        ground (arith, n, f, g),
        t,
        if_false n _ _ ∙ ap pick e ∙ e',
        λ p x.
            k p x
            ∙ ap (λ b. listed_in p x rest || b) (same_set p (trim_space q) x ids s target h)
            ∙ or_swap (listed_in p x rest) (text_eq (trim_space q) p && listed x ids)
                (has x (set_of p target)),
      )
    ]
  ]
]
  where
    pick : Option (List Text) → Option IdSets
    pick none = none
    pick (some set) = add_sets rest (put_set (trim_space q) set target)

pub names : List Text → IdSets → IdSets → Event → Bool
names platforms groups users e =
    listed e.chat.platform platforms
    || ((text_eq e.chat.chat_type (codes "group") && listed_in e.chat.platform e.chat.id groups)
        || listed_in e.actor.platform e.actor.id users)

-- Lists with a blank entry are refused. Others give a policy, which blocks the events whose platform is
-- listed, whose chat is a group that is listed for its platform, or whose actor is listed for his.
pub new_block_policy-Checked :
    (platforms : List Text) (groups users : IdSets)
    → Checked
        (filled platforms && (filled_sets groups && filled_sets users))
        (new_block_policy platforms groups users)
        (λ p. (e : Event) → blocks p e ≡ names platforms groups users e)
unfolding new_block_policy blocks set_of has names
new_block_policy-Checked platforms groups users = elim (add_all-Checked platforms []) [
  | inl (f, e) ↦ inl (ground (arith, f), ap with_platforms e)
  | inr (f, ps, e, h) ↦ elim (add_sets-Checked groups []) [
    | inl (g, e') ↦ inl (ground (arith, f, g), ap with_platforms e ∙ ap (with_groups ps) e')
    | inr (g, gs, e', h') ↦ elim (add_sets-Checked users []) [
      | inl (u, e'') ↦ inl (
        ground (arith, f, g, u),
        ap with_platforms e ∙ ap (with_groups ps) e' ∙ ap (with_users ps gs) e'',
      )
      | inr (u, us, e'', h'') ↦ inr (
        ground (arith, f, g, u),
        record { platforms = ps; groups = gs; users = us },
        ap with_platforms e ∙ ap (with_groups ps) e' ∙ ap (with_users ps gs) e'',
        λ v. ground (
          arith,
          h v.chat.platform,
          h' v.chat.platform v.chat.id,
          h'' v.actor.platform v.actor.id,
        ),
      )
    ]
  ]
]
  where
    with_users : List Text → IdSets → Option IdSets → Option BlockPolicy
    with_users ps gs none = none
    with_users ps gs (some us) = some (record { platforms = ps; groups = gs; users = us })

    with_groups : List Text → Option IdSets → Option BlockPolicy
    with_groups ps none = none
    with_groups ps (some gs) = with_users ps gs (add_sets users [])

    with_platforms : Option (List Text) → Option BlockPolicy
    with_platforms none = none
    with_platforms (some ps) = with_groups ps (add_sets groups [])
