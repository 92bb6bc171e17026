-- ===== src/Contextmgr/Loader/Lineage.antt =====
-- The conversation of a session, told from the rows of the sessions (internal/contextmgr/loader.go), and that
-- the first loop finds it.
use elbot.Base.{
  ℕ, zero, suc, ◌≡◌, refl, sym, ap, ◌∙◌, String, Bool, true, false, not, ◌&&◌, List, [], ◌∷◌, ◌++◌,
  append-nil, if◌then◌else◌, str_eq, if_true, if_false, arith, subst, Bool-cases, inl, inr,
}
use elbot.Contextmgr.Loader.{
  Result, ok, err, not_found, SessionRow, Store, HistoryRange, History, add_range, uncounted,
  collect, loop_end,
}
use elbot.Contextmgr.Loader.Laws.{rows_of, ok-step, err-step}

-- Whether the session was forked from a message of another.
abbrev pub has_parent : SessionRow → Bool
has_parent row = not (str_eq row.parent "") && not (str_eq row.fork_from "")

-- The conversation of a session up to a message, or all of it, newest first, over at most `n` sessions. A
-- message that is none of the session's own is looked for in its parent, whose conversation is then all
-- there is; the conversation of the parent up to the fork stands in front of the session's own.
pub data Conversation {Message : Type 0} (store : Store Message)
    (rows : String → String → List Message) : ℕ → String → String → List Message → Type 0 where
  own :
      {n : ℕ} (id until : String) (row : SessionRow) (count : ℕ)
      → str_eq id "" ≡ false
      → store.get_session id ≡ ok row
      → store.count_conversation id until ≡ ok count
      → has_parent row ≡ false
      → Conversation store rows (suc n) id until (rows id until)
  forked :
      {n : ℕ} (id until : String) (row : SessionRow) (count : ℕ) (older : List Message)
      → str_eq id "" ≡ false
      → store.get_session id ≡ ok row
      → store.count_conversation id until ≡ ok count
      → has_parent row ≡ true
      → Conversation store rows n row.parent row.fork_from older
      → Conversation store rows (suc n) id until (rows id until ++ older)
  elsewhere :
      {n : ℕ} (id until : String) (row : SessionRow) (l : List Message)
      → str_eq id "" ≡ false
      → str_eq until "" ≡ false
      → store.get_session id ≡ ok row
      → store.count_conversation id until ≡ err not_found
      → Conversation store rows n row.parent until l
      → Conversation store rows (suc n) id until l

module _ {Message : Type 0} (store : Store Message) (rows : String → String → List Message) where
  -- The loop ends with ranges that hold this conversation, and no cutoff is left.
  abbrev pub Finds : Result History → List Message → Type 0
  Finds o l =
      (ranges : List HistoryRange) × (u : String) × (o
        ≡ ok (record { ranges = ranges; inherited_cutoff = false; until = u }))
      × (rows_of rows ranges ≡ l)

  add_range-Finds :
      (id until : String) (count : ℕ) (o : Result History) (l : List Message)
      → Finds o l
      → Finds (add_range (record { id = id; until = until; count = count }) o) (rows id until ++ l)
  unfolding add_range rows_of
  add_range-Finds id until count o l (ranges, u, e, q) = (
    record { id = id; until = until; count = count } ∷ ranges,
    u,
    ap (add_range (record { id = id; until = until; count = count })) e,
    ap (λ r. rows id until ++ r) q,
  )

  own-Finds :
      (id until : String) (count : ℕ) (o : Result History)
      → Finds o []
      → Finds (add_range (record { id = id; until = until; count = count }) o) (rows id until)
  own-Finds id until count o f =
      let (ranges, u, e, q) = add_range-Finds id until count o [] f in
      (ranges, u, e, q ∙ append-nil (rows id until))

  -- A parent that the loop does not follow: no fork, or an empty ID.
  parent_end :
      (n : ℕ) (row : SessionRow)
      → has_parent row ≡ false
      → Finds
          (if str_eq row.fork_from ""
            then loop_end "" false
            else collect store n row.parent row.fork_from false)
          []
  unfolding rows_of collect
  parent_end n row h = elim (Bool-cases (str_eq row.fork_from "")) [
    | inl y ↦ ([], "", if_true y _ _, refl)
    | inr k ↦ ([], row.fork_from, if_false k _ _ ∙ stop n (ground (arith, k, h)), refl)
  ]
    where
      stop :
          (n : ℕ)
          → str_eq row.parent "" ≡ true
          → collect store n row.parent row.fork_from false ≡ loop_end row.fork_from false
      stop zero e = if_true e _ _
      stop (suc n) e = if_true e _ _

  fork_named : (row : SessionRow) → has_parent row ≡ true → str_eq row.fork_from "" ≡ false
  fork_named row h = ground (arith, h)

  pub collect-Conversation :
      {n : ℕ} {id until : String} (b : Bool) {l : List Message}
      → Conversation store rows n id until l
      → Finds (collect store n id until b) l
  unfolding collect uncounted
  collect-Conversation b (own {n} id until row count i s c h) =
      subst (λ o. Finds o (rows id until)) (sym (if_false i _ _))
        (ok-step (λ o. Finds o (rows id until)) (store.get_session id) _ _ row s
          (ok-step (λ o. Finds o (rows id until)) (store.count_conversation id until) _ _ count c
            (own-Finds id until count _ (parent_end n row h))))
  collect-Conversation b (forked {n} id until row count older i s c h t) =
      subst (λ o. Finds o (rows id until ++ older)) (sym (if_false i _ _))
        (ok-step (λ o. Finds o (rows id until ++ older)) (store.get_session id) _ _ row s
          (ok-step (λ o. Finds o (rows id until ++ older)) (store.count_conversation id until) _ _
            count c
            (add_range-Finds id until count _ older (
              subst (λ o. Finds o older) (sym (if_false (fork_named row h) _ _))
                (collect-Conversation false t)))))
  collect-Conversation b (elsewhere {n} id until row l i u s c t) =
      subst (λ o. Finds o l) (sym (if_false i _ _))
        (ok-step (λ o. Finds o l) (store.get_session id) _ _ row s
          (err-step (λ o. Finds o l) (store.count_conversation id until) _ _ not_found c
            (subst (λ o. Finds o l) (sym (if_false u _ _)) (collect-Conversation true t))))
