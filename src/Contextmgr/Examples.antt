-- ===== src/Contextmgr/Examples.antt =====
-- The pages of a forked session (internal/contextmgr/loader.go).
use elbot.Base.{
  pos, ℕ, ◌≡◌, refl, sym, String, List, [], ◌∷◌, length, take, drop, if◌then◌else◌, str_eq, arith,
}
use elbot.Contextmgr.Loader.{ok, err, not_found, fork_depth_exceeded, Store, load_message_page}
use elbot.Contextmgr.Loader.Laws.{Lawful}
use elbot.Contextmgr.Loader.Lineage.{Conversation, own, forked}
use elbot.Contextmgr.Loader.Pages.{joined_pages, load_message_page-window, joined_pages-all}

-- `fork` was forked from `main` behind its second message.
abbrev rows : String → String → List ℕ
rows id until =
    if str_eq id "fork"
    then 5 ∷ (4 ∷ (3 ∷ []))
    else (if str_eq until "m2" then 2 ∷ (1 ∷ []) else 9 ∷ (2 ∷ (1 ∷ [])))

abbrev store : Store ℕ
store = record {
  get_session = λ id.
      if str_eq id "fork"
      then ok (record { parent = "main"; fork_from = "m2" })
      else (if str_eq id "main"
          then ok (record { parent = ""; fork_from = "" })
          else (if str_eq id "loop"
              then ok (record { parent = "loop"; fork_from = "x" })
              else err not_found));
  count_conversation = λ id until. ok (length (rows id until));
  list_conversation = λ id until limit offset. ok (take limit (drop offset (rows id until)));
}

store-Lawful : Lawful store rows
store-Lawful = record {
  counted = λ id until n e. ok_inj (sym e);
  listed = λ id until n limit offset e. refl;
}
  where
    ok_inj : {a b : ℕ} → ok a ≡ ok b → a ≡ b
    ok_inj e = ground arith

-- The three messages of the fork, and the two of `main` in front of it.
conversation : Conversation store rows 33 "fork" "" (5 ∷ (4 ∷ (3 ∷ (2 ∷ (1 ∷ [])))))
conversation =
    forked "fork" "" (record { parent = "main"; fork_from = "m2" }) 3 (2 ∷ (1 ∷ [])) refl refl refl
      refl (own "main" "m2" (record { parent = ""; fork_from = "" }) 2 refl refl refl refl)

-- A session among its own ancestors is refused.
loop_refused : load_message_page store "loop" 1 2 ≡ err fork_depth_exceeded
unfolding load_message_page
loop_refused = refl

load_message_page-window_example :
    load_message_page store "fork" 2 2
    ≡ ok (record { messages = 2 ∷ (3 ∷ []); total_pages = pos 3 })
load_message_page-window_example =
    load_message_page-window store rows store-Lawful "fork" (5 ∷ (4 ∷ (3 ∷ (2 ∷ (1 ∷ []))))) 2 2
      conversation (omega arith) (omega arith) (omega arith)

joined_pages-all_example :
    joined_pages store rows store-Lawful "fork" 2 3 ≡ 1 ∷ (2 ∷ (3 ∷ (4 ∷ (5 ∷ []))))
joined_pages-all_example =
    joined_pages-all store rows store-Lawful "fork" (5 ∷ (4 ∷ (3 ∷ (2 ∷ (1 ∷ []))))) 2 conversation
      (omega arith) (omega arith)
