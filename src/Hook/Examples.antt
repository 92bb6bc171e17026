-- ===== src/Hook/Examples.antt =====
-- A policy with a platform and a group (internal/hook/share/match.go).
use elbot.Base.{
  ◌≡◌, refl, Bool, true, ◌&&◌, Option, none, some, List, [], ◌∷◌, Text, codes, trim_space,
}
use elbot.Hook.Block.{Event, IdSets, BlockPolicy, new_block_policy, blocks}
use elbot.Hook.Block.Listed.{Checked, filled, filled_sets, names, new_block_policy-Checked}

abbrev platforms : List Text
platforms = codes " qq " ∷ []

abbrev groups : IdSets
groups = (codes "tg", codes "1" ∷ []) ∷ ((codes " tg", codes "2 " ∷ []) ∷ [])

abbrev in_group : Event
in_group = record {
  chat = record { platform = codes "tg"; chat_type = codes "group"; id = codes "1" };
  actor = record { platform = codes "tg"; id = codes "9" };
}

-- Whether a policy blocks an event, where the lists give one.
abbrev blocked : Option BlockPolicy → Event → Option Bool
blocked none e = none
blocked (some p) e = some (blocks p e)

-- The two entries of one platform count together.
both_entries : blocked (new_block_policy platforms groups []) in_group ≡ some true
unfolding new_block_policy blocks trim_space
both_entries = refl

blank_refused : new_block_policy (codes "  " ∷ []) groups [] ≡ none
unfolding new_block_policy trim_space
blank_refused = refl

new_block_policy-Checked_example :
    Checked
      (filled platforms && (filled_sets groups && filled_sets []))
      (new_block_policy platforms groups [])
      (λ p. (e : Event) → blocks p e ≡ names platforms groups [] e)
new_block_policy-Checked_example = new_block_policy-Checked platforms groups []
