-- ===== src/Hook/Block.antt =====
-- Which events skip a plugin (internal/hook/share/match.go, BlockPolicy).
--
-- A set is a list, and a map of sets a list of them by platform. The error says only which entry is
-- empty, so `none` stands for it.
pub mod Listed
use elbot.Base.{
  Bool, true, false, ◌&&◌, ◌||◌, Option, none, some, List, [], ◌∷◌, Text, codes, if◌then◌else◌,
  text_eq, is_empty, trim_space,
}

pub record Chat : Type 0 where
  pub platform : Text
  pub chat_type : Text
  pub id : Text

pub record Actor : Type 0 where
  pub platform : Text
  pub id : Text

pub record Event : Type 0 where
  pub chat : Chat
  pub actor : Actor

abbrev pub IdSets : Type 0
IdSets = List (Text × List Text)

pub record BlockPolicy : Type 0 where
  pub platforms : List Text
  pub groups : IdSets
  pub users : IdSets

unfoldable pub has : Text → List Text → Bool
has x [] = false
has x (y ∷ set) = text_eq y x || has x set

-- target[platform], empty where it is nil.
unfoldable pub set_of : Text → IdSets → List Text
set_of platform [] = []
set_of platform ((p, set) ∷ rest) = if text_eq p platform then set else set_of platform rest

unfoldable pub put_set : Text → List Text → IdSets → IdSets
put_set platform new [] = (platform, new) ∷ []
put_set platform new ((p, set) ∷ rest) =
    if text_eq p platform then (p, new) ∷ rest else (p, set) ∷ put_set platform new rest

unfoldable pub add_all : List Text → List Text → Option (List Text)
add_all [] set = some set
add_all (id ∷ rest) set =
    let more = add_all rest (trim_space id ∷ set) in if is_empty (trim_space id) then none else more

unfoldable pub add_sets : IdSets → IdSets → Option IdSets
unfolding set_of put_set add_all
add_sets [] target = some target
add_sets ((platform, ids) ∷ rest) target =
    let more : Option IdSets = elim (add_all ids (set_of (trim_space platform) target)) [
      | none ↦ none
      | some set ↦ add_sets rest (put_set (trim_space platform) set target)
    ] in
    if is_empty (trim_space platform) then none else more

unfoldable pub new_block_policy : List Text → IdSets → IdSets → Option BlockPolicy
unfolding add_all add_sets
new_block_policy blocked_platforms blocked_groups blocked_users =
    elim (add_all blocked_platforms []) [
      | none ↦ none
      | some platforms ↦ elim (add_sets blocked_groups []) [
        | none ↦ none
        | some groups ↦ elim (add_sets blocked_users []) [
          | none ↦ none
          | some users ↦ some (record { platforms = platforms; groups = groups; users = users })
        ]
      ]
    ]

unfoldable pub blocks : BlockPolicy → Event → Bool
unfolding has set_of
blocks p event =
    if has event.chat.platform p.platforms
    then true
    else (if text_eq event.chat.chat_type (codes "group")
          && has event.chat.id (set_of event.chat.platform p.groups)
        then true
        else has event.actor.id (set_of event.actor.platform p.users))
