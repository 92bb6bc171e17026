-- ===== src/Media/Examples.antt =====
-- Two calls for one object (internal/media/object/locks.go).
use elbot.Base.{◌≤◌, ◌≡◌, refl, [], ◌∷◌, Option, none, some, is_some, leb, lookup}
use elbot.Media.Locks.{ObjectLocks, no_locks, enter, take_token, free_token, drop_user}
use elbot.Media.Locks.Callers.{
  waiting, holding, leaving, System, idle, uses, holds, total, entered, took, gave_up, freed,
  dropped, Steps, here, next,
}
use elbot.Media.Locks.Promises.{one_holder, table_in_use, waiter_proceeds}

abbrev kept : Option ObjectLocks → ObjectLocks
kept none = no_locks
kept (some l) = l

abbrev entered_twice : ObjectLocks
entered_twice = (enter "photo" (enter "photo" no_locks).0).0

abbrev taken : ObjectLocks
taken = kept (take_token 0 entered_twice)

-- The second call has the token of the first one's entry.
abbrev second_holds : System
second_holds = record { locks = taken; callers = holding "photo" 0 ∷ (waiting "photo" 0 ∷ []) }

abbrev second_left : System
second_left = record {
  locks = free_token 0 taken;
  callers = leaving "photo" 0 ∷ (waiting "photo" 0 ∷ []);
}

abbrev first_left : System
first_left = record {
  locks = drop_user "photo" 0 (drop_user "photo" 0 (free_token 0 taken));
  callers = [];
}

second_holds-Steps : Steps idle second_holds
unfolding enter take_token
second_holds-Steps =
    next (next (next here (entered "photo")) (entered "photo"))
      (took [] (waiting "photo" 0 ∷ []) "photo" 0 taken refl refl)

second_left-Steps : Steps idle second_left
second_left-Steps = next second_holds-Steps (freed [] (waiting "photo" 0 ∷ []) "photo" 0 refl)

first_left-Steps : Steps idle first_left
first_left-Steps =
    next
      (next (next second_left-Steps (dropped [] (waiting "photo" 0 ∷ []) "photo" 0 refl))
        (gave_up [] [] "photo" 0 refl))
      (dropped [] [] "photo" 0 refl)

one_holder_example : total (holds "photo") second_holds.callers ≤ 1
one_holder_example = one_holder "photo" second_holds-Steps

table_in_use_example :
    is_some (lookup "photo" first_left.locks.entries) ≡ leb 1 (total (uses "photo") [])
table_in_use_example = table_in_use "photo" first_left-Steps

waiter_proceeds_example : (k : ObjectLocks) × (take_token 0 second_left.locks ≡ some k)
waiter_proceeds_example =
    waiter_proceeds (leaving "photo" 0 ∷ []) [] "photo" 0 second_left-Steps refl refl
