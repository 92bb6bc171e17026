-- ===== src/Command/Examples.antt =====
-- A registry with two commands, and lines that it dispatches.
use elbot.Base.{
  ◌≤◌, ◌≡◌, refl, true, some, [], ◌∷◌, codes, length, trim_space, has_prefix, cut, to_lower,
}
use elbot.Command.{
  Handler, Router, parse, find_handler, register, register_handlers, has_name, dispatch, handled,
  unknown_command, duplicate_alias,
}
use elbot.Command.Prefixes.{parse_longest}
use elbot.Command.Registry.{registered_stays}

abbrev help : Handler
help = record { id = 1; name = codes "Help"; aliases = codes "h" ∷ [] }

abbrev stop : Handler
stop = record { id = 2; name = codes "stop"; aliases = codes "S" ∷ codes " s" ∷ [] }

abbrev empty_router : Router
empty_router = record { prefixes = codes "/" ∷ codes "/el " ∷ []; handlers = []; order = [] }

abbrev router : Router
router = (register help empty_router).0

help_line : dispatch (codes " /el HELP  me ") router ≡ handled help (codes "me")
unfolding dispatch trim_space has_prefix cut to_lower register
help_line = refl

unknown_line : dispatch (codes "/stop") router ≡ unknown_command (codes "/") (codes "stop")
unfolding dispatch trim_space has_prefix cut to_lower register
unknown_line = refl

-- A handler with one alias twice is refused.
stop_refused : (register stop router).1 ≡ some (duplicate_alias (codes "s"))
unfolding register trim_space to_lower
stop_refused = refl

parse_longest_example :
    ((parse (codes "/el help") (codes "/" ∷ codes "/el " ∷ [])).ok ≡ true)
    × (has_prefix
          (trim_space (codes "/el help"))
          (parse (codes "/el help") (codes "/" ∷ codes "/el " ∷ [])).prefix
        ≡ true)
    × (4 ≤ length (parse (codes "/el help") (codes "/" ∷ codes "/el " ∷ [])).prefix)
unfolding has_name has_prefix trim_space
parse_longest_example =
    parse_longest (codes "/el help") (codes "/" ∷ codes "/el " ∷ []) (codes "/el ") refl refl refl

registered_stays_example :
    find_handler (codes "help") (register_handlers (stop ∷ help ∷ []) router).0.handlers ≡ some help
unfolding register find_handler trim_space to_lower
registered_stays_example = registered_stays (stop ∷ help ∷ []) router (codes "help") help refl
