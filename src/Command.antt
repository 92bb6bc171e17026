-- ===== src/Command.antt =====
-- Chat commands (internal/command/parse.go, router.go): the prefix of a line, the registry, the dispatch.
--
-- A handler is a number with its name and aliases; what it does with a request is a parameter of
-- `dispatch`. Lengths count code points: both texts compared are prefixes of one line, so the order is
-- that of the bytes.
pub mod Prefixes
pub mod Registry
mod Examples
use elbot.Base.{
  ℕ, Bool, true, false, not, ◌&&◌, ◌||◌, Option, none, some, List, [], ◌∷◌, ◌++◌, Text, to_lower,
  if◌then◌else◌, ltb, text_eq, is_empty, is_some, length, drop, trim_space, has_prefix, cut,
}

pub record Parsed : Type 0 where
  pub ok : Bool
  pub prefix : Text
  pub name : Text
  pub args : Text

-- strings.ToLower as Base/Texts has it: letters of ASCII, and the two signs that fold into them.
unfoldable pub normalize_name : Text → Text
normalize_name name = to_lower (trim_space name)

-- The loop over the candidates, with the prefix found so far.
unfoldable pub longest_prefix : Text → List Text → Text → Text
longest_prefix text [] prefix = prefix
longest_prefix text (candidate ∷ rest) prefix = longest_prefix text rest (
    if ltb (length prefix) (length candidate) && has_prefix text candidate
    then candidate
    else prefix)

-- strings.Cut gives the whole text and "" where there is no separator.
cut_name : Text → Text × Text
unfolding cut
cut_name s = elim (cut 32 s) [ none ↦ (s, []) | some parts ↦ parts ]

parsed_with : Text → Text → Parsed
unfolding cut_name normalize_name
parsed_with text prefix =
    let (name, args) = cut_name (trim_space (drop (length prefix) text)) in
    record { ok = true; prefix = prefix; name = normalize_name name; args = trim_space args }

unfoldable pub parse : Text → List Text → Parsed
unfolding longest_prefix parsed_with
parse text prefixes =
    if is_empty (longest_prefix (trim_space text) prefixes [])
    then record { ok = false; prefix = []; name = []; args = [] }
    else parsed_with (trim_space text) (longest_prefix (trim_space text) prefixes [])

pub record Handler : Type 0 where
  pub id : ℕ
  pub name : Text
  pub aliases : List Text

pub record Router : Type 0 where
  pub prefixes : List Text
  pub handlers : List (Text × Handler)
  pub order : List Text

pub data RegisterError : Type 0 where
  empty_name : RegisterError
  registered duplicate_alias alias_registered : Text → RegisterError

unfoldable pub find_handler : Text → List (Text × Handler) → Option Handler
find_handler name [] = none
find_handler name ((key, h) ∷ rest) = if text_eq key name then some h else find_handler name rest

unfoldable pub put_handler : Text → Handler → List (Text × Handler) → List (Text × Handler)
put_handler name h [] = (name, h) ∷ []
put_handler name h ((key, g) ∷ rest) =
    if text_eq key name then (key, h) ∷ rest else (key, g) ∷ put_handler name h rest

unfoldable pub has_name : Text → List Text → Bool
has_name name [] = false
has_name name (n ∷ rest) = text_eq n name || has_name name rest

-- The aliases of a handler, normalised, the empty ones left out.
unfoldable pub alias_names : List Text → List Text
unfolding normalize_name
alias_names [] = []
alias_names (alias ∷ rest) =
    let more = alias_names rest in
    if is_empty (normalize_name alias) then more else normalize_name alias ∷ more

-- The loop that looks for a name given twice and for one that is taken.
unfoldable pub check_names :
    Text → List Text → List Text → List (Text × Handler) → Option RegisterError
unfolding has_name find_handler
check_names name seen [] handlers = none
check_names name seen (n ∷ rest) handlers =
    let more = check_names name (n ∷ seen) rest handlers in
    if has_name n seen
    then some (duplicate_alias n)
    else (if is_some (find_handler n handlers) then some (alias_registered n) else more)

unfoldable pub put_all : List Text → Handler → List (Text × Handler) → List (Text × Handler)
unfolding put_handler
put_all [] h handlers = handlers
put_all (n ∷ rest) h handlers = put_all rest h (put_handler n h handlers)

unfoldable pub register : Handler → Router → Router × Option RegisterError
unfolding normalize_name find_handler alias_names check_names put_all
register h r =
    let name = normalize_name h.name in
    let names = name ∷ alias_names h.aliases in
    if is_empty name
    then (r, some empty_name)
    else if is_some (find_handler name r.handlers)
    then (r, some (registered name))
    else elim (check_names name [] names r.handlers) [
      | some e ↦ (r, some e)
      | none ↦
          (record r { handlers = put_all names h r.handlers; order = r.order ++ (name ∷ []) }, none)
    ]

-- RegisterHandlers stops at the first error.
unfoldable pub register_handlers : List Handler → Router → Router × Option RegisterError
unfolding register
register_handlers [] r = (r, none)
register_handlers (h ∷ rest) r =
    let more = register_handlers rest (register h r).0 in
    elim (register h r).1 [ some e ↦ ((register h r).0, some e) | none ↦ more ]

pub data Dispatched : Type 0 where
  not_command : Dispatched
  unknown_command : Text → Text → Dispatched
  handled : Handler → Text → Dispatched

-- Dispatch, up to the call of the handler with the arguments.
unfoldable pub dispatch : Text → Router → Dispatched
unfolding parse find_handler
dispatch raw r =
    let parsed = parse raw r.prefixes in
    if not parsed.ok then not_command else elim (find_handler parsed.name r.handlers) [
      | none ↦ unknown_command parsed.prefix parsed.name
      | some h ↦ handled h parsed.args
    ]
