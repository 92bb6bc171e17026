-- ===== src/Base/Strings.antt =====
-- The functions of Go's package strings that the code uses, on texts as code points.
use Prim.Native.Nat.{ℕ, zero, suc, ◌+◌, ◌-◌, ◌*◌}
use mathlib.Core.Bool.{Bool, true, false, ◌&&◌, ◌||◌}
use mathlib.Core.List.{List, [], ◌∷◌, ◌++◌, reverse}
use mathlib.Core.Option.{Option, none, some}
use elbot.Base.Tests.{leb, ◌==◌, if◌then◌else◌}
use elbot.Base.Lists.{length, take, drop}
use elbot.Base.Texts.{Text, is_space, is_empty}
use elbot.Base.Int.{ℤ, pos, negsuc}

-- strings.HasPrefix
unfoldable pub has_prefix : Text → Text → Bool
has_prefix s [] = true
has_prefix [] (d ∷ p) = false
has_prefix (c ∷ s) (d ∷ p) = c == d && has_prefix s p

-- strings.Index
unfoldable pub index_of : Text → Text → Option ℕ
unfolding has_prefix
index_of [] needle = if is_empty needle then some 0 else none
index_of (c ∷ s) needle =
    let rest = index_of s needle in
    if has_prefix (c ∷ s) needle then some 0 else elim rest [ none ↦ none | some i ↦ some (suc i) ]

-- strings.HasSuffix
unfoldable pub has_suffix : Text → Text → Bool
unfolding has_prefix
has_suffix s p = has_prefix (reverse s) (reverse p)

-- strings.TrimPrefix
unfoldable pub trim_prefix : Text → Text → Text
unfolding has_prefix
trim_prefix s p = if has_prefix s p then drop (length p) s else s

-- strings.TrimSuffix
unfoldable pub trim_suffix : Text → Text → Text
unfolding has_suffix
trim_suffix s p = if has_suffix s p then take (length s - length p) s else s

-- strings.Cut at one code point
unfoldable pub cut : ℕ → Text → Option (Text × Text)
cut sep [] = none
cut sep (c ∷ s) =
    let rest = cut sep s in
    if c == sep then some ([], s) else elim rest [ none ↦ none | some (a, b) ↦ some (c ∷ a, b) ]

-- strings.Split at one code point
unfoldable pub split : ℕ → Text → List Text
split sep [] = [] ∷ []
split sep (c ∷ s) =
    let rest = split sep s in
    if c == sep then [] ∷ rest else elim rest [ [] ↦ (c ∷ []) ∷ [] | l ∷ ls ↦ (c ∷ l) ∷ ls ]

-- The words of strings.Fields, where `word` is the text of the word that is open.
fields_from : Text → Text → List Text
unfolding is_space
fields_from word [] = if is_empty word then [] else word ∷ []
fields_from word (c ∷ s) =
    let inside = fields_from (word ++ (c ∷ [])) s in
    let between = fields_from [] s in
    if is_space c then (if is_empty word then between else word ∷ between) else inside

unfoldable pub fields : Text → List Text
unfolding fields_from
fields s = fields_from [] s

mem_code : ℕ → Text → Bool
mem_code c [] = false
mem_code c (d ∷ s) = d == c || mem_code c s

-- strings.ContainsAny
unfoldable pub contains_any : Text → Text → Bool
unfolding mem_code
contains_any [] chars = false
contains_any (c ∷ s) chars = mem_code c chars || contains_any s chars

-- The value of a text of digits.
digits_value : ℕ → Text → Option ℕ
digits_value n [] = some n
digits_value n (c ∷ s) =
    let more = digits_value (n * 10 + (c - b'0')) s in
    if leb b'0' c && leb c b'9' then more else none

unsigned : Text → Option ℕ
unfolding digits_value
unsigned s = if is_empty s then none else digits_value 0 s

-- strconv.Atoi: a sign or none, digits, and a value of 64 bits.
unfoldable pub atoi : Text → Option ℤ
unfolding unsigned
atoi [] = none
atoi (c ∷ s) =
    if c == b'-'
    then elim (unsigned s) [
      | none ↦ none
      | some zero ↦ some (pos 0)
      | some (suc n) ↦ if leb (suc n) 9223372036854775808 then some (negsuc n) else none
    ]
    else elim (unsigned (if c == b'+' then s else c ∷ s)) [
      | none ↦ none
      | some n ↦ if leb n 9223372036854775807 then some (pos n) else none
    ]

-- strings.ReplaceAll(text, "\r\n", "\n")
unfoldable pub replace_crlf : Text → Text
replace_crlf [] = []
replace_crlf (c ∷ []) = c ∷ []
replace_crlf (c ∷ (d ∷ rest)) = elim (c == 13 && d == 10) [
  | true ↦ 10 ∷ replace_crlf rest
  | false ↦ c ∷ replace_crlf (d ∷ rest)
]
