-- ===== src/Command/Prefixes.antt =====
-- Which prefix a command line has (internal/command/parse.go).
use elbot.Base.{
  ◌≤◌, ◌≡◌, refl, Bool, true, false, ◌&&◌, List, [], ◌∷◌, Text, if◌then◌else◌, ltb, text_eq,
  is_empty, length, trim_space, has_prefix, arith, if_elim, text_eq_iff, ap, ◌∙◌, Bool-cases, inl,
  inr,
}
use elbot.Command.{Parsed, parse, parsed_with, longest_prefix, has_name}

longest_prefix-longer :
    (text : Text) (prefixes : List Text) (best : Text)
    → length best ≤ length (longest_prefix text prefixes best)
unfolding longest_prefix
longest_prefix-longer text [] best = omega arith
longest_prefix-longer text (c ∷ rest) best =
    ground (arith, longest_prefix-longer text rest c, longest_prefix-longer text rest best)

-- What a candidate does to the prefix found so far.
chosen-longer :
    (text best d : Text)
    → has_prefix text d ≡ true
    → length d ≤ length (if ltb (length best) (length d) && has_prefix text d then d else best)
chosen-longer text best d h = ground arith

longest_prefix-longest :
    (text : Text) (prefixes : List Text) (best c : Text)
    → has_name c prefixes ≡ true
    → has_prefix text c ≡ true
    → length c ≤ length (longest_prefix text prefixes best)
unfolding longest_prefix has_name
longest_prefix-longest text [] best c m h = ground arith
longest_prefix-longest text (d ∷ rest) best c m h = elim (Bool-cases (text_eq d c)) [
  | inl same ↦
      let e = (text_eq_iff d c).0 same in
      let kept =
        longest_prefix-longer text rest
          (if ltb (length best) (length d) && has_prefix text d then d else best) in
      let first = chosen-longer text best d (ap (has_prefix text) e ∙ h) in
      omega (arith, kept, first, ap length e)
  | inr other ↦ longest_prefix-longest text rest _ c (ground arith) h
]

longest_prefix-fits :
    (text : Text) (prefixes : List Text) (best : Text)
    → has_prefix text best ≡ true
    → has_prefix text (longest_prefix text prefixes best) ≡ true
unfolding longest_prefix
longest_prefix-fits text [] best h = h
longest_prefix-fits text (d ∷ rest) best h = longest_prefix-fits text rest _ (
    if_elim (λ t. has_prefix text t ≡ true) (ltb (length best) (length d) && has_prefix text d) d
      best (λ y. ground arith) (λ _. h))

has_prefix-empty : (t : Text) → has_prefix t [] ≡ true
unfolding has_prefix
has_prefix-empty [] = refl
has_prefix-empty (c ∷ t) = refl

nonempty-length : (t : Text) → is_empty t ≡ false → 1 ≤ length t
nonempty-length [] e = ground arith
nonempty-length (c ∷ t) e = ground arith

length-nonempty : (t : Text) → 1 ≤ length t → is_empty t ≡ false
length-nonempty [] e = ground arith
length-nonempty (c ∷ t) e = refl

-- A line that starts with a configured prefix which is not empty, blanks in front of the line left out,
-- is a command: the prefix that it is read with stands at its start and is no shorter than that one.
pub parse_longest :
    (text : Text) (prefixes : List Text) (c : Text)
    → has_name c prefixes ≡ true
    → has_prefix (trim_space text) c ≡ true
    → is_empty c ≡ false
    → ((parse text prefixes).ok ≡ true)
      × (has_prefix (trim_space text) (parse text prefixes).prefix ≡ true)
      × (length c ≤ length (parse text prefixes).prefix)
unfolding parse parsed_with
parse_longest text prefixes c m h n =
    if_elim
      (λ (q : Parsed).
        (q.ok ≡ true)
        × (has_prefix (trim_space text) q.prefix ≡ true)
        × (length c ≤ length q.prefix))
      (is_empty best) (record { ok = false; prefix = []; name = []; args = [] })
      (parsed_with (trim_space text) best)
      (λ e. absurd (clash (length-nonempty best (omega (arith, long, nonempty-length c n))) e))
      (λ _. (
        refl,
        longest_prefix-fits (trim_space text) prefixes [] (has_prefix-empty (trim_space text)),
        long,
      ))
  where
    best : Text
    best = longest_prefix (trim_space text) prefixes []

    long : length c ≤ length (longest_prefix (trim_space text) prefixes [])
    long = longest_prefix-longest (trim_space text) prefixes [] c m h

    clash : {b : Bool} → b ≡ false → b ≡ true → ⊥
    clash x y = ground arith
