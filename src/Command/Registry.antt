-- ===== src/Command/Registry.antt =====
-- The registry of commands (internal/command/router.go): what registering a handler changes.
use elbot.Base.{
  ◌≡◌, refl, sym, ap, ◌∙◌, Bool, true, false, not, ◌&&◌, Option, none, some, List, [], ◌∷◌, ◌++◌,
  Text, if◌then◌else◌, text_eq, is_empty, is_some, arith, if_elim, text_eq_iff, Bool-cases, inl,
  inr,
}
use elbot.Command.{
  Handler, Router, RegisterError, registered, empty_name, find_handler, put_handler, has_name,
  check_names, put_all, register, register_handlers, normalize_name, alias_names,
}

-- An error, or the rest.
error_elim {κ} :
    {A : Type 0} (P : A → Type κ) (o : Option RegisterError) (x : A) (f : RegisterError → A)
    → ((e : RegisterError) → P (f e))
    → (o ≡ none → P x)
    → P (elim o [ some e ↦ f e | none ↦ x ])
error_elim P none x f s c = c refl
error_elim P (some e) x f s c = s e

find_handler-put_handler :
    (n m : Text) (h : Handler) (l : List (Text × Handler))
    → find_handler m (put_handler n h l) ≡ (if text_eq n m then some h else find_handler m l)
unfolding find_handler put_handler
find_handler-put_handler n m h [] = refl
find_handler-put_handler n m h ((k, g) ∷ rest) =
    ground (
      arith,
      find_handler-put_handler n m h rest,
      text_eq_iff k n,
      text_eq_iff k m,
      text_eq_iff n m,
    )

find_handler-put_all :
    (names : List Text) (m : Text) (h : Handler) (l : List (Text × Handler))
    → find_handler m (put_all names h l) ≡ (if has_name m names then some h else find_handler m l)
unfolding put_all has_name
find_handler-put_all [] m h l = refl
find_handler-put_all (n ∷ rest) m h l =
    ground
      (arith, find_handler-put_all rest m h (put_handler n h l), find_handler-put_handler n m h l)

free_none : (o : Option Handler) → is_some o ≡ false → o ≡ none
free_none none e = refl
free_none (some h) e = ground arith

-- Names that pass the check are not taken.
check_names-free :
    (name : Text) (seen names : List Text) (l : List (Text × Handler)) (m : Text)
    → check_names name seen names l ≡ none
    → has_name m names ≡ true
    → find_handler m l ≡ none
unfolding check_names has_name
check_names-free name seen [] l m c h = ground arith
check_names-free name seen (n ∷ rest) l m c h = elim (Bool-cases (text_eq n m)) [
  | inl same ↦
      ap (λ t. find_handler t l) (sym ((text_eq_iff n m).0 same))
      ∙ free_none (find_handler n l) (ground arith)
  | inr other ↦ check_names-free name (n ∷ seen) rest l m (ground arith) (ground arith)
]

-- The names of a handler: its own, then its aliases.
unfoldable pub names_of : Handler → List Text
names_of h = normalize_name h.name ∷ alias_names h.aliases

-- Both outcomes of Register.
register_elim :
    (P : Router × Option RegisterError → Type 0) (h : Handler) (r : Router)
    → ((e : RegisterError) → P (r, some e))
    → (check_names (normalize_name h.name) [] (names_of h) r.handlers ≡ none
        → P (
          record r {
            handlers = put_all (names_of h) h r.handlers;
            order = r.order ++ (normalize_name h.name ∷ []);
          },
          none,
        ))
    → P (register h r)
unfolding register names_of
register_elim P h r refused done =
    if_elim P (is_empty (normalize_name h.name)) _ _ (λ _. refused empty_name)
      (λ _.
        if_elim P (is_some (find_handler (normalize_name h.name) r.handlers)) _ _
          (λ _. refused (registered (normalize_name h.name)))
          (λ _.
            error_elim P
              (check_names (normalize_name h.name) []
                (normalize_name h.name ∷ alias_names h.aliases) r.handlers)
              _ _ refused done))

-- Where Register succeeds, each of the handler's names leads to it; where it fails, each name leads
-- where it led.
pub register_binds :
    (h : Handler) (r : Router) (name : Text)
    → find_handler name (register h r).0.handlers ≡ (
        if not (is_some (register h r).1) && has_name name (names_of h)
        then some h
        else find_handler name r.handlers)
unfolding put_all names_of has_name
register_binds h r name =
    register_elim
      (λ (q : Router × Option RegisterError). find_handler name q.0.handlers ≡ (
        if not (is_some q.1) && has_name name (names_of h)
        then some h
        else find_handler name r.handlers))
      h r (λ e. refl) (λ free. find_handler-put_all (names_of h) name h r.handlers)

register_keeps :
    (h : Handler) (r : Router) (name : Text) (g : Handler)
    → find_handler name r.handlers ≡ some g
    → find_handler name (register h r).0.handlers ≡ some g
register_keeps h r name g found =
    register_elim (λ (q : Router × Option RegisterError). find_handler name q.0.handlers ≡ some g) h
      r (λ e. found)
      (λ free.
        find_handler-put_all (names_of h) name h r.handlers
        ∙ if_kept (has_name name (names_of h)) refl free)
  where
    taken : {o : Option Handler} → o ≡ none → o ≡ some g → ⊥
    taken x y = ground arith

    if_kept :
        (b : Bool)
        → has_name name (names_of h) ≡ b
        → check_names (normalize_name h.name) [] (names_of h) r.handlers ≡ none
        → (if b then some h else find_handler name r.handlers) ≡ some g
    if_kept false e free = found
    if_kept true e free = absurd (
        taken (check_names-free (normalize_name h.name) [] (names_of h) r.handlers name free e)
          found)

-- A name that leads to a handler leads to it after any further registrations, failed ones included.
pub registered_stays :
    (hs : List Handler) (r : Router) (name : Text) (g : Handler)
    → find_handler name r.handlers ≡ some g
    → find_handler name (register_handlers hs r).0.handlers ≡ some g
unfolding register_handlers
registered_stays [] r name g found = found
registered_stays (h ∷ rest) r name g found =
    error_elim (λ (q : Router × Option RegisterError). find_handler name q.0.handlers ≡ some g)
      (register h r).1 _ _ (λ e. register_keeps h r name g found)
      (λ _. registered_stays rest (register h r).0 name g (register_keeps h r name g found))
