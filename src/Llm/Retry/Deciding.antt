-- ===== src/Llm/Retry/Deciding.antt =====
-- Which round decides what Retry returns (internal/llm/retry.go).
use elbot.Base.{
  ℕ, zero, suc, ◌+◌, ◌≤◌, ◌≡◌, ◌⊎◌, ap, subst, sym, ◌∙◌, refl, Bool, true, false, not, ◌&&◌, Option,
  none, some, arith, if◌then◌else◌, ◌==◌, inl, inr,
}
use elbot.Llm.Retry.{
  Failure, retryable, terminal, Round, Status, succeeded, context_error, failed, Returned,
  next_delay, returned, after_event, attempt_round, retry_from, retry,
}

module _ {ℓ} {R : Type ℓ} where
  -- A round after which the loop goes on.
  unfoldable pub goes_on : Round R → Bool
  goes_on r =
      not r.ended_before
      && (elim r.outcome [ none ↦ false | some f ↦ elim f [ retryable ↦ true | terminal ↦ false ] ])
      && not r.ended_after
      && not r.ended_waiting

  -- What a round returns that ends the loop.
  unfoldable pub verdict : Bool → R → Round R → R × Status
  verdict last prev r = if r.ended_before then (prev, context_error) else elim r.outcome [
    | none ↦ (r.result, succeeded)
    | some f ↦ if r.ended_after then (r.result, context_error) else elim f [
      | terminal ↦ (r.result, failed terminal)
      | retryable ↦ (r.result, if last then failed retryable else context_error)
    ]
  ]

  -- The loop goes on after each of the k rounds from an attempt.
  unfoldable pub goes_through : ℕ → ℕ → (ℕ → Round R) → Bool
  unfolding goes_on
  goes_through zero attempt world = true
  goes_through (suc k) attempt world = goes_on (world attempt) && goes_through k (attempt + 1) world

  -- The result that the round after k more finds.
  unfoldable pub prev_at : ℕ → ℕ → R → (ℕ → Round R) → R
  prev_at zero attempt prev world = prev
  prev_at (suc k) attempt prev world = prev_at k (attempt + 1) (world attempt).result world

  abbrev round_of : Bool → Option Failure → R → Bool → Bool → Round R
  round_of bf o x af wt = record {
    ended_before = bf;
    outcome = o;
    result = x;
    ended_after = af;
    ended_waiting = wt;
  }

  -- One turn of the loop, `more` standing for the next ones.
  unfoldable loop_body : Bool → ℕ → ℕ → R → Round R → Returned R → Returned R
  unfolding attempt_round
  loop_body last attempt delay prev r more =
      if r.ended_before
      then returned prev context_error 0
      else attempt_round last attempt delay r more

  abbrev Ends : Bool → ℕ → ℕ → R → Round R → Returned R → Type ℓ
  Ends last attempt delay prev r more =
      ((
        (loop_body last attempt delay prev r more).result,
        (loop_body last attempt delay prev r more).status,
      )
        ≡ verdict last prev r)
      × ((loop_body last attempt delay prev r more).calls ≡ (if r.ended_before then 0 else 1))

  round_of-Ends :
      (last : Bool) (attempt delay : ℕ) (prev : R) (bf : Bool) (o : Option Failure) (x : R)
      (af wt : Bool) (more : Returned R)
      → (last ≡ true) ⊎ (goes_on (round_of bf o x af wt) ≡ false)
      → Ends last attempt delay prev (round_of bf o x af wt) more
  unfolding loop_body attempt_round goes_on verdict
  round_of-Ends last attempt delay prev true o x af wt more h = (refl, refl)
  round_of-Ends last attempt delay prev false none x af wt more h = (refl, refl)
  round_of-Ends last attempt delay prev false (some f) x true wt more h = (refl, refl)
  round_of-Ends last attempt delay prev false (some terminal) x false wt more h = (refl, refl)
  round_of-Ends true attempt delay prev false (some retryable) x false wt more h = (refl, refl)
  round_of-Ends false attempt delay prev false (some retryable) x false true more h = (refl, refl)
  round_of-Ends false attempt delay prev false (some retryable) x false false more h = ground arith

  goes_on_of :
      (attempt delay : ℕ) (prev : R) (bf : Bool) (o : Option Failure) (x : R) (af wt : Bool)
      (more : Returned R)
      → goes_on (round_of bf o x af wt) ≡ true
      → loop_body false attempt delay prev (round_of bf o x af wt) more
        ≡ after_event (record { attempt = attempt + 1; delay = delay }) more
  unfolding loop_body attempt_round goes_on
  goes_on_of attempt delay prev true o x af wt more h = ground arith
  goes_on_of attempt delay prev false none x af wt more h = ground arith
  goes_on_of attempt delay prev false (some terminal) x af wt more h = ground arith
  goes_on_of attempt delay prev false (some retryable) x true wt more h = ground arith
  goes_on_of attempt delay prev false (some retryable) x false true more h = ground arith
  goes_on_of attempt delay prev false (some retryable) x false false more h = refl

  attempt_round-Ends :
      (last : Bool) (attempt delay : ℕ) (prev : R) (r : Round R) (more : Returned R)
      → (last ≡ true) ⊎ (goes_on r ≡ false)
      → Ends last attempt delay prev r more
  attempt_round-Ends last attempt delay prev r more h =
      round_of-Ends last attempt delay prev r.ended_before r.outcome r.result r.ended_after
        r.ended_waiting more h

  goes_on_at :
      (attempt delay : ℕ) (prev : R) (r : Round R) (more : Returned R)
      → goes_on r ≡ true
      → loop_body false attempt delay prev r more
        ≡ after_event (record { attempt = attempt + 1; delay = delay }) more
  goes_on_at attempt delay prev r more h =
      goes_on_of attempt delay prev r.ended_before r.outcome r.result r.ended_after r.ended_waiting
        more h

  abbrev Decides : ℕ → ℕ → ℕ → ℕ → R → (ℕ → Round R) → Type ℓ
  Decides k left attempt delay prev world =
      ((
        (retry_from left attempt delay prev world).result,
        (retry_from left attempt delay prev world).status,
      )
        ≡ verdict (k == left) (prev_at k attempt prev world) (world (attempt + k)))
      × ((retry_from left attempt delay prev world).calls
          ≡ k + (if (world (attempt + k)).ended_before then 0 else 1))

  retry_from-Decides :
      (k left attempt delay : ℕ) (prev : R) (world : ℕ → Round R)
      → k ≤ left
      → goes_through k attempt world ≡ true
      → (k ≡ left) ⊎ (goes_on (world (attempt + k)) ≡ false)
      → Decides k left attempt delay prev world
  unfolding retry_from goes_through prev_at loop_body
  retry_from-Decides zero zero attempt delay prev world h g e =
      let q : attempt + 0 ≡ attempt = omega arith in
      let d =
        attempt_round-Ends true attempt delay prev (world attempt) (returned prev context_error 0)
          (inl refl) in
      rw q (d.0, omega (arith, d.1))
  retry_from-Decides zero (suc left) attempt delay prev world h g e =
      let q : attempt + 0 ≡ attempt = omega arith in
      let stop : goes_on (world attempt) ≡ false = elim e [
        | inl z ↦ ground arith
        | inr s ↦ subst (λ n. goes_on (world n) ≡ false) q s
      ] in
      let more = retry_from left (attempt + 1) (next_delay delay) (world attempt).result world in
      let nz : (0 == suc left) ≡ false = ground arith in
      let d = attempt_round-Ends false attempt delay prev (world attempt) more (inr stop) in
      rw (q, nz) (d.0, omega (arith, d.1))
  retry_from-Decides (suc k) zero attempt delay prev world h g e = ground arith
  retry_from-Decides (suc k) (suc left) attempt delay prev world h g e =
      let q : attempt + suc k ≡ attempt + 1 + k = omega arith in
      let r = world attempt in
      let now : goes_on r ≡ true = ground arith in
      let later : goes_through k (attempt + 1) world ≡ true = ground arith in
      let stop : (k ≡ left) ⊎ (goes_on (world (attempt + 1 + k)) ≡ false) = elim e [
        | inl z ↦ inl (omega arith)
        | inr s ↦ inr (subst (λ n. goes_on (world n) ≡ false) q s)
      ] in
      let more = retry_from left (attempt + 1) (next_delay delay) r.result world in
      let step = goes_on_at attempt delay prev r more now in
      let ih =
        retry_from-Decides k left (attempt + 1) (next_delay delay) r.result world (omega arith)
          later stop in
      let same : (suc k == suc left) ≡ (k == left) = ground arith in
      rw (q, same)
        (ap (λ o. (o.result, o.status)) step ∙ ih.0, ap (λ o. o.calls) step ∙ omega (arith, ih.1))

  -- Retry makes the calls of the rounds up to the first after which the loop does not go on, the
  -- last allowed one at the latest, and returns what that round decides: its result, a context's
  -- error, or its failure.
  pub retry_decides :
      (k max_retries initial : ℕ) (zero_value : R) (world : ℕ → Round R)
      → k ≤ max_retries
      → goes_through k 0 world ≡ true
      → (k ≡ max_retries) ⊎ (goes_on (world k) ≡ false)
      → ((
        (retry max_retries initial zero_value world).result,
        (retry max_retries initial zero_value world).status,
      )
          ≡ verdict (k == max_retries) (prev_at k 0 zero_value world) (world k))
        × ((retry max_retries initial zero_value world).calls
            ≡ k + (if (world k).ended_before then 0 else 1))
  unfolding retry
  retry_decides k max_retries initial zero_value world h g e =
      let q : 0 + k ≡ k = omega arith in
      let e0 : (k ≡ max_retries) ⊎ (goes_on (world (0 + k)) ≡ false) =
        subst (λ n. (k ≡ max_retries) ⊎ (goes_on (world n) ≡ false)) (sym q) e in
      subst
        (λ n.
          (((
            (retry_from max_retries 0 initial zero_value world).result,
            (retry_from max_retries 0 initial zero_value world).status,
          )
              ≡ verdict (k == max_retries) (prev_at k 0 zero_value world) (world n))
            × ((retry_from max_retries 0 initial zero_value world).calls
                ≡ k + (if (world n).ended_before then 0 else 1))))
        q (retry_from-Decides k max_retries 0 initial zero_value world h g e0)
