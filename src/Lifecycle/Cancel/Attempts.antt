-- ===== src/Lifecycle/Cancel/Attempts.antt =====
-- How often orders are cancelled, and what the result counts.
use core_service.Prelude.{
  ℕ, zero, suc, ◌+◌, ◌*◌, ◌≤◌, ◌≡◌, refl, ◌∙◌, ◌⊎◌, inl, inr, true, false, Option, none, some, List,
  [], ◌∷◌, arith, length, Option-cases,
}
use core_service.Prelude.Int.{ℤ}
use core_service.Text.{Text}
use core_service.Lifecycle.Cancel.{
  CancelTarget, Progress, attempted, failure_message, attempt_limit, start, try_cancel, cancel_from,
  cancel_open_orders,
}

abbrev pub get_elem? : List CancelTarget → ℕ → Option CancelTarget
get_elem? [] i = none
get_elem? (t ∷ ts) zero = some t
get_elem? (t ∷ ts) (suc i) = get_elem? ts i

module _ (cancel_order : List CancelTarget → CancelTarget → Option Text) where
  -- The number of attempts, of a list with the latest first, that the exchange answered without an
  -- error.
  abbrev pub successes : List CancelTarget → ℕ
  successes [] = 0
  successes (t ∷ earlier) =
      let rest = successes earlier in
      elim (cancel_order earlier t) [ none ↦ suc rest | some e ↦ rest ]

  -- The latest attempt was for the order, and the exchange answered it with the error.
  abbrev pub EndsIn : CancelTarget → Text → List CancelTarget → Type 0
  EndsIn target e attempts =
      (earlier : List CancelTarget) × (attempts ≡ target ∷ earlier)
      × (cancel_order earlier target ≡ some e)

  -- What the attempts for one order leave.
  record Tried (left : ℕ) (target : CancelTarget) (p : Progress) (r : Option Text × Progress)
      : Type 0 where
    pub stopping : r.1.result.stopping_failed ≡ p.result.stopping_failed
    pub made : length r.1.attempts ≤ length p.attempts + left
    pub answered :
        r.1.result.cancelled + successes p.attempts ≡ p.result.cancelled + successes r.1.attempts
    pub counted :
        ((r.0 ≡ none) × (r.1.result.cancelled ≡ suc p.result.cancelled))
        ⊎ ((e : Text) × (r.0 ≡ some e)
            × EndsIn target e r.1.attempts
            × (r.1.result.cancelled ≡ p.result.cancelled)
            × (length r.1.attempts ≡ length p.attempts + left))

  try_cancel-Tried :
      (left attempt : ℕ) (target : CancelTarget) (e : Text) (p : Progress)
      → EndsIn target e p.attempts
      → Tried left target p (try_cancel cancel_order left attempt target (some e) p)
  unfolding try_cancel attempted
  try_cancel-Tried zero attempt target e p ended = (record {
    stopping = refl;
    made = omega arith;
    answered = refl;
    counted = inr (e, refl, ended, refl, omega arith);
  })
  try_cancel-Tried (suc left) attempt target e p ended =
      elim (Option-cases (cancel_order p.attempts target)) [
        | inl done ↦ ground arith
        | inr (e', failed) ↦ ground (
          arith,
          try_cancel-Tried left (suc attempt) target e' (attempted target attempt p)
              (p.attempts, refl, failed),
        )
      ]

  first_try-Tried :
      (left : ℕ) (target : CancelTarget) (p : Progress)
      → Tried (suc left) target p (try_cancel cancel_order (suc left) 1 target none p)
  unfolding try_cancel attempted
  first_try-Tried left target p = elim (Option-cases (cancel_order p.attempts target)) [
    | inl done ↦ ground arith
    | inr (e', failed) ↦
        ground (
          arith,
          try_cancel-Tried left 2 target e' (attempted target 1 p) (p.attempts, refl, failed),
        )
  ]

  -- What the whole loop leaves, from a number of targets handled before.
  pub record Stopped (n : ℕ) (targets : List CancelTarget) (p r : Progress) : Type 0 where
    pub made : length r.attempts ≤ length p.attempts + suc n * length targets
    pub answered :
        r.result.cancelled + successes p.attempts ≡ p.result.cancelled + successes r.attempts
    pub outcome :
        ((r.result.stopping_failed ≡ false)
          × (r.result.cancelled ≡ p.result.cancelled + length targets))
        ⊎ ((target : CancelTarget) × (i : ℕ) × (e : Text) × (r.result.stopping_failed ≡ true)
            × (r.result.cancelled ≡ p.result.cancelled + i)
            × (get_elem? targets i ≡ some target)
            × EndsIn target e r.attempts
            × (r.result.error_message ≡ failure_message (suc n) target e))

  Stopped-next :
      (n : ℕ) (target : CancelTarget) (targets : List CancelTarget) (p p' r : Progress)
      → p'.result.cancelled ≡ suc p.result.cancelled
      → length p'.attempts ≤ length p.attempts + suc n
      → p'.result.cancelled + successes p.attempts ≡ p.result.cancelled + successes p'.attempts
      → Stopped n targets p' r
      → Stopped n (target ∷ targets) p r
  Stopped-next n target targets p p' r one made answered h = record {
    made = omega (arith, h.made);
    answered = omega (arith, h.answered, answered);
    outcome = elim h.outcome [
      | inl (fine, all) ↦ inl (fine, omega arith)
      | inr (t, i, e, failed, count, at, ended, message) ↦
          inr (t, suc i, e, failed, omega arith, at, ended, message)
    ];
  }

  cancel_from-Stopped :
      (n : ℕ) (targets : List CancelTarget) (p : Progress)
      → p.result.stopping_failed ≡ false
      → Stopped n targets p (cancel_from cancel_order (suc n) targets p)
  unfolding cancel_from
  cancel_from-Stopped n [] p running = record {
    made = omega arith;
    answered = refl;
    outcome = inl (running, omega arith);
  }
  cancel_from-Stopped n (target ∷ targets) p running =
      let tried = try_cancel cancel_order (suc n) 1 target none p in
      let first = first_try-Tried n target p in
      elim first.counted [
        | inl (done, one) ↦
            rw (done, cancel_from)
              (Stopped-next n target targets p tried.1
                (cancel_from cancel_order (suc n) targets tried.1) one first.made first.answered
                (cancel_from-Stopped n targets tried.1 (first.stopping ∙ running)))
        | inr (e, failed, ended, same, all) ↦
            rw (failed, cancel_from)
              (record {
                made = omega (arith, all);
                answered = first.answered;
                outcome = inr (target, 0, e, refl, omega arith, refl, ended, refl);
              })
      ]

  -- Cancelling a list of orders, with a limit of n + 1 attempts for each, counts as cancelled exactly
  -- the attempts that the exchange answered without an error, and ends in one of two ways: the run has
  -- not failed and counts as many cancelled orders as the list has; or it has failed, its last attempt
  -- was for the order whose position in the list is the number of orders cancelled, and its message
  -- names the limit, that order and the exchange's error to that attempt. The attempts made are at
  -- most the limit times the number of orders.
  pub cancel_open_orders-Stopped :
      (targets : List CancelTarget) (max_attempts : ℤ) (n : ℕ)
      → attempt_limit max_attempts ≡ suc n
      → Stopped n targets start (cancel_open_orders cancel_order targets max_attempts)
  unfolding cancel_open_orders
  cancel_open_orders-Stopped targets max_attempts n limit =
      rw (limit, cancel_open_orders) (cancel_from-Stopped n targets start refl)
