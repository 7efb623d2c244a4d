-- ===== src/Risk/Gate/Decided.antt =====
-- internal/order/risk/gate.go: what a decision of Review says.
use core_service.Prelude.{
  ◌≡◌, ◌≢◌, ◌⊎◌, inl, inr, true, false, ◌||◌, [], ◌∷◌, refl, arith, ok, Result-cases, Bool-cases,
}
use core_service.Prelude.Int.{pos, leb_ℤ}
use core_service.Text.{codes}
use core_service.Risk.Rules.{violation}
use core_service.Float.{Float64}
use core_service.Lifecycle.Events.{Time}
use core_service.Risk.Types.{
  DecisionStatus, Violation, is_violation, Decision, ReviewRequest, Snapshot,
}
use core_service.Risk.Gate.{
  DefaultGate, reject, reject_violation, allowed, decide, normal_request, read_pending,
  read_capability, read_snapshot, read_rules, validate_balance, review_route, review,
}

-- What a decision says, field by field.
pub record IsDecided (at : Time) (d : Decision) : Type 0 where
  pub dated : d.reviewed_at ≡ at
  pub outcome :
      ((d.status ≡ DecisionStatus.allow) × (d.reason_code ≡ []) × (d.violations ≡ []))
      ⊎ ((d.status ≡ DecisionStatus.reject)
          × (v : Violation) × (d.violations ≡ v ∷ [])
          × (d.reason_code ≡ v.code)
          × (v.code ≢ []))

-- As the gate builds them.
abbrev IsBuilt : Time → Decision → Type 0
IsBuilt at d = (d ≡ allowed at) ⊎ ((v : Violation) × (v.code ≢ []) × (d ≡ reject_violation at v))

decide-IsBuilt : (at : Time) (v : Violation) → IsBuilt at (decide at v)
decide-IsBuilt at v = elim (Bool-cases (is_violation v)) [
  | inl bad ↦ inr (v, ground arith, ground arith)
  | inr fine ↦ inl (ground arith)
]

module _ {F : Type 0} ⦃fl : Float64 F⦄ (g : DefaultGate F) where
  -- The ways in which the review of a route returns a decision.
  pub data Reviewed (req : ReviewRequest F) (at : Time) : Decision → Type 0 where
    busy :
        {d : Decision}
        → read_pending g req ≡ ok true
        → d ≡ reject at (codes "ROUTE_PENDING_EXECUTION") (codes "route has pending execution")
        → Reviewed req at d
    unable :
        {d : Decision} (v : Violation)
        → read_pending g req ≡ ok false
        → read_capability g req ≡ ok v
        → is_violation v ≡ true
        → d ≡ reject_violation at v
        → Reviewed req at d
    checked :
        {d : Decision} (v : Violation) (held complete : Snapshot F)
        → read_pending g req ≡ ok false
        → read_capability g req ≡ ok v
        → is_violation v ≡ false
        → read_snapshot g req ≡ ok held
        → read_rules g req held ≡ ok complete
        → d ≡ decide at (validate_balance req complete)
        → Reviewed req at d

  -- A review that finds no pending order and no obstacle in the capability.
  checked_cases :
      (req : ReviewRequest F) (at : Time) (d : Decision) (v : Violation)
      → read_pending g req ≡ ok false
      → read_capability g req ≡ ok v
      → is_violation v ≡ false
      → review_route g req at ≡ ok d
      → Reviewed req at d
  unfolding review_route
  checked_cases req at d v p c fine h = elim (Result-cases (read_snapshot g req)) [
    | inr (e, failed) ↦ ground arith
    | inl (held, s) ↦ elim (Result-cases (read_rules g req held)) [
      | inr (e, failed) ↦ ground arith
      | inl (complete, r) ↦ checked v held complete p c fine s r (ground arith)
    ]
  ]

  idle_cases :
      (req : ReviewRequest F) (at : Time) (d : Decision)
      → read_pending g req ≡ ok false
      → review_route g req at ≡ ok d
      → Reviewed req at d
  unfolding review_route
  idle_cases req at d p h = elim (Result-cases (read_capability g req)) [
    | inr (e, failed) ↦ ground arith
    | inl (v, c) ↦ elim (Bool-cases (is_violation v)) [
      | inl bad ↦ unable v p c bad (ground arith)
      | inr fine ↦ checked_cases req at d v p c fine h
    ]
  ]

  pub review_route_cases :
      (req : ReviewRequest F) (at : Time) (d : Decision)
      → review_route g req at ≡ ok d
      → Reviewed req at d
  unfolding review_route
  review_route_cases req at d h = elim (Result-cases (read_pending g req)) [
    | inr (e, failed) ↦ ground arith
    | inl (true, p) ↦ busy p (ground arith)
    | inl (false, p) ↦ idle_cases req at d p h
  ]

  Reviewed-IsBuilt :
      (req : ReviewRequest F) (at : Time) (d : Decision) → Reviewed req at d → IsBuilt at d
  unfolding reject
  Reviewed-IsBuilt req at d (busy p e) = inr (
    violation (codes "ROUTE_PENDING_EXECUTION") (codes "route has pending execution"),
    ground arith,
    e,
  )
  Reviewed-IsBuilt req at d (unable v p c bad e) = inr (v, ground arith, e)
  Reviewed-IsBuilt req at d (checked v held complete p c fine s r e) =
      rw e (decide-IsBuilt at (validate_balance req complete))

  review-IsBuilt :
      (req : ReviewRequest F) (at : Time) (d : Decision) → review g req at ≡ ok d → IsBuilt at d
  unfolding review
  review-IsBuilt req at d h =
      elim (Bool-cases (leb_ℤ req.account_id (pos 0) || leb_ℤ req.venue_id (pos 0))) [
        | inl unrouted ↦ inr (
          violation (codes "INVALID_ROUTE") (codes "account_id and venue_id are required"),
          ground arith,
          ground arith,
        )
        | inr routed ↦
            Reviewed-IsBuilt (normal_request req) at d
              (review_route_cases (normal_request req) at d (ground arith))
      ]

  IsBuilt-IsDecided : (at : Time) (d : Decision) → IsBuilt at d → IsDecided at d
  unfolding reject_violation
  IsBuilt-IsDecided at d (inl e) = rw e (record { dated = refl; outcome = inl (refl, refl, refl) })
  IsBuilt-IsDecided at d (inr (v, given, e)) =
      rw e (record { dated = refl; outcome = inr (refl, v, refl, refl, given) })

  -- Every decision of a review is dated with the review's time, and is either an approval that
  -- names no reason and no violation, or a rejection whose reason is the code, not empty, of the
  -- one violation that it lists.
  pub review-IsDecided :
      (req : ReviewRequest F) (at : Time) (d : Decision) → review g req at ≡ ok d → IsDecided at d
  review-IsDecided req at d h = IsBuilt-IsDecided at d (review-IsBuilt req at d h)
