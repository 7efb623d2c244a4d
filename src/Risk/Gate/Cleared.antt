-- ===== src/Risk/Gate/Cleared.antt =====
-- internal/order/risk/gate.go: when Review allows an order.
use core_service.Prelude.{refl, ◌≡◌, false, arith, ok, ◌↔◌}
use core_service.Prelude.Int.{pos, ◌≤ℤ◌}
use core_service.Float.{Float64}
use core_service.Lifecycle.Events.{Time}
use core_service.Risk.Types.{Violation, is_violation, Decision, ReviewRequest, Snapshot}
use core_service.Risk.Gate.Decided.{Reviewed, busy, unable, checked, review_route_cases}
use core_service.Risk.Gate.Reads.{
  IsRouteCleared, read_pending-IsIdle, read_capability-IsCapable, read_snapshot-IsHeld,
  read_rules-IsCompleted, validate_balance-IsFunded,
}
use core_service.Risk.Gate.{
  DefaultGate, reject, reject_violation, allowed, normal_request, read_pending, read_capability,
  read_snapshot, read_rules, validate_balance, review_route, review,
}

module _ {F : Type 0} ⦃fl : Float64 F⦄ (g : DefaultGate F) where
  -- As the gate reads.
  pub record ReadsClear (req : ReviewRequest F) : Type 0 where
    pub idle : read_pending g req ≡ ok false
    pub capable : (v : Violation) × (read_capability g req ≡ ok v) × (is_violation v ≡ false)
    pub funded :
        (held complete : Snapshot F) × (read_snapshot g req ≡ ok held)
        × (read_rules g req held ≡ ok complete)
        × (is_violation (validate_balance req complete) ≡ false)

  Reviewed-cleared :
      (req : ReviewRequest F) (at : Time) (d : Decision)
      → Reviewed g req at d
      → d ≡ allowed at
      → ReadsClear req
  unfolding reject reject_violation
  Reviewed-cleared req at d (busy p e) allows = absurd (cc)
  Reviewed-cleared req at d (unable v p c bad e) allows = absurd (cc)
  Reviewed-cleared req at d (checked v held complete p c fine s r e) allows = record {
    idle = p;
    capable = (v, c, fine);
    funded = (held, complete, s, r, ground arith);
  }

  ReadsClear-iff : (req : ReviewRequest F) → ReadsClear req ↔ IsRouteCleared g req
  ReadsClear-iff req = (
    λ h. record {
      idle = (read_pending-IsIdle g req).0 h.idle;
      capable = (read_capability-IsCapable g req).0 h.capable;
      held = h.funded.0;
      complete = h.funded.1;
      read = (read_snapshot-IsHeld g req _).0 h.funded.2;
      completed = (read_rules-IsCompleted g req _ _).0 h.funded.3;
      funded = (validate_balance-IsFunded g req _).0 h.funded.4;
    },
    λ h. record {
      idle = (read_pending-IsIdle g req).1 h.idle;
      capable = (read_capability-IsCapable g req).1 h.capable;
      funded = (
        h.held,
        h.complete,
        (read_snapshot-IsHeld g req h.held).1 h.read,
        (read_rules-IsCompleted g req h.held h.complete).1 h.completed,
        (validate_balance-IsFunded g req h.complete).1 h.funded,
      );
    },
  )

  -- The request is routed, and the review of its route clears it.
  pub record IsCleared (req : ReviewRequest F) : Type 0 where
    pub account : pos 1 ≤ℤ req.account_id
    pub venue : pos 1 ≤ℤ req.venue_id
    pub route : IsRouteCleared g (normal_request req)

  pub allowed→ReadsClear :
      (req : ReviewRequest F) (at : Time)
      → review g req at ≡ ok (allowed at)
      → ReadsClear (normal_request req)
  unfolding review reject reject_violation
  allowed→ReadsClear req at h =
      Reviewed-cleared (normal_request req) at (allowed at)
        (review_route_cases g (normal_request req) at (allowed at) (ground arith)) refl

  allowed→IsCleared :
      (req : ReviewRequest F) (at : Time) → review g req at ≡ ok (allowed at) → IsCleared req
  unfolding review reject reject_violation
  allowed→IsCleared req at h = record {
    account = ground arith;
    venue = ground arith;
    route = (ReadsClear-iff (normal_request req)).0 (allowed→ReadsClear req at h);
  }

  ReadsClear→allowed :
      (req : ReviewRequest F) (at : Time) → ReadsClear req → review_route g req at ≡ ok (allowed at)
  unfolding review_route
  ReadsClear→allowed req at h =
      let (v, c, fine) = h.capable in
      let (held, complete, s, r, free) = h.funded in
      rw (h.idle, review_route) (rw c (rw fine (rw s (rw r (rw free)))))

  IsCleared→allowed :
      (req : ReviewRequest F) (at : Time) → IsCleared req → review g req at ≡ ok (allowed at)
  unfolding review
  IsCleared→allowed req at h = ground (
    arith,
    ReadsClear→allowed (normal_request req) at ((ReadsClear-iff (normal_request req)).1 h.route),
  )

  -- An order is allowed exactly if its account and venue are given and, for the normalised request: the
  -- reader of pending orders, if there is one, answers that none is pending under its route and symbol;
  -- the reader of capabilities, if there is one, answers for its route and the answer admits it; the
  -- snapshot is what its reader answers for the route, or empty without a reader; a futures order's
  -- snapshot is completed by the rules that their reader, if there is one, answers for the route; and
  -- the balance check of its market, spot or futures, raises no violation on that. A reader that fails
  -- clears nothing.
  pub review-allowed_iff :
      (req : ReviewRequest F) (at : Time) → (review g req at ≡ ok (allowed at)) ↔ IsCleared req
  review-allowed_iff req at = (allowed→IsCleared req at, IsCleared→allowed req at)
