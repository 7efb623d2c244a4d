-- ===== src/Lifecycle/Cancel.antt =====
-- internal/order/lifecycle/cancel.go: cancelling the open orders of a session that stops.
pub mod Attempts
use core_service.Prelude.{
  ℕ, zero, suc, ◌+◌, Bool, true, false, Option, none, some, List, [], ◌∷◌, ◌++◌, if◌then◌else◌,
}
use core_service.Prelude.Int.{ℤ, pos, negsuc}
use core_service.Text.{Text, codes, text_eq, decimal, first_non_empty}

pub record CancelTarget : Type 0 where
  pub session_id : Text
  pub account_id : ℤ
  pub venue_id : ℤ
  pub order_id : Text
  pub exchange_order_id : Text
  pub client_order_id : Text
  pub symbol : Text

-- A key that was never attempted counts zero attempts.
pub record StopCancelResult : Type 0 where
  pub cancelled : ℕ
  pub stopping_failed : Bool
  pub error_message : Text
  pub attempts_per_order : Text → ℕ

unfoldable pub cancel_target_key : CancelTarget → Text
cancel_target_key target =
    first_non_empty
      (target.order_id ∷ target.exchange_order_id ∷ target.client_order_id ∷ target.symbol ∷ [])

-- The result so far, and the targets of the attempts made, latest first.
pub record Progress : Type 0 where
  pub result : StopCancelResult
  pub attempts : List CancelTarget

-- result.AttemptsPerOrder[key] = attempt, and the call.
unfoldable pub attempted : CancelTarget → ℕ → Progress → Progress
attempted target attempt p = record p {
  attempts = target ∷ p.attempts;
  result = record (p.result) {
    attempts_per_order = λ key.
        if text_eq key (cancel_target_key target) then attempt else p.result.attempts_per_order key;
  };
}

abbrev pub one_cancelled : Progress → Progress
one_cancelled p = record p { result = record (p.result) { cancelled = suc p.result.cancelled } }

abbrev pub failure_message : ℕ → CancelTarget → Text → Text
failure_message max_attempts target e =
    codes "cancel open order failed after "
    ++ (decimal (pos max_attempts)
        ++ (codes " attempts: " ++ (cancel_target_key target ++ (codes ": " ++ e))))

abbrev pub failed_with : Text → Progress → Progress
failed_with text p = record p {
  result = record (p.result) { stopping_failed = true; error_message = text };
}

abbrev pub start : Progress
start = record {
  attempts = [];
  result = record {
    cancelled = 0;
    stopping_failed = false;
    error_message = [];
    attempts_per_order = λ key. 0;
  };
}

-- A number of attempts that is not positive is three.
unfoldable pub attempt_limit : ℤ → ℕ
attempt_limit (pos zero) = 3
attempt_limit (pos (suc n)) = suc n
attempt_limit (negsuc n) = 3

-- The exchange's error, or none, by the attempts made so far, latest first.
module _ (cancel_order : List CancelTarget → CancelTarget → Option Text) where
  -- The loop over the attempts that are left, with the last error.
  unfoldable pub try_cancel : ℕ → ℕ → CancelTarget → Option Text → Progress → Option Text × Progress
  unfolding attempted
  try_cancel zero attempt target last p = (last, p)
  try_cancel (suc left) attempt target last p =
      let p' = attempted target attempt p in
      elim (cancel_order p.attempts target) [
        | none ↦ (none, one_cancelled p')
        | some e ↦ try_cancel left (suc attempt) target (some e) p'
      ]

  unfoldable pub cancel_from : ℕ → List CancelTarget → Progress → Progress
  cancel_from max_attempts [] p = p
  cancel_from max_attempts (target ∷ targets) p =
      let (last, p') = try_cancel max_attempts 1 target none p in
      elim last [
        | none ↦ cancel_from max_attempts targets p'
        | some e ↦ failed_with (failure_message max_attempts target e) p'
      ]

  unfoldable pub cancel_open_orders : List CancelTarget → ℤ → Progress
  unfolding cancel_from attempt_limit
  cancel_open_orders targets max_attempts = cancel_from (attempt_limit max_attempts) targets start
