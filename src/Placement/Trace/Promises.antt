-- ===== src/Placement/Trace/Promises.antt =====
-- What an orderly placement promises to its caller.
use core_service.Prelude.{ℕ, suc, ◌≤◌, ◌≡◌, ◌⊎◌, refl, inl, inr, none, some, [], ◌∷◌, arith, Result}
use mathlib.Core.Path.{subst}
use core_service.Text.{Text}
use core_service.Float.{Float64}
use core_service.Placement.Model.{Failure, Reply, done, fail, PlaceOrderRequest, PlaceOrderResponse}
use core_service.Placement.World.{OrderResult, execute, History, World}
use core_service.Placement.Place.{place_order}
use core_service.Placement.Trace.{sent, IsOrderly, IsRefused, IsAnswer}
use core_service.Placement.Trace.Whole.{place_order-IsOnePlacement}

module _ {F : Type 0} where
  -- The orders that were handed to the exchange.
  abbrev pub sent_count : History F → ℕ
  sent_count [] = 0
  sent_count (execute r m answer ∷ cs) = suc (sent_count cs)
  sent_count (_ ∷ cs) = sent_count cs

  unsent-count : (h : History F) → sent h ≡ none → sent_count h ≡ 0
  unsent-count [] e = refl
  unsent-count (c ∷ cs) e = ground (arith, unsent-count cs)

  orderly-count : (id client : Text) (h : History F) → IsOrderly id client h → sent_count h ≤ 1
  orderly-count id client [] o = omega arith
  orderly-count id client (c ∷ cs) o = ground (arith, orderly-count id client cs, unsent-count cs)

module _ {F : Type 0} ⦃fl : Float64 F⦄ (w : World F) (req : PlaceOrderRequest F) where
  -- PlaceOrder hands at most one order to the exchange.
  pub place_order-sends_once : sent_count (place_order w req).calls ≤ 1
  place_order-sends_once =
      let (id, client, placed) = place_order-IsOnePlacement w req in
      orderly-count id client (place_order w req).calls placed.orderly

  Reply-cases :
      (r : Reply (PlaceOrderResponse F))
      → ((response : PlaceOrderResponse F) × (r ≡ done response)) ⊎ ((e : Failure) × (r ≡ fail e))
  Reply-cases (done response) = inl (response, refl)
  Reply-cases (fail e) = inr (e, refl)

  -- An order that the exchange may have, since it named it or gave no answer, is answered with a
  -- response and not with an error.
  pub place_order-answers_sent :
      (answer : Result (OrderResult F))
      → sent (place_order w req).calls ≡ some answer
      → ¬ IsRefused (some answer)
      → (response : PlaceOrderResponse F) × ((place_order w req).reply ≡ done response)
  place_order-answers_sent answer was_sent kept =
      let (id, client, placed) = place_order-IsOnePlacement w req in
      elim (Reply-cases (place_order w req).reply) [
        | inl known ↦ known
        | inr (e, failed) ↦ absurd (
            kept (
              subst IsRefused was_sent
                (subst (IsAnswer id client (place_order w req).calls) failed placed.answers)))
      ]
