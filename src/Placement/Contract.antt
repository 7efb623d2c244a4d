-- ===== src/Placement/Contract.antt =====
-- internal/order/service/grpc.go: what a request has to satisfy before anything is stored, and the
-- small functions of the file.
pub mod Reviewed
pub mod Page
use core_service.Prelude.{
  Bool, true, false, not, ◌&&◌, ◌||◌, Option, none, some, List, [], ◌∷◌, ◌++◌, if◌then◌else◌,
}
use core_service.Prelude.Int.{ℤ, pos, leb_ℤ, ltb_ℤ, eqb_ℤ}
use core_service.Text.{
  Text, codes, is_empty, text_eq, normal, trim_space, equal_fold, one_of, decimal,
}
use core_service.Float.{Float64, lt, le, sub, zero}
use core_service.Lifecycle.Events.{Time, is_zero_time}
use core_service.Risk.Rules.{is_some}
use core_service.Placement.Model.{
  StatusCode, Failure, Reply, done, fail, PlaceOrderRequest, Meta, failed_precondition,
  invalid_argument,
}

-- status.Error(codes.InvalidArgument, message)
abbrev pub invalid : Text → Failure
invalid message = record { code = invalid_argument; message = message }

abbrev pub precondition : Text → Failure
precondition message = record { code = failed_precondition; message = message }

unfoldable pub non_empty : Text → Text → Text
non_empty v fallback = if is_empty (trim_space v) then fallback else v

abbrev one_of_ints : ℤ → List ℤ → Bool
one_of_ints n [] = false
one_of_ints n (m ∷ ms) = eqb_ℤ n m || one_of_ints n ms

unfoldable pub validate_route_request : (exchange market position_side : ℤ) → Option Failure
validate_route_request exchange market position_side =
    if not (one_of_ints exchange (pos 1 ∷ pos 2 ∷ []))
    then some (invalid (codes "unsupported exchange: " ++ decimal exchange))
    else if not (one_of_ints market (pos 1 ∷ pos 2 ∷ pos 3 ∷ []))
    then some (invalid (codes "unsupported market: " ++ decimal market))
    else if not (one_of_ints position_side (pos 0 ∷ pos 1 ∷ pos 2 ∷ []))
    then some (invalid (codes "unsupported position_side: " ++ decimal position_side))
    else none

unfoldable pub normalize_order_side : (quoted : Text → Text) → Text → Reply Text
normalize_order_side quoted side =
    if one_of (normal side) (codes "BUY" ∷ codes "SELL" ∷ [])
    then done (normal side)
    else fail (invalid (codes "unsupported order side: " ++ quoted side))

-- orderTypeMarket, orderTypeLimit
abbrev pub order_type_market : ℤ
order_type_market = pos 1

abbrev pub order_type_limit : ℤ
order_type_limit = pos 2

pub record OrderContract : Type 0 where
  pub type_code : ℤ
  pub order_type : Text
  pub time_in_force : Text

module _ {F : Type 0} where
  -- The order type that the request names, or else that of its price.
  unfoldable pub requested_type : PlaceOrderRequest F → Text
  requested_type req =
      let order_type = normal req.order_type in
      if is_empty order_type
      then (if is_some req.price then codes "LIMIT" else codes "MARKET")
      else order_type

  unfoldable pub market_contract : PlaceOrderRequest F → Reply OrderContract
  market_contract req =
      if is_some req.price
      then fail (invalid (codes "market order must not set price"))
      else if req.post_only
      then fail (invalid (codes "market order must not set post_only"))
      else if not (is_empty (trim_space req.time_in_force))
      then fail (invalid (codes "market order must not set time_in_force"))
      else if is_some req.good_till_date
      then fail (invalid (codes "market order must not set good_till_date"))
      else done (record {
        type_code = order_type_market;
        order_type = codes "MARKET";
        time_in_force = [];
      })

  unfoldable pub requested_tif : PlaceOrderRequest F → Text
  requested_tif req =
      let tif = normal req.time_in_force in if is_empty tif then codes "GTC" else tif

  unfoldable pub order_type_code_for_rejected_contract : PlaceOrderRequest F → ℤ
  order_type_code_for_rejected_contract req =
      if text_eq (normal req.order_type) (codes "LIMIT")
      then order_type_limit
      else if text_eq (normal req.order_type) (codes "MARKET")
      then order_type_market
      else if is_some req.price
      then order_type_limit
      else order_type_market

  unfoldable pub validate_position_side : Meta F → ℤ → Option Failure
  validate_position_side meta position_side =
      if eqb_ℤ meta.market (pos 1)
      then (if eqb_ℤ position_side (pos 0)
          then none
          else some (invalid (codes "spot orders must not set position_side")))
      else if equal_fold meta.position_mode (codes "hedge")
      then some (precondition (codes "hedge futures orders are not supported yet"))
      else if eqb_ℤ position_side (pos 0)
      then none
      else some (invalid (codes "one-way futures orders must use position_side=BOTH"))

module _ {F : Type 0} ⦃fl : Float64 F⦄ where
  abbrev has_positive_price : PlaceOrderRequest F → Bool
  has_positive_price req = elim req.price [ none ↦ false | some price ↦ not (le price zero) ]

  unfoldable pub limit_contract : PlaceOrderRequest F → Reply OrderContract
  unfolding requested_tif
  limit_contract req =
      let tif = requested_tif req in
      if not (has_positive_price req)
      then fail (invalid (codes "limit order requires positive price"))
      else if text_eq tif (codes "GTD") && not (is_some req.good_till_date)
      then fail (invalid (codes "gtd limit order requires good_till_date"))
      else if not (one_of tif (codes "GTC" ∷ codes "IOC" ∷ codes "FOK" ∷ codes "GTD" ∷ []))
      then fail (precondition (codes "unsupported time_in_force: " ++ tif))
      else done
          (record { type_code = order_type_limit; order_type = codes "LIMIT"; time_in_force = tif })

  unfoldable pub normalize_order_contract : PlaceOrderRequest F → Reply OrderContract
  unfolding requested_type market_contract limit_contract
  normalize_order_contract req =
      let order_type = requested_type req in
      if text_eq order_type (codes "MARKET")
      then market_contract req
      else if text_eq order_type (codes "LIMIT")
      then limit_contract req
      else fail (precondition (codes "unsupported order_type: " ++ order_type))

  -- -v is 0 - v, the same value for a v below 0.
  unfoldable pub abs : F → F
  abs v = if lt v zero then sub zero v else v

  unfoldable pub fallback_positive : F → F → F
  fallback_positive primary fallback = if lt zero primary then primary else fallback

  unfoldable pub fallback_remaining : (orig executed remaining fallback_orig : F) → F
  unfolding fallback_positive
  fallback_remaining orig executed remaining fallback_orig =
      let whole = fallback_positive orig fallback_orig in
      if le zero remaining
      then remaining
      else if le whole executed
      then zero
      else sub whole executed

unfoldable pub is_auditable_order_contract_error : Failure → Bool
is_auditable_order_contract_error failure = elim failure.code [
  | StatusCode.failed_precondition ↦ true
  | _ ↦ false
]

-- The zero time counts as none.
unfoldable pub market_time_or_now : Option Time → Time → Time
market_time_or_now none fallback = fallback
market_time_or_now (some t) fallback = if is_zero_time t then fallback else t

-- The limit and the offset of a page.
unfoldable pub normalize_page : (limit offset : ℤ) → ℤ × ℤ
normalize_page limit offset = (
  (if leb_ℤ limit (pos 0) then pos 100 else if ltb_ℤ (pos 1000) limit then pos 1000 else limit),
  (if ltb_ℤ offset (pos 0) then pos 0 else offset),
)
