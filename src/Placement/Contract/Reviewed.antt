-- ===== src/Placement/Contract/Reviewed.antt =====
-- The gate reads a contract that PlaceOrder has normalised the way PlaceOrder does.
use core_service.Prelude.{◌≡◌, ◌⊎◌, refl, sym, ◌∙◌, inl, inr, true, false, [], arith, Bool-cases}
use core_service.Text.{Text, codes, is_empty, text_eq, normal, to_upper, upper_byte, trim_space}
use core_service.Text.Normal.{normal_idem}
use core_service.Float.{Float64}
use core_service.Risk.Types.{no_violation, ReviewRequest}
use core_service.Risk.Rules.{is_some, validate_market_order}
use core_service.Risk.Gate.{default_order_type, default_time_in_force, normal_request}
use core_service.Placement.Model.{done, PlaceOrderRequest, Meta}
use core_service.Placement.Contract.{
  OrderContract, order_type_market, order_type_limit, market_contract, requested_tif,
  limit_contract, normalize_order_contract,
}
use core_service.Placement.Request.{Checked, review_request}

normal_market : normal (codes "MARKET") ≡ codes "MARKET"
unfolding normal to_upper upper_byte trim_space
normal_market = refl

normal_limit : normal (codes "LIMIT") ≡ codes "LIMIT"
unfolding normal to_upper upper_byte trim_space
normal_limit = refl

normal_gtc : normal (codes "GTC") ≡ codes "GTC"
unfolding normal to_upper upper_byte trim_space
normal_gtc = refl

blank_is_normal : normal [] ≡ []
unfolding normal to_upper trim_space
blank_is_normal = refl

module _ {F : Type 0} where
  -- The contract is that of a market order, which sets nothing else.
  record IsMarket (req : PlaceOrderRequest F) (k : OrderContract) : Type 0 where
    pub kind : k.order_type ≡ codes "MARKET"
    pub code : k.type_code ≡ order_type_market
    pub no_tif : k.time_in_force ≡ []
    pub no_price : is_some req.price ≡ false
    pub no_post_only : req.post_only ≡ false
    pub no_date : is_some req.good_till_date ≡ false

  record IsLimit (req : PlaceOrderRequest F) (k : OrderContract) : Type 0 where
    pub kind : k.order_type ≡ codes "LIMIT"
    pub code : k.type_code ≡ order_type_limit
    pub tif : k.time_in_force ≡ requested_tif req
    pub price : is_some req.price ≡ true

  market_contract-IsMarket :
      (req : PlaceOrderRequest F) (k : OrderContract)
      → market_contract req ≡ done k
      → IsMarket req k
  unfolding market_contract
  market_contract-IsMarket req k h = ground arith

module _ {F : Type 0} ⦃fl : Float64 F⦄ where
  limit_contract-IsLimit :
      (req : PlaceOrderRequest F) (k : OrderContract) → limit_contract req ≡ done k → IsLimit req k
  unfolding limit_contract
  limit_contract-IsLimit req k h = ground arith

  contract-cases :
      (req : PlaceOrderRequest F) (k : OrderContract)
      → normalize_order_contract req ≡ done k
      → IsMarket req k ⊎ IsLimit req k
  unfolding normalize_order_contract
  contract-cases req k h =
      ground (arith, market_contract-IsMarket req k, limit_contract-IsLimit req k)

  requested_tif_stable :
      (req : PlaceOrderRequest F)
      → (normal (requested_tif req) ≡ requested_tif req) × (is_empty (requested_tif req) ≡ false)
  unfolding requested_tif
  requested_tif_stable req = elim (Bool-cases (is_empty (normal req.time_in_force))) [
    | inl e ↦ rw e (normal_gtc, refl)
    | inr e ↦ rw e (normal_idem req.time_in_force, e)
  ]

  -- What the gate makes of the request: the same order type and time in force, and, of a market
  -- order, nothing that such an order must not set.
  pub record IsKept (c : Checked F) (q : ReviewRequest F) : Type 0 where
    pub kept_type : default_order_type q ≡ c.contract.order_type
    pub kept_tif : default_time_in_force q ≡ c.contract.time_in_force
    pub clean :
        (default_order_type q ≡ codes "LIMIT")
        ⊎ (validate_market_order (normal_request q) ≡ no_violation)

  market_type :
      (meta : Meta F) (c : Checked F)
      → IsMarket c.req c.contract
      → default_order_type (review_request meta c) ≡ codes "MARKET"
  unfolding default_order_type review_request
  market_type meta c m = ground (arith, normal_market)

  market_tif :
      (meta : Meta F) (c : Checked F)
      → IsMarket c.req c.contract
      → default_time_in_force (review_request meta c) ≡ []
  unfolding default_time_in_force review_request text_eq
  market_tif meta c m = rw (market_type meta c m, m.no_tif, blank_is_normal) refl

  bare_market_order :
      (q : ReviewRequest F)
      → is_some q.price ≡ false
      → q.post_only ≡ false
      → q.time_in_force ≡ []
      → is_some q.good_till_date ≡ false
      → validate_market_order q ≡ no_violation
  unfolding validate_market_order trim_space
  bare_market_order q price post_only tif date = rw (price, post_only, tif, date) refl

  market_clean :
      (meta : Meta F) (c : Checked F)
      → IsMarket c.req c.contract
      → validate_market_order (normal_request (review_request meta c)) ≡ no_violation
  unfolding normal_request review_request
  market_clean meta c m =
      bare_market_order (normal_request (review_request meta c)) m.no_price m.no_post_only
        (market_tif meta c m) m.no_date

  market-IsKept :
      (meta : Meta F) (c : Checked F) → IsMarket c.req c.contract → IsKept c (review_request meta c)
  market-IsKept meta c m = record {
    kept_type = market_type meta c m ∙ sym m.kind;
    kept_tif = market_tif meta c m ∙ sym m.no_tif;
    clean = inr (market_clean meta c m);
  }

  limit-IsKept :
      (meta : Meta F) (c : Checked F) → IsLimit c.req c.contract → IsKept c (review_request meta c)
  unfolding default_time_in_force normal_request validate_market_order review_request
  limit-IsKept meta c m = record {
    kept_type = ground (arith, normal_limit);
    kept_tif = ground (arith, normal_limit, requested_tif_stable c.req);
    clean = inl ground (arith, normal_limit);
  }

  -- A request whose contract PlaceOrder has accepted reaches the gate with the order type and the
  -- time in force that the gate would choose itself, and the gate never refuses it as a market
  -- order that sets a price, a time in force, a date or post-only.
  pub contract-IsKept :
      (meta : Meta F) (req : PlaceOrderRequest F) (side : Text) (k : OrderContract)
      → normalize_order_contract req ≡ done k
      → let c : Checked F = record { req = req; side = side; contract = k } in
        IsKept c (review_request meta c)
  contract-IsKept meta req side k h =
      let c : Checked F = record { req = req; side = side; contract = k } in
      elim (contract-cases req k h) [
        | inl m ↦ market-IsKept meta c m
        | inr l ↦ limit-IsKept meta c l
      ]
