-- ===== src/Lifecycle/Identity/Trade.antt =====
-- The identity key of a fill names the order and the trade, and nothing else.
use core_service.Prelude.{◌≡◌, ◌↔◌, ◌≢◌, [], ◌∷◌, ◌++◌, ◌∙◌, sym, arith}
use core_service.Text.{Text, codes, trim_space, to_upper, join}
use core_service.Text.Split.{IsFree, split_at_separator}
use core_service.Float.{Float64}
use core_service.Lifecycle.Events.{Event, Time}
use core_service.Lifecycle.Identity.{order_ref, trade_ref, state_key, event_identity_key}

-- No separator occurs in the text.
abbrev pub IsPlain : Text → Type 0
IsPlain = IsFree b'|'

drop_prefix : {s t : Text} → codes "trade|" ++ s ≡ codes "trade|" ++ t → s ≡ t
drop_prefix e = cc

-- The event is a fill with an order and a trade that the exchange has named.
pub record IsTrade {F : Type 0} (e : Event F) : Type 0 where
  pub ordered : order_ref e ≢ []
  pub traded : trade_ref e ≢ []

module _ {F : Type 0} ⦃fl : Float64 F⦄ (rfc3339 : Time → Text) where
  trade_key :
      (e : Event F)
      → IsTrade e
      → event_identity_key rfc3339 e
        ≡ codes "trade|" ++ (to_upper (order_ref e) ++ b'|' ∷ to_upper (trade_ref e))
  unfolding event_identity_key join
  trade_key e h = ground arith

  trade_identity_of_refs :
      (e e' : Event F)
      → IsTrade e
      → IsTrade e'
      → order_ref e ≡ order_ref e'
      → trade_ref e ≡ trade_ref e'
      → event_identity_key rfc3339 e ≡ event_identity_key rfc3339 e'
  trade_identity_of_refs e e' h h' same_order same_trade =
      rw (trade_key e h, trade_key e' h', same_order, same_trade)

  -- Two events that name the order and the trade, neither of them blank, have one key.
  pub agree_on_refs :
      (e e' : Event F) (order trade : Text)
      → trim_space order ≢ []
      → trim_space trade ≢ []
      → order_ref e ≡ trim_space order
      → order_ref e' ≡ trim_space order
      → trade_ref e ≡ trim_space trade
      → trade_ref e' ≡ trim_space trade
      → event_identity_key rfc3339 e ≡ event_identity_key rfc3339 e'
  agree_on_refs e e' order trade ordered traded o o' t t' =
      trade_identity_of_refs e e'
        (record { ordered = λ x. ordered (sym o ∙ x); traded = λ x. traded (sym t ∙ x) })
        (record { ordered = λ x. ordered (sym o' ∙ x); traded = λ x. traded (sym t' ∙ x) })
        (o ∙ sym o') (t ∙ sym t')

  -- Two fills whose order references hold no separator have the same identity key exactly when
  -- they name the same order and the same trade, letter case aside: the source of the event, its
  -- status, its quantities and its times do not count.
  pub trade_identity_iff :
      (e e' : Event F)
      → IsTrade e
      → IsTrade e'
      → IsPlain (to_upper (order_ref e))
      → IsPlain (to_upper (order_ref e'))
      → (event_identity_key rfc3339 e ≡ event_identity_key rfc3339 e') ↔ (
          (to_upper (order_ref e) ≡ to_upper (order_ref e'))
          × (to_upper (trade_ref e) ≡ to_upper (trade_ref e')))
  trade_identity_iff e e' h h' p p' = (
    λ same.
        split_at_separator b'|' _ _ _ _ p p'
          (drop_prefix (sym (trade_key e h) ∙ same ∙ trade_key e' h')),
    λ both. rw (trade_key e h, trade_key e' h', both.0, both.1),
  )

  -- The key of a fill is never that of an event without a trade reference.
  pub trade-ne-state :
      (e e' : Event F)
      → IsTrade e
      → trade_ref e' ≡ []
      → event_identity_key rfc3339 e ≢ event_identity_key rfc3339 e'
  unfolding event_identity_key state_key join
  trade-ne-state e e' h none_traded = ground (arith, trade_key e h)
