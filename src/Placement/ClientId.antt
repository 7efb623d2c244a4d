-- ===== src/Placement/ClientId.antt =====
-- internal/order/service/grpc.go: the identifier that an order carries to the exchange.
use core_service.Prelude.{
  ℕ, zero, suc, ◌≡◌, ◌≤◌, ◌↔◌, [], ◌∷◌, ◌++◌, arith, length, length-append, ◌==◌, if◌then◌else◌,
}
use core_service.Text.{Text, codes, trim_space}
use core_service.Text.Split.{IsFree, split_at_separator}

-- s[:n], for a text that is longer
unfoldable pub take_bytes : ℕ → Text → Text
take_bytes zero s = []
take_bytes (suc n) [] = []
take_bytes (suc n) (c ∷ s) = c ∷ take_bytes n s

-- strings.ReplaceAll(s, "-", "")
unfoldable pub drop_dashes : Text → Text
drop_dashes [] = []
drop_dashes (c ∷ s) = let rest = drop_dashes s in if c == b'-' then rest else c ∷ rest

-- The part of an identifier that the client order id keeps.
unfoldable pub id_part : Text → Text
unfolding take_bytes drop_dashes
id_part id = take_bytes 12 (drop_dashes (trim_space id))

unfoldable pub build_client_order_id : (intent attempt : Text) → Text
unfolding id_part
build_client_order_id intent attempt = codes "h-" ++ (id_part intent ++ b'-' ∷ id_part attempt)

length-take_bytes : (n : ℕ) (s : Text) → length (take_bytes n s) ≤ n
unfolding take_bytes
length-take_bytes zero s = omega arith
length-take_bytes (suc n) [] = omega arith
length-take_bytes (suc n) (c ∷ s) = omega (arith, length-take_bytes n s)

length-id_part : (id : Text) → length (id_part id) ≤ 12
unfolding id_part
length-id_part id = length-take_bytes 12 (drop_dashes (trim_space id))

-- The identifier has at most 27 bytes, whatever the intent and the attempt are called.
pub length-client_order_id :
    (intent attempt : Text) → length (build_client_order_id intent attempt) ≤ 27
unfolding build_client_order_id
length-client_order_id intent attempt = omega (
  arith,
  length-id_part intent,
  length-id_part attempt,
  length-append (id_part intent) (b'-' ∷ id_part attempt),
)

drop_dashes-IsFree : (s : Text) → IsFree b'-' (drop_dashes s)
unfolding drop_dashes
drop_dashes-IsFree [] = tt
drop_dashes-IsFree (c ∷ s) = ground (arith, drop_dashes-IsFree s)

take_bytes-IsFree : (sep n : ℕ) (s : Text) → IsFree sep s → IsFree sep (take_bytes n s)
unfolding take_bytes
take_bytes-IsFree sep zero s h = tt
take_bytes-IsFree sep (suc n) [] h = tt
take_bytes-IsFree sep (suc n) (c ∷ s) h = (h.0, take_bytes-IsFree sep n s h.1)

id_part-IsFree : (id : Text) → IsFree b'-' (id_part id)
unfolding id_part
id_part-IsFree id =
    take_bytes-IsFree b'-' 12 (drop_dashes (trim_space id)) (drop_dashes-IsFree (trim_space id))

drop_prefix : {s t : Text} → codes "h-" ++ s ≡ codes "h-" ++ t → s ≡ t
drop_prefix e = cc

-- Two attempts have the same client order id exactly when the first twelve bytes of their intents'
-- identifiers and those of their own, white space at the ends and dashes aside, are the same: the
-- dash between the two parts makes no other pair collide.
pub client_order_id_iff :
    (i a i' a' : Text)
    → (build_client_order_id i a ≡ build_client_order_id i' a')
      ↔ ((id_part i ≡ id_part i') × (id_part a ≡ id_part a'))
unfolding build_client_order_id
client_order_id_iff i a i' a' = (
  λ same. split_at_separator b'-' _ _ _ _ (id_part-IsFree i) (id_part-IsFree i') (drop_prefix same),
  λ both. rw (both.0, both.1),
)
