-- ===== src/Text/Normal.antt =====
-- Normalising a text twice is normalising it once.
use core_service.Prelude.{ℕ, ◌≡◌, refl, [], ◌∷◌, arith}
use core_service.Text.{
  Text, upper_byte, to_upper, is_space, trim_left, trim_right, trim_space, normal,
}

upper_byte_idem : (c : ℕ) → upper_byte (upper_byte c) ≡ upper_byte c
unfolding upper_byte
upper_byte_idem c = ground arith

is_space-upper_byte : (c : ℕ) → is_space (upper_byte c) ≡ is_space c
unfolding upper_byte is_space
is_space-upper_byte c = ground arith

to_upper_idem : (s : Text) → to_upper (to_upper s) ≡ to_upper s
unfolding to_upper
to_upper_idem [] = refl
to_upper_idem (c ∷ s) = cc (upper_byte_idem c, to_upper_idem s)

trim_left-to_upper : (s : Text) → trim_left (to_upper s) ≡ to_upper (trim_left s)
unfolding trim_left to_upper
trim_left-to_upper [] = refl
trim_left-to_upper (c ∷ s) = ground (arith, is_space-upper_byte c, trim_left-to_upper s)

trim_right-to_upper : (s : Text) → trim_right (to_upper s) ≡ to_upper (trim_right s)
unfolding trim_right to_upper
trim_right-to_upper [] = refl
trim_right-to_upper (c ∷ s) = ground (arith, is_space-upper_byte c, trim_right-to_upper s)

trim_left_idem : (s : Text) → trim_left (trim_left s) ≡ trim_left s
unfolding trim_left
trim_left_idem [] = refl
trim_left_idem (c ∷ s) = ground (arith, trim_left_idem s)

trim_right_idem : (s : Text) → trim_right (trim_right s) ≡ trim_right s
unfolding trim_right
trim_right_idem [] = refl
trim_right_idem (c ∷ s) = ground (arith, trim_right_idem s)

trim_left-trim_right : (s : Text) → trim_left (trim_right s) ≡ trim_right (trim_left s)
unfolding trim_left trim_right
trim_left-trim_right [] = refl
trim_left-trim_right (c ∷ s) = ground (arith, trim_left-trim_right s)

pub trim_space_idem : (s : Text) → trim_space (trim_space s) ≡ trim_space s
unfolding trim_space
trim_space_idem s =
    rw (trim_left-trim_right (trim_left s), trim_left_idem s, trim_right_idem (trim_left s))

pub trim_space-to_upper : (s : Text) → trim_space (to_upper s) ≡ to_upper (trim_space s)
unfolding trim_space
trim_space-to_upper s = rw (trim_left-to_upper s, trim_right-to_upper (trim_left s))

pub normal_idem : (s : Text) → normal (normal s) ≡ normal s
unfolding normal
normal_idem s =
    rw (trim_space-to_upper (trim_space s), trim_space_idem s, to_upper_idem (trim_space s))
