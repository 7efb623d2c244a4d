-- ===== src/Text/Split.antt =====
-- A text that is put together of two with a separator between them.
use core_service.Prelude.{ℕ, ◌≡◌, ◌≢◌, [], ◌∷◌, ◌++◌, arith}
use core_service.Text.{Text}

-- The byte does not occur in the text.
abbrev pub IsFree : ℕ → Text → Type 0
IsFree sep [] = Unit
IsFree sep (c ∷ s) = (c ≢ sep) × IsFree sep s

-- What stands before the first separator, and what behind it, are determined.
pub split_at_separator :
    (sep : ℕ) (s t u v : Text)
    → IsFree sep s
    → IsFree sep t
    → s ++ sep ∷ u ≡ t ++ sep ∷ v
    → (s ≡ t) × (u ≡ v)
split_at_separator sep [] [] u v p q e = ground arith
split_at_separator sep [] (d ∷ t) u v p q e = ground arith
split_at_separator sep (c ∷ s) [] u v p q e = ground arith
split_at_separator sep (c ∷ s) (d ∷ t) u v p q e =
    ground (arith, split_at_separator sep s t u v p.1 q.1)
