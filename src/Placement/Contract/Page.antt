-- ===== src/Placement/Contract/Page.antt =====
-- The pages of the query handlers.
use core_service.Prelude.{◌≡◌, ◌↔◌, arith}
use mathlib.Core.Path.{subst}
use core_service.Prelude.Int.{ℤ, pos, ◌≤ℤ◌}
use core_service.Placement.Contract.{normalize_page}

-- What a page has to satisfy.
pub record IsPage (page : ℤ × ℤ) : Type 0 where
  pub least : pos 1 ≤ℤ page.0
  pub most : page.0 ≤ℤ pos 1000
  pub start : pos 0 ≤ℤ page.1

normalize_page-IsPage : (limit offset : ℤ) → IsPage (normalize_page limit offset)
unfolding normalize_page
normalize_page-IsPage limit offset = record {
  least = ground arith;
  most = ground arith;
  start = ground arith;
}

kept→IsPage :
    (limit offset : ℤ) → normalize_page limit offset ≡ (limit, offset) → IsPage (limit, offset)
kept→IsPage limit offset kept = subst IsPage kept (normalize_page-IsPage limit offset)

IsPage→kept :
    (limit offset : ℤ) → IsPage (limit, offset) → normalize_page limit offset ≡ (limit, offset)
unfolding normalize_page
IsPage→kept limit offset p = ground arith

-- Whatever limit and offset are asked for, the query gets a limit from 1 to 1000 and an offset that
-- is not negative, and gets what is asked for exactly if that is such a page.
pub normalize_page_lem :
    (limit offset : ℤ)
    → IsPage (normalize_page limit offset)
      × ((normalize_page limit offset ≡ (limit, offset)) ↔ IsPage (limit, offset))
normalize_page_lem limit offset =
    (normalize_page-IsPage limit offset, (kept→IsPage limit offset, IsPage→kept limit offset))
