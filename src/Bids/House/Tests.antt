-- ===== src/Bids/House/Tests.antt =====
-- The auction house and two bids, in either order.
use awa_platform.Prelude.{refl, ◌≡◌, none, [], ◌∷◌, ◌++◌, arith}
use awa_platform.Bids.Decide.{highest}
use awa_platform.Bids.Replay.{run}
use awa_platform.Bids.House.{offers, house_of, listed}
use awa_platform.Bids.House.Refines.{run-offers}
use awa_platform.Bids.House.Swaps.{swap_same_price}
use awa_platform.Bids.Tests.{server, start, first, second, start-IsLedger}

run-offers_example :
    house_of (run (server none) (first ∷ second ∷ []) start)
    ≡ offers (listed start) (first ∷ second ∷ []) (house_of start)
run-offers_example =
    run-offers (server none) (first ∷ second ∷ []) start (refl, (refl, tt)) start-IsLedger

swap_same_price_example :
    highest 7 (run (server none) ([] ++ (first ∷ second ∷ [])) start).db.bids
    ≡ highest 7 (run (server none) ([] ++ (second ∷ first ∷ [])) start).db.bids
swap_same_price_example =
    swap_same_price (server none) [] first second [] start 7 (refl, (refl, tt)) start-IsLedger
      (λ e. absurd (omega (arith, e))) (λ p e. absurd (omega (arith, e)))
