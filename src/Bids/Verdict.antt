-- ===== src/Bids/Verdict.antt =====
-- The decision against its specification, on every branch.
use awa_platform.Prelude.{
  ℕ, ◌≡◌, ◌≢◌, ◌↔◌, Bool, true, false, Option, some, List, arith, eq_iff, Option-cases, inl, inr,
}
use awa_platform.Prelude.Int.{ℤ, ◌<ℤ◌}
use awa_platform.Exceptions.{Result, ok}
use awa_platform.Models.Auction.{Auction, Bid, rejected, is_accepted}
use awa_platform.Bids.World.{
  World, Faults, BidResult, try_accept_bid, publish_bid_update, publish_result, auction_not_live,
}
use awa_platform.Bids.Decide.{
  Driver, Envelope, highest, verdict, find_auction, bid_row, takes_row, announce, record_bid,
  decide_bid,
}
use awa_platform.Bids.Sound.{IsExact, decide_bid-record_bid}
use awa_platform.Bids.Ledger.{
  IsLedger, Beats, Above, Beats-of_highest, highest_of_Beats, verdict_accepted, verdict_above_start,
  highest_above_start,
}

-- Above the starting price and above every accepted bid is above what the code compares with.
verdict_complete :
    (id : ℕ) (a : Auction) (x : ℤ) (bids : List Bid)
    → a.status ≡ "live"
    → a.starting_price <ℤ x
    → Above x (highest id bids)
    → is_accepted (verdict id (some a) x bids).0 ≡ true
unfolding verdict
verdict_complete id a x bids live start above = elim (Option-cases (highest id bids)) [
  | inl n ↦ rw n (ground (arith, eq_iff a.status "live"))
  | inr (k, s) ↦ let lt : k <ℤ x = rw s at above in rw s (ground (arith, eq_iff a.status "live"))
]

abbrev pub no_faults : Faults
no_faults = record {
  eval_fails = false;
  eval_runs = false;
  publish_fails = false;
  publish_runs = false;
  kafka_fails = false;
  kafka_runs = false;
}

-- A call that reports an accepted bid.
abbrev pub accepts : Result (Option BidResult) → Bool
accepts (ok (some event)) = is_accepted event.status
accepts _ = false

accepts-announce :
    (event : BidResult) (w : World)
    → accepts (announce no_faults event w).0 ≡ is_accepted event.status
unfolding announce try_accept_bid publish_bid_update publish_result
accepts-announce event w = ground arith

-- For a live auction, a sound table, an amount that its column keeps as it is, a row that the
-- database takes and no broker fault, the call
-- reports the bid as accepted exactly when its amount is above the starting price and above every
-- bid accepted for the auction before.
pub decide_bid-accepts_iff :
    (driver : Driver) (t : ℕ) (env : Envelope) (p o : ℕ) (w : World) (a : Auction)
    → IsExact driver env.amount
    → IsLedger w.db
    → find_auction env.auction_id w.db ≡ some a
    → a.status ≡ "live"
    → takes_row w.db (bid_row env env.amount p o w.db) ≡ true
    → (accepts (decide_bid driver no_faults t env p o w).0 ≡ true)
      ↔ ((a.starting_price <ℤ env.amount) × Beats env.auction_id env.amount w.db.bids)
unfolding record_bid
decide_bid-accepts_iff driver t env p o w a exact ledger f live takes =
    let bids = w.db.bids in
    rw
      (decide_bid-record_bid driver no_faults t env p o w env.amount exact, takes, accepts-announce)
      (
        λ h.
            let h' : is_accepted (verdict env.auction_id (some a) env.amount bids).0 ≡ true =
              rw f at h in
            (
              verdict_above_start env.auction_id a env.amount bids ledger.positive
                  (λ k e.
                    highest_above_start w.db.auctions env.auction_id a bids k ledger.above_start f
                      e)
                  h',
              Beats-of_highest env.auction_id env.amount bids
                  (verdict_accepted env.auction_id (some a) env.amount bids ledger.positive h'),
            ),
        λ (start, beats). rw f (
            verdict_complete env.auction_id a env.amount bids live start
              (highest_of_Beats env.auction_id env.amount bids beats)),
      )

-- A bid for an auction that is not live is rejected with that reason.
pub verdict_not_live :
    (id : ℕ) (a : Auction) (x : ℤ) (bids : List Bid)
    → a.status ≢ "live"
    → verdict id (some a) x bids ≡ (rejected, some auction_not_live)
unfolding verdict
verdict_not_live id a x bids h = ground (arith, eq_iff a.status "live")
