-- ===== src/Bids/Cache.antt =====
-- The Redis cache of the highest bid against the table `bids`.
use awa_platform.Prelude.{
  ℕ, ◌≡◌, Bool, true, false, Option, none, some, List, ◌∷◌, arith, if◌then◌else◌, Bool-cases,
  Option-cases, inl, inr, ◌==◌, ◌&&◌, ◌||◌, refl, not,
}
use awa_platform.Prelude.Int.{ℤ, pos, ◌<ℤ◌, ◌≤ℤ◌, ltb_ℤ}
use awa_platform.Prelude.Dict.{lookup, lookup-insert}
use awa_platform.Models.Auction.{Bid, is_accepted}
use awa_platform.Bids.World.{
  World, Faults, Reason, BidResult, cached_amount, bid_arbitration, try_accept_bid,
  publish_bid_update, publish_result,
}
use awa_platform.Bids.Decide.{
  Driver, Envelope, counts, max_amount, highest, find_auction, bid_row, takes_row, announce,
  record_bid, decide_bid,
}
use awa_platform.Bids.Ledger.{IsLedger, Above, verdict_accepted}
use awa_platform.Bids.Sound.{
  IsStorable, IsExact, decide_bid_storable, decide_bid-record_bid, db-announce, takes_row_facts,
}

-- An amount in the cache is covered by the accepted bids; 0 stands for no entry.
abbrev pub Within : ℤ → Option ℤ → Type 0
Within x none = x ≡ pos 0
Within x (some h) = x ≤ℤ h

-- No entry of the cache is above the highest accepted bid of the database.
abbrev pub IsBacked : World → Type 0
IsBacked w = (a : ℕ) → Within (cached_amount (lookup a w.cache)) (highest a w.db.bids)

abbrev cached : ℕ → World → ℤ
cached a w = cached_amount (lookup a w.cache)

-- What the announcement does to the cache.
cached-announce :
    (faults : Faults) (event : BidResult) (a : ℕ) (w : World)
    → cached a (announce faults event w).1 ≡ (
        if a == event.auction_id
          && (is_accepted event.status
              && ((not faults.eval_fails || faults.eval_runs) && ltb_ℤ (cached a w) event.amount))
        then event.amount
        else cached a w)
unfolding announce try_accept_bid publish_bid_update publish_result bid_arbitration
cached-announce faults event a w = ground (
  arith,
  lookup-insert a event.auction_id
      (record { amount = event.amount; bidder_id = event.bidder_id; ts = event.decided_at })
      w.cache,
)

Within-new :
    (x y : ℤ) (o : Option ℤ) (b : Bool)
    → Within x o
    → pos 0 <ℤ y
    → Within (if b then y else x) (some (max_amount y o))
Within-new x y none b h p = ground arith
Within-new x y (some k) b h p = ground arith

not_counted :
    (a : ℕ) (row : Bid) (b : Bool)
    → counts a row ≡ false
    → (a == row.auction_id && (is_accepted row.status && b)) ≡ false
not_counted a row b h = ground arith

-- The event of a row.
abbrev event_of : Bid → Option Reason → ℕ → BidResult
event_of row reason t = record {
  bid_id = row.id;
  auction_id = row.auction_id;
  bidder_id = row.bidder_id;
  amount = row.amount;
  status = row.status;
  reason = reason;
  decided_at = t;
}

abbrev with_row : World → Bid → World
with_row w row = record w { db = record w.db { bids = row ∷ w.db.bids } }

-- The invariant at one auction, after a row that the table takes.
Within-row :
    (faults : Faults) (reason : Option Reason) (t a : ℕ) (w : World) (row : Bid)
    → Within (cached a w) (highest a w.db.bids)
    → pos 0 <ℤ row.amount
    → Within
        (cached a (announce faults (event_of row reason t) (with_row w row)).1)
        (highest a (row ∷ w.db.bids))
unfolding highest
Within-row faults reason t a w row h positive =
    rw (cached-announce faults (event_of row reason t) a (with_row w row))
      (elim (Bool-cases (counts a row)) [
        | inl c ↦ rw c (Within-new (cached a w) row.amount (highest a w.db.bids) _ h positive)
        | inr n ↦ rw (n, not_counted a row _ n) h
      ])

-- Whatever the faults of the brokers, if the column `amount` either refuses the amount or keeps it as
-- it is, after a decision no entry of the cache is above the highest
-- accepted bid of its auction in the database, if none was before.
pub decide_bid-IsBacked :
    (driver : Driver) (faults : Faults) (t : ℕ) (env : Envelope) (p o : ℕ) (w : World)
    → IsStorable driver env.amount
    → IsBacked w
    → IsBacked (decide_bid driver faults t env p o w).1
unfolding record_bid
decide_bid-IsBacked driver faults t env p o w storable h =
    decide_bid_storable driver faults t env p o w IsBacked storable h λ a.
      elim (Bool-cases (takes_row w.db (bid_row env env.amount p o w.db))) [
        | inl e ↦
            let row = bid_row env env.amount p o w.db in
            rw (e, db-announce) (Within-row faults _ t a w row (h a) (takes_row_facts w.db row e).0)
        | inr e ↦ rw e (h a)
      ]

-- The compare-and-set of an accepted bid succeeds, also where the cache has fallen behind.
cache_behind : (x y : ℤ) (o : Option ℤ) → Within x o → Above y o → pos 0 <ℤ y → ltb_ℤ x y ≡ true
cache_behind x y none h k p = ground arith
cache_behind x y (some z) h k p = ground arith

highest_accepted :
    (row : Bid) (bids : List Bid)
    → is_accepted row.status ≡ true
    → Above row.amount (highest row.auction_id bids)
    → highest row.auction_id (row ∷ bids) ≡ some row.amount
unfolding highest
highest_accepted row bids h above = elim (Option-cases (highest row.auction_id bids)) [
  | inl n ↦ ground arith
  | inr (k, e) ↦ let lt : k <ℤ row.amount = rw e at above in ground arith
]

cached_set :
    (x y : ℤ) (a : ℕ) (acc up : Bool)
    → acc ≡ true
    → up ≡ true
    → ltb_ℤ x y ≡ true
    → (if a == a && (acc && (up && ltb_ℤ x y)) then y else x) ≡ y
cached_set x y a acc up e1 e2 e3 = rw (e1, e2, e3) (ground arith)

-- When a bid is accepted, the column keeps its amount as it is and the call of Redis does not fail, the cache holds exactly this amount
-- afterwards, and it is the highest accepted bid of the database, also where the cache had fallen
-- behind before.
pub decide_bid_cache_exact :
    (driver : Driver) (faults : Faults) (t : ℕ) (env : Envelope) (p o : ℕ) (w : World)
    → IsExact driver env.amount
    → IsLedger w.db
    → IsBacked w
    → faults.eval_fails ≡ false
    → takes_row w.db (bid_row env env.amount p o w.db) ≡ true
    → is_accepted (bid_row env env.amount p o w.db).status ≡ true
    → let w' = (decide_bid driver faults t env p o w).1 in
      (cached_amount (lookup env.auction_id w'.cache) ≡ env.amount)
      × (highest env.auction_id w'.db.bids ≡ some env.amount)
unfolding record_bid
decide_bid_cache_exact driver faults t env p o w exact ledger backed up takes acc =
    let row = bid_row env env.amount p o w.db in
    let above =
      verdict_accepted env.auction_id (find_auction env.auction_id w.db) env.amount w.db.bids
        ledger.positive acc in
    let behind =
      cache_behind (cached env.auction_id w) env.amount (highest env.auction_id w.db.bids)
        (backed env.auction_id) above (takes_row_facts w.db row takes).0 in
    (
      rw (decide_bid-record_bid driver faults t env p o w env.amount exact, takes, cached-announce)
          (cached_set (cached env.auction_id w) env.amount env.auction_id _ _ acc (rw up refl)
            behind),
      rw (decide_bid-record_bid driver faults t env p o w env.amount exact, takes, db-announce)
          (highest_accepted row w.db.bids acc above),
    )
