-- ===== src/Bids/Decide.antt =====
-- services/bid_service.decide_bid: the decision of the auction worker about one bid.
use awa_platform.Prelude.{
  ℕ, Bool, ◌&&◌, Option, none, some, List, [], ◌∷◌, ◌==◌, if◌then◌else◌, is_some, str_eq,
}
use awa_platform.Prelude.Int.{ℤ, ltb_ℤ, is_zero}
use awa_platform.Prelude.Lists.{find, any}
use awa_platform.Exceptions.{Exception, Result, ok, raise, data_error}
use awa_platform.Models.Auction.{
  Auction, Bid, BidStatus, accepted, rejected, is_accepted, insertable,
}
use awa_platform.Session.{Db}
use awa_platform.Bids.World.{
  Reason, auction_not_live, not_highest, BidResult, Faults, Action, ◌>>◌, try_accept_bid,
  publish_bid_update, publish_result,
}

-- The envelope with its ids and its amount read. An amount is a number of units so fine that every
-- finite Decimal is a whole number of them.
pub record Envelope : Type 0 where
  pub bid_id : ℕ
  pub auction_id : ℕ
  pub bidder_id : ℕ
  pub amount : ℤ

abbrev pub max_amount : ℤ → Option ℤ → ℤ
max_amount x none = x
max_amount x (some y) = if ltb_ℤ x y then y else x

abbrev pub counts : ℕ → Bid → Bool
counts auction_id b = b.auction_id == auction_id && is_accepted b.status

-- The query for the highest accepted amount: descending order, limit 1.
unfoldable pub highest : ℕ → List Bid → Option ℤ
highest auction_id [] = none
highest auction_id (b ∷ bids) =
    let rest = highest auction_id bids in
    if counts auction_id b then some (max_amount b.amount rest) else rest

-- `highest.scalar_one_or_none() or auction.starting_price`
abbrev pub or_starting_price : Option ℤ → ℤ → ℤ
or_starting_price none price = price
or_starting_price (some h) price = if is_zero h then price else h

-- `status_` and `reason`.
unfoldable pub verdict : ℕ → Option Auction → ℤ → List Bid → BidStatus × Option Reason
verdict auction_id none amount bids = (rejected, some auction_not_live)
verdict auction_id (some auction) amount bids =
    if str_eq auction.status "live"
    then if ltb_ℤ (or_starting_price (highest auction_id bids) auction.starting_price) amount
      then (accepted, none)
      else (rejected, some not_highest)
    else (rejected, some auction_not_live)

abbrev pub find_auction : ℕ → Db → Option Auction
find_auction auction_id db = find (λ (a : Auction). a.id == auction_id) db.auctions

-- What SQLAlchemy, pyodbc and the database do with a session. `inactive` is what `commit` raises
-- after a failed flush. `column` is what the column NUMERIC(12, 2) keeps of an amount: the amount
-- rounded to two places, or `none` where the flush raises DataError, out of range for one.
pub record Driver : Type 0 where
  pub inactive : Option Exception
  pub column : ℤ → Option ℤ

-- The row, with what the column keeps of the amount.
abbrev pub bid_row : Envelope → (stored : ℤ) → (partition offset : ℕ) → Db → Bid
bid_row env stored partition offset db = record {
  id = env.bid_id;
  auction_id = env.auction_id;
  bidder_id = env.bidder_id;
  amount = stored;
  status = (verdict env.auction_id (find_auction env.auction_id db) env.amount db.bids).0;
  kafka_partition = some partition;
  kafka_offset = some offset;
}

abbrev pub takes_row : Db → Bid → Bool
takes_row db row =
    insertable (is_some (find_auction row.auction_id db))
      (any (λ u. u.id == row.bidder_id) db.users) db.bids row

-- What follows the commit: the cache of an accepted bid, the WebSocket channel, the result topic.
unfoldable pub announce : Faults → BidResult → Action (Option BidResult)
announce faults event =
    (if is_accepted event.status
      then try_accept_bid faults event.auction_id
          (record { amount = event.amount; bidder_id = event.bidder_id; ts = event.decided_at })
      else λ w. (ok tt, w))
    >> publish_bid_update faults event
    >> publish_result faults event
    >> λ w. (ok (some event), w)

-- After a failed flush the body returns None, and `session_scope` still calls `commit`.
abbrev pub leave_failed_flush : Option Exception → Result (Option BidResult)
leave_failed_flush none = ok none
leave_failed_flush (some e) = raise e

-- From the flush on.
unfoldable pub record_bid :
    Driver
    → Faults
    → (decided_at : ℕ) → Envelope
    → (stored : ℤ) → (partition offset : ℕ) → Action (Option BidResult)
record_bid driver faults decided_at env stored partition offset w =
    let row = bid_row env stored partition offset w.db in
    let event : BidResult = record {
      bid_id = env.bid_id;
      auction_id = env.auction_id;
      bidder_id = env.bidder_id;
      amount = env.amount;
      status = row.status;
      reason = (verdict env.auction_id (find_auction env.auction_id w.db) env.amount w.db.bids).1;
      decided_at = decided_at;
    } in
    if takes_row w.db row
    then announce faults event (record w { db = record w.db { bids = row ∷ w.db.bids } })
    else (leave_failed_flush driver.inactive, w)

-- Only IntegrityError is caught at the flush, and a DataError leaves with a rollback.
unfoldable pub flush_bid :
    Driver
    → Faults
    → (decided_at : ℕ) → Envelope
    → (column : Option ℤ) → (partition offset : ℕ) → Action (Option BidResult)
unfolding record_bid
flush_bid driver faults decided_at env none partition offset w = (raise data_error, w)
flush_bid driver faults decided_at env (some stored) partition offset w =
    record_bid driver faults decided_at env stored partition offset w

-- The verdict compares the amount as it was sent, and the row holds what the column keeps of it.
unfoldable pub decide_bid :
    Driver
    → Faults
    → (decided_at : ℕ) → Envelope
    → (partition offset : ℕ) → Action (Option BidResult)
unfolding flush_bid
decide_bid driver faults decided_at env partition offset w =
    flush_bid driver faults decided_at env (driver.column env.amount) partition offset w
