-- ===== src/Models/Auction.antt =====
-- models/auction.py: auctions and bids, with the constraints of the table `bids`.
use awa_platform.Prelude.{
  ℕ, String, Bool, true, false, ◌&&◌, ◌||◌, not, Option, some, List, ◌==◌, is_some,
}
use awa_platform.Prelude.Int.{ℤ, pos, ltb_ℤ}
use awa_platform.Prelude.Lists.{any}

pub record Auction : Type 0 where
  pub id : ℕ
  pub vehicle_id : ℕ
  pub status : String
  pub starting_price : ℤ
  pub reserve_price : Option ℤ
  pub starts_at : ℕ
  pub ends_at : ℕ

-- The values that the check constraint `ck_bid_status_valid` allows.
pub data BidStatus : Type 0 where
  pending accepted rejected : BidStatus

abbrev pub is_accepted : BidStatus → Bool
is_accepted accepted = true
is_accepted _ = false

pub record Bid : Type 0 where
  pub id : ℕ
  pub auction_id : ℕ
  pub bidder_id : ℕ
  pub amount : ℤ
  pub status : BidStatus
  pub kafka_partition : Option ℕ
  pub kafka_offset : Option ℕ

-- Nulls are distinct in a unique index.
abbrev pub same : Option ℕ → Option ℕ → Bool
same (some a) (some b) = a == b
same _ _ = false

-- The index `uq_bids_kafka_position` covers the rows whose offset is not null.
abbrev pub same_position : Bid → Bid → Bool
same_position a b =
    is_some a.kafka_offset
    && (same a.kafka_partition b.kafka_partition && same a.kafka_offset b.kafka_offset)

-- The database takes a row of `bids`, whose amount is what the column keeps of it, if the keys that it refers to exist, the amount is positive,
-- and neither the primary key nor the Kafka position is taken.
unfoldable pub insertable : (auction_known bidder_known : Bool) → List Bid → Bid → Bool
insertable auction_known bidder_known bids b =
    auction_known
    && (bidder_known
        && (ltb_ℤ (pos 0) b.amount && not (any (λ r. r.id == b.id || same_position b r) bids)))
