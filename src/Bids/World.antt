-- ===== src/Bids/World.antt =====
-- The state that the auction worker changes: the database, the Redis cache of core/redis.py, and
-- what has been published. A call takes the faults of the Redis and Kafka clients as an argument.
use awa_platform.Prelude.{ℕ, Bool, true, false, Option, none, some, List, ◌∷◌, if◌then◌else◌}
use awa_platform.Prelude.Int.{ℤ, pos, ltb_ℤ}
use awa_platform.Prelude.Dict.{Dict, lookup, insert}
use awa_platform.Exceptions.{Result, ok, raise, broker_error}
use awa_platform.Models.Auction.{BidStatus}
use awa_platform.Session.{Db}

-- Why a bid was rejected: the strings of `BidResult.reason`.
pub data Reason : Type 0 where
  auction_not_live not_highest : Reason

pub record BidResult : Type 0 where
  pub bid_id : ℕ
  pub auction_id : ℕ
  pub bidder_id : ℕ
  pub amount : ℤ
  pub status : BidStatus
  pub reason : Option Reason
  pub decided_at : ℕ

-- The hash `auction:{auction_id}:highest_bid`.
pub record CachedBid : Type 0 where
  pub amount : ℤ
  pub bidder_id : ℕ
  pub ts : ℕ

pub record World : Type 0 where
  pub db : Db
  pub cache : Dict CachedBid
  -- the channels `auction:{auction_id}:updates`, newest message first
  pub updates : List BidResult
  -- the topic of bid results, newest message first
  pub results : List BidResult

-- Which of the three calls raises, if it is made, and if it raises, whether the broker has carried it
-- out all the same.
pub record Faults : Type 0 where
  pub eval_fails : Bool
  pub eval_runs : Bool
  pub publish_fails : Bool
  pub publish_runs : Bool
  pub kafka_fails : Bool
  pub kafka_runs : Bool

abbrev pub Action : Type 0 → Type 0
Action A = World → Result A × World

infixl 5 ◌>>◌
abbrev pub ◌>>◌ : {A B : Type 0} → Action A → Action B → Action B
◌>>◌ m k w = let (r, w') = m w in elim r [ ok a ↦ k w' | raise e ↦ (raise e, w') ]

abbrev or_broken : (fails runs : Bool) → (World → World) → Action Unit
or_broken true runs act w = (raise broker_error, if runs then act w else w)
or_broken false runs act w = (ok tt, act w)

-- `tonumber(redis.call('HGET', KEYS[1], 'amount') or '0')`
abbrev pub cached_amount : Option CachedBid → ℤ
cached_amount none = pos 0
cached_amount (some c) = c.amount

-- BID_ARBITRATION_SCRIPT: set the highest bid if the new one is strictly higher.
unfoldable pub bid_arbitration : ℕ → CachedBid → Dict CachedBid → Bool × Dict CachedBid
bid_arbitration auction_id new cache =
    if ltb_ℤ (cached_amount (lookup auction_id cache)) new.amount
    then (true, insert auction_id new cache)
    else (false, cache)

unfoldable pub try_accept_bid : Faults → ℕ → CachedBid → Action Unit
try_accept_bid faults auction_id new =
    or_broken faults.eval_fails faults.eval_runs
      λ w. record w { cache = (bid_arbitration auction_id new w.cache).1 }

unfoldable pub publish_bid_update : Faults → BidResult → Action Unit
publish_bid_update faults event =
    or_broken faults.publish_fails faults.publish_runs λ w. record w { updates = event ∷ w.updates }

-- `publish_event` on the topic of bid results.
unfoldable pub publish_result : Faults → BidResult → Action Unit
publish_result faults event =
    or_broken faults.kafka_fails faults.kafka_runs λ w. record w { results = event ∷ w.results }
