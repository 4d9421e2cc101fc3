-- ===== src/Bids/Tests.antt =====
-- Runs of the bid decision and of the worker on concrete auctions and messages.
use awa_platform.Prelude.{ℕ, ◌≡◌, refl, ◌↔◌, true, Option, if◌then◌else◌, none, some, [], ◌∷◌, map}
use awa_platform.Prelude.Int.{ℤ, pos, ltb_ℤ, ◌<ℤ◌}
use awa_platform.Prelude.Dict.{lookup}
use awa_platform.Exceptions.{Exception, raise, data_error, pending_rollback_error}
use awa_platform.Models.Auction.{Auction, Bid, BidStatus, accepted, insertable}
use awa_platform.Models.User.{User}
use awa_platform.Session.{empty_db}
use awa_platform.Bids.World.{
  World, cached_amount, bid_arbitration, try_accept_bid, publish_bid_update, publish_result,
}
use awa_platform.Bids.Decide.{
  Driver, flush_bid, record_bid, Envelope, highest, verdict, bid_row, takes_row, announce,
  decide_bid,
}
use awa_platform.Bids.Ledger.{Beats, IsLedger}
use awa_platform.Bids.Sound.{exact-IsStorable, decide_bid-IsLedger}
use awa_platform.Bids.Verdict.{no_faults, accepts, decide_bid-accepts_iff}
use awa_platform.Bids.Cache.{IsBacked, decide_bid-IsBacked, decide_bid_cache_exact}
use awa_platform.Bids.Replay.{Delivery, step, run, again, decide_bid_replay, run_after_crash}

abbrev buyer : User
buyer = record {
  id = 3;
  email = "buyer@example.com";
  password_hash = "";
  first_name = "";
  last_name = "";
  phone = none;
  primary_role_id = 1;
  is_active = true;
  is_email_verified = true;
  failed_login_attempts = 0;
  locked_until = none;
  last_login_at = none;
}

abbrev car : Auction
car = record {
  id = 7;
  vehicle_id = 1;
  status = "live";
  starting_price = pos 100;
  reserve_price = none;
  starts_at = 0;
  ends_at = 10;
}

abbrev pub start : World
start = record {
  db = record empty_db { users = buyer ∷ []; auctions = car ∷ [] };
  cache = [];
  updates = [];
  results = [];
}

-- Amounts of hundredths, below 10^12 of them; the commit after a failed flush ends as given.
abbrev pub server : Option Exception → Driver
server inactive = record {
  inactive = inactive;
  column = λ x. if ltb_ℤ x (pos 1000000000000) then some x else none;
}

abbrev offer : ℕ → ℕ → Envelope
offer id amount = record { bid_id = id; auction_id = 7; bidder_id = 3; amount = pos amount }

pub start-IsLedger : IsLedger start.db
start-IsLedger = record { positive = tt; increasing = tt; above_start = tt; unique = tt }

pub start-IsBacked : IsBacked start
unfolding highest lookup
start-IsBacked a = refl

abbrev pub first : Delivery
first = record {
  envelope = offer 1 150;
  partition = 0;
  offset = 4;
  faults = no_faults;
  decided_at = 9;
}

abbrev pub second : Delivery
second = record first { envelope = offer 2 120; offset = 5 }

takes_first : takes_row start.db (bid_row (offer 1 150) (pos 150) 0 4 start.db) ≡ true
unfolding insertable
takes_first = refl

accepts_first : (bid_row (offer 1 150) (pos 150) 0 4 start.db).status ≡ accepted
unfolding verdict highest
accepts_first = refl

-- The second bid is lower, and one row of the two is accepted.
highest_of_two : highest 7 (run (server none) (first ∷ second ∷ []) start).db.bids ≡ some (pos 150)
unfolding run decide_bid flush_bid record_bid verdict highest insertable announce try_accept_bid
    publish_bid_update publish_result bid_arbitration
highest_of_two = refl

decide_bid-IsLedger_example :
    IsLedger (decide_bid (server none) no_faults 9 (offer 1 150) 0 4 start).1.db
decide_bid-IsLedger_example =
    decide_bid-IsLedger (server none) no_faults 9 (offer 1 150) 0 4 start
      (exact-IsStorable (server none) (pos 150) refl) start-IsLedger

decide_bid-accepts_iff_example :
    (accepts (decide_bid (server none) no_faults 9 (offer 1 150) 0 4 start).0 ≡ true)
    ↔ ((pos 100 <ℤ pos 150) × Beats 7 (pos 150) [])
decide_bid-accepts_iff_example =
    decide_bid-accepts_iff (server none) 9 (offer 1 150) 0 4 start car refl start-IsLedger refl refl
      takes_first

decide_bid_replay_example :
    let w = step (server none) first start in
    decide_bid
      (server (some pending_rollback_error))
      no_faults
      11
      (offer 1 150)
      0
      4
      (step (server (some pending_rollback_error)) first start)
    ≡ (raise pending_rollback_error, step (server (some pending_rollback_error)) first start)
decide_bid_replay_example =
    decide_bid_replay (server (some pending_rollback_error)) no_faults 11 first start

run_after_crash_example :
    run
      (server none)
      (map (again (λ d. (no_faults, 20))) (second ∷ []))
      (run (server none) (first ∷ second ∷ []) start)
    ≡ run (server none) (first ∷ second ∷ []) start
run_after_crash_example =
    run_after_crash (server none) (λ d. (no_faults, 20)) 1 (first ∷ second ∷ []) start

decide_bid-IsBacked_example :
    IsBacked (decide_bid (server none) no_faults 9 (offer 1 150) 0 4 start).1
decide_bid-IsBacked_example =
    decide_bid-IsBacked (server none) no_faults 9 (offer 1 150) 0 4 start
      (exact-IsStorable (server none) (pos 150) refl) start-IsBacked

decide_bid_cache_exact_example :
    let w' = (decide_bid (server none) no_faults 9 (offer 1 150) 0 4 start).1 in
    (cached_amount (lookup 7 w'.cache) ≡ pos 150) × (highest 7 w'.db.bids ≡ some (pos 150))
unfolding verdict highest
decide_bid_cache_exact_example =
    decide_bid_cache_exact (server none) no_faults 9 (offer 1 150) 0 4 start refl start-IsLedger
      start-IsBacked refl takes_first refl

-- A server that rounds down to the tens, which stand for the hundredths here.
abbrev rounding : Driver
rounding = record {
  inactive = none;
  column = λ x. if ltb_ℤ x (pos 200) then some (if ltb_ℤ x (pos 160) then pos 150 else x) else none;
}

-- An amount that is finer than the column is accepted next to the highest one, which it equals once
-- it is stored.
finer_accepted :
    map {B = ℤ × BidStatus}
      (λ (b : Bid). (b.amount, b.status))
      (run rounding (first ∷ record second { envelope = offer 2 154 } ∷ []) start).db.bids
    ≡ (pos 150, accepted) ∷ (pos 150, accepted) ∷ []
unfolding run decide_bid flush_bid record_bid verdict highest insertable announce try_accept_bid
    publish_bid_update publish_result bid_arbitration
finer_accepted = refl

-- An amount out of the column's range raises DataError and leaves nothing.
out_of_range : decide_bid rounding no_faults 9 (offer 1 250) 0 4 start ≡ (raise data_error, start)
unfolding decide_bid flush_bid
out_of_range = refl
