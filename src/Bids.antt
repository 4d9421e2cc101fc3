-- ===== src/Bids.antt =====
-- The critical path of a bid: core/redis.py's cache of the highest bid, services/bid_service.py and
-- workers/auction_worker.py.
pub mod World
pub mod Decide
pub mod Ledger
pub mod Sound
pub mod Verdict
pub mod Replay
pub mod Cache
pub mod House
pub mod Envelope
pub mod Submit
pub mod Worker
mod Tests
