-- ===== src/Bids/Worker.antt =====
-- workers/auction_worker.run_worker: the consumer loop around the decision, with the offsets.
pub mod Offsets
pub mod Progress
mod Tests
use awa_platform.Prelude.{
  ℕ, ◌+◌, ◌≡◌, Bool, true, false, Option, List, [], ◌∷◌, ◌==◌, ◌&&◌, if◌then◌else◌,
}
use awa_platform.Exceptions.{Exception, Result, ok, raise, malformed_bid_event}
use awa_platform.Bids.World.{World, Faults, BidResult}
use awa_platform.Bids.Decide.{Driver, Envelope, decide_bid}
use awa_platform.Bids.Envelope.{Stdlib, Fields, parse_bid_envelope, read_envelope}

-- The consumer of aiokafka: what its client relies on. Delivering a message moves the position
-- past it, and `commit()` without arguments commits the position of every partition. A commit that
-- raises may have reached the broker or not.
pub record ConsumerApi (C : Type 0) : Type 0 where
  pub position : C → ℕ → ℕ
  pub committed : C → ℕ → ℕ
  pub deliver : C → (partition offset : ℕ) → C
  pub commit : C → C
  pub failed_commit : C → C
  pub position_deliver :
      (c : C) (p o q : ℕ) → position (deliver c p o) q ≡ (if q == p then o + 1 else position c q)
  pub committed_deliver : (c : C) (p o q : ℕ) → committed (deliver c p o) q ≡ committed c q
  pub position_commit : (c : C) (q : ℕ) → position (commit c) q ≡ position c q
  pub committed_commit : (c : C) (q : ℕ) → committed (commit c) q ≡ position c q

-- A message, with the faults and the clock that its processing meets, whether the shutdown signal has
-- arrived by the time of its delivery, and whether the commit of its round raises, if there is one.
pub record Message (Bytes : Type 0) : Type 0 where
  pub value : Bytes
  pub partition : ℕ
  pub offset : ℕ
  pub faults : Faults
  pub decided_at : ℕ
  pub shutdown : Bool
  pub commit_fails : Bool

-- A malformed message falls through to the commit, any other exception skips it.
unfoldable pub commits : Result (Option BidResult) → Bool
commits (ok r) = true
commits (raise malformed_bid_event) = true
commits (raise e) = false

module _ {Bytes C : Type 0} (lib : Stdlib Bytes) (api : ConsumerApi C) (driver : Driver) where
  -- `decide_bid(envelope, message.partition, message.offset)`: the reading of the envelope first.
  unfoldable pub decide_read :
      Message Bytes → Result Envelope → World → Result (Option BidResult) × World
  decide_read m (raise e) w = (raise e, w)
  decide_read m (ok env) w = decide_bid driver m.faults m.decided_at env m.partition m.offset w

  unfoldable pub decide_fields :
      Message Bytes → Result Fields → World → Result (Option BidResult) × World
  unfolding decide_read
  decide_fields m (raise e) w = (raise e, w)
  decide_fields m (ok fields) w = decide_read m (read_envelope lib fields) w

  -- The body of the `try`.
  unfoldable pub process : Message Bytes → World → Result (Option BidResult) × World
  process m w = decide_fields m (parse_bid_envelope lib m.value) w

  -- `consumer.commit()` stands outside the `try`: where it raises, the loop ends.
  unfoldable pub stops : Message Bytes → World → Bool
  unfolding process commits
  stops m w = m.commit_fails && commits (process m w).0

  abbrev pub commit_offsets : Message Bytes → C → C
  commit_offsets m c = if m.commit_fails then api.failed_commit c else api.commit c

  -- One round of the loop, after the message has been delivered.
  unfoldable pub round : Message Bytes → C × World → C × World
  unfolding process commits
  round m (c, w) =
      let c' = api.deliver c m.partition m.offset in
      let (r, w') = process m w in (if commits r then commit_offsets m c' else c', w')

  -- A shutdown leaves the loop before the message that has just been delivered is processed, and an
  -- exception of the commit leaves it after the message.
  unfoldable pub run_worker : List (Message Bytes) → C × World → C × World
  unfolding round stops
  run_worker [] s = s
  run_worker (m ∷ ms) s =
      let rest = run_worker ms (round m s) in
      if m.shutdown
      then (api.deliver s.0 m.partition m.offset, s.1)
      else (if stops m s.1 then round m s else rest)
