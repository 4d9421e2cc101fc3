-- ===== src/Bids/Worker/Offsets.antt =====
-- What the loop of the worker keeps, and what its offset commits mean.
use awa_platform.Prelude.{◌+◌, ◌<◌, ◌≡◌, true, false, List, [], ◌∷◌, arith, if_intro, if◌then◌else◌}
use awa_platform.Exceptions.{Result, ok, raise, malformed_bid_event, ◌>>=◌}
use awa_platform.Bids.World.{World}
use awa_platform.Bids.Envelope.{Stdlib, Fields, parse_bid_envelope, read_envelope}
use awa_platform.Bids.Decide.{Driver, Envelope}
use awa_platform.Bids.Ledger.{IsLedger}
use awa_platform.Bids.Sound.{decide_bid-IsLedger}
use awa_platform.Bids.Cache.{IsBacked, decide_bid-IsBacked}
use awa_platform.Bids.Worker.{
  ConsumerApi, Message, decide_read, decide_fields, process, commits, stops, round, run_worker,
}
use awa_platform.Prelude.Lists.{All}
use awa_platform.Bids.Sound.{IsStorable}

-- What both invariants of the bids say of a world.
pub record IsSound (w : World) : Type 0 where
  pub ledger : IsLedger w.db
  pub backed : IsBacked w

-- The column `amount` either refuses the amount of an envelope or keeps it as it is.
abbrev pub IsKept : Driver → Result Envelope → Type 0
IsKept driver (ok env) = IsStorable driver env.amount
IsKept driver (raise e) = Unit

abbrev pub envelope_of_fields : {Bytes : Type 0} → Stdlib Bytes → Result Fields → Result Envelope
envelope_of_fields lib r = r >>= read_envelope lib

module _ {Bytes C : Type 0} (lib : Stdlib Bytes) (api : ConsumerApi C) (driver : Driver) where
  read-IsSound :
      (m : Message Bytes) (r : Result Envelope) (w : World)
      → IsKept driver r
      → IsSound w
      → IsSound (decide_read lib api driver m r w).1
  unfolding decide_read
  read-IsSound m (raise e) w k h = h
  read-IsSound m (ok env) w k h = record {
    ledger = decide_bid-IsLedger driver m.faults m.decided_at env m.partition m.offset w k h.ledger;
    backed = decide_bid-IsBacked driver m.faults m.decided_at env m.partition m.offset w k h.backed;
  }

  decide_fields-IsSound :
      (m : Message Bytes) (r : Result Fields) (w : World)
      → IsKept driver (envelope_of_fields lib r)
      → IsSound w
      → IsSound (decide_fields lib api driver m r w).1
  unfolding decide_fields
  decide_fields-IsSound m (raise e) w k h = h
  decide_fields-IsSound m (ok fields) w k h = read-IsSound m (read_envelope lib fields) w k h

  -- The envelope of the message, if it can be read, has an amount that the column refuses or keeps.
  abbrev pub HasKept : Message Bytes → Type 0
  HasKept m = IsKept driver (envelope_of_fields lib (parse_bid_envelope lib m.value))

  -- However the messages of the topic look otherwise, if the column `amount` refuses the amount of
  -- each or keeps it as it is, then whatever fails, and wherever a shutdown or a failing commit ends
  -- it, the worker's loop keeps the table of bids sound and the cache within it.
  pub run_worker-IsSound :
      (ms : List (Message Bytes)) (c : C) (w : World)
      → All HasKept ms
      → IsSound w
      → IsSound (run_worker lib api driver ms (c, w)).1
  unfolding run_worker
  run_worker-IsSound [] c w k h = h
  run_worker-IsSound (m ∷ ms) c w (k, ks) h =
      let next = decide_fields-IsSound m (parse_bid_envelope lib m.value) w k h in
      let (c', w') = round lib api driver m (c, w) in
      if_intro (λ (s : C × World). IsSound s.1) m.shutdown (api.deliver c m.partition m.offset, w)
        (if stops lib api driver m w
          then round lib api driver m (c, w)
          else run_worker lib api driver ms (round lib api driver m (c, w)))
        h
        (if_intro (λ (s : C × World). IsSound s.1) (stops lib api driver m w)
          (round lib api driver m (c, w))
          (run_worker lib api driver ms (round lib api driver m (c, w))) next
          (run_worker-IsSound ms c' w' ks next))

  -- A malformed message changes nothing but the offset, which is committed unless that raises: it is skipped for good.
  malformed_skipped :
      (m : Message Bytes) (c : C) (w : World)
      → parse_bid_envelope lib m.value ≡ raise malformed_bid_event
      → m.commit_fails ≡ false
      → ((round lib api driver m (c, w)).1 ≡ w)
        × (api.committed (round lib api driver m (c, w)).0 m.partition ≡ m.offset + 1)
  unfolding round decide_fields
  malformed_skipped m c w h sends =
      (rw h, rw (h, sends, api.committed_commit, api.position_deliver) (ground arith))

  -- A message whose processing raises anything else is not committed by its own round, but the
  -- round of a message at a later offset of the partition that succeeds after it, its commit included,
  -- commits past both.
  pub later_commit_passes_failed :
      (m n : Message Bytes) (c : C) (w : World)
      → m.partition ≡ n.partition
      → m.offset < n.offset
      → commits (process lib api driver m w).0 ≡ false
      → commits (process lib api driver n (process lib api driver m w).1).0 ≡ true
      → n.commit_fails ≡ false
      → let s = round lib api driver m (c, w) in
        (api.committed s.0 m.partition ≡ api.committed c m.partition)
        × (m.offset < api.committed (round lib api driver n s).0 m.partition)
  unfolding round
  later_commit_passes_failed m n c w same later failed succeeds sends = (
    rw (failed, api.committed_deliver),
    rw (succeeds, sends, same, api.committed_commit, api.position_deliver) (ground arith),
  )
