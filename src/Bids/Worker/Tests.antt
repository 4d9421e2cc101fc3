-- ===== src/Bids/Worker/Tests.antt =====
-- Runs of the worker on concrete messages.
use awa_platform.Prelude.{
  ℕ, ◌+◌, ◌≡◌, refl, true, false, Option, none, some, [], ◌∷◌, ◌<◌, ◌==◌, arith, if◌then◌else◌,
}
use awa_platform.Prelude.Int.{pos}
use awa_platform.Prelude.Dict.{lookup, insert}
use awa_platform.Exceptions.{ok, raise, value_error}
use awa_platform.Models.Auction.{insertable}
use awa_platform.Bids.World.{
  Faults, bid_arbitration, try_accept_bid, publish_bid_update, publish_result,
}
use awa_platform.Bids.Decide.{highest, verdict, announce, record_bid, flush_bid, decide_bid}
use awa_platform.Bids.Verdict.{no_faults}
use awa_platform.Bids.Envelope.{
  Json, int, string, object, end, field, Loaded, loaded, json_decode_error, Number, number,
  bad_type, Stdlib, member, missing, check_uuids, check_object, check_loaded, parse_bid_envelope,
  get, check_amount, read_envelope, read_amount,
}
use awa_platform.Bids.Worker.{
  ConsumerApi, Message, decide_read, decide_fields, process, commits, stops, round, run_worker,
}
use awa_platform.Bids.Worker.Offsets.{IsSound, run_worker-IsSound, later_commit_passes_failed}
use awa_platform.Bids.Sound.{exact-IsStorable}
use awa_platform.Bids.Tests.{server, start, start-IsLedger, start-IsBacked}
use awa_platform.Bids.Worker.Progress.{one_success_commits-All}
use awa_platform.Prelude.Lists.{All}

-- The amount of a number is read, and nothing else is.
abbrev decimal_of : Json → Number
decimal_of (int x) = number x
decimal_of _ = bad_type

abbrev uuid_of : Json → Option ℕ
uuid_of (int (pos n)) = some n
uuid_of _ = none

abbrev python : Stdlib Loaded
python = record {
  loads = λ x. x;
  decimal = decimal_of;
  uuid_of_str = uuid_of;
  uuid = λ v. elim (uuid_of v) [ none ↦ raise value_error | some n ↦ ok n ];
}

abbrev Offsets : Type 0
Offsets = (ℕ → ℕ) × (ℕ → ℕ)

abbrev consumer : ConsumerApi Offsets
consumer = record {
  position = λ c. c.0;
  committed = λ c. c.1;
  deliver = λ c p o. ((λ q. if q == p then o + 1 else c.0 q), c.1);
  commit = λ c. (c.0, c.0);
  failed_commit = λ c. c;
  position_deliver = λ c p o q. refl;
  committed_deliver = λ c p o q. refl;
  position_commit = λ c q. refl;
  committed_commit = λ c q. refl;
}

abbrev fresh : Offsets
fresh = ((λ q. 0), (λ q. 0))

abbrev sent : ℕ → ℕ → Loaded
sent id amount = loaded (
    object (
      field "bid_id" (int (pos id)) (
        field "auction_id" (int (pos 7)) (
          field "bidder_id" (int (pos 3))
            (field "amount" (int (pos amount)) (field "submitted_at" (string "") end))))))

abbrev message : Loaded → ℕ → Faults → Message Loaded
message value offset faults = record {
  value = value;
  partition = 0;
  offset = offset;
  faults = faults;
  decided_at = 9;
  shutdown = false;
  commit_fails = false;
}

abbrev redis_down : Faults
redis_down = record {
  eval_fails = true;
  eval_runs = false;
  publish_fails = true;
  publish_runs = false;
  kafka_fails = false;
  kafka_runs = false;
}

run_worker-IsSound_example :
    IsSound
      (run_worker python consumer
        (server none)
        (message (sent 1 150) 4 no_faults ∷ message json_decode_error 5 no_faults ∷ [])
        (fresh, start)).1
unfolding parse_bid_envelope read_envelope check_loaded check_object check_uuids check_amount get
    member missing read_amount
run_worker-IsSound_example =
    run_worker-IsSound python consumer (server none)
      (message (sent 1 150) 4 no_faults ∷ message json_decode_error 5 no_faults ∷ []) fresh start
      (exact-IsStorable (server none) (pos 150) refl, (tt, tt))
      (record { ledger = start-IsLedger; backed = start-IsBacked })

later_commit_passes_failed_example :
    let m = message (sent 1 150) 4 redis_down in
    let n = message (sent 2 180) 5 no_faults in
    let s = round python consumer (server none) m (fresh, start) in
    (s.0.1 0 ≡ 0) × (4 < (round python consumer (server none) n s).0.1 0)
unfolding process commits stops decide_fields decide_read parse_bid_envelope read_envelope
    check_loaded check_object check_uuids check_amount get member missing read_amount decide_bid
    flush_bid record_bid verdict highest insertable announce try_accept_bid publish_bid_update
    publish_result bid_arbitration lookup insert
later_commit_passes_failed_example =
    later_commit_passes_failed python consumer (server none) (message (sent 1 150) 4 redis_down)
      (message (sent 2 180) 5 no_faults) fresh start refl (omega arith) refl refl refl

-- The first message fails at Redis, the second one succeeds.
one_success_commits-All_example :
    let ms = message (sent 1 150) 4 redis_down ∷ message (sent 2 180) 5 no_faults ∷ [] in
    let c' = (run_worker python consumer (server none) ms (fresh, start)).0 in
    All (λ (n : Message Loaded). n.offset < c'.1 n.partition) ms
unfolding process commits stops decide_fields decide_read parse_bid_envelope read_envelope
    check_loaded check_object check_uuids check_amount get member missing read_amount decide_bid
    flush_bid record_bid verdict highest insertable announce try_accept_bid publish_bid_update
    publish_result bid_arbitration lookup insert round run_worker
one_success_commits-All_example =
    one_success_commits-All python consumer (server none) (message (sent 1 150) 4 redis_down ∷ [])
      (message (sent 2 180) 5 no_faults) fresh start ((refl, refl), tt) (refl, refl)
      (((λ e. omega arith), tt), (tt, tt)) refl
