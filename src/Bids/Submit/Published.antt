-- ===== src/Bids/Submit/Published.antt =====
-- What a submission puts on the topic, and how the worker reads it.
use awa_platform.Prelude.{
  ℕ, String, ◌≡◌, refl, ap, ◌∙◌, true, Option, none, some, List, ◌∷◌, str_eq, arith,
}
use awa_platform.Prelude.Int.{ℤ}
use awa_platform.Exceptions.{Result, ok, raise, ◌>>=◌}
use awa_platform.Models.Auction.{Auction}
use awa_platform.Models.User.{User}
use awa_platform.Session.{Db}
use awa_platform.Roles.{Collation, meets, get_user_roles, role_names}
use awa_platform.Bids.World.{World}
use awa_platform.Bids.Decide.{Driver, Envelope, find_auction, decide_bid}
use awa_platform.Bids.Envelope.{
  Fields, Stdlib, check_amount, check_uuids, check_object, check_loaded, parse_bid_envelope,
  read_amount, read_envelope, get, member, missing,
}
use awa_platform.Bids.Worker.{ConsumerApi, Message, decide_read, decide_fields, process}
use awa_platform.Bids.Submit.{
  or_not_found, or_not_live, Printer, BidAccepted, Submission, envelope_of, get_auction,
  get_live_auction, required_bid_roles, publish_bid, validate_bid_eligibility, submit_checked,
  submit_bid,
}

module _ {Bytes : Type 0} (lib : Stdlib Bytes) (out : Printer lib) where
  -- The worker accepts the envelope as well-formed.
  pub parse-envelope :
      (sub : Submission) (auction_id bidder_id : ℕ) (amount : ℤ)
      → let fields = envelope_of lib out sub auction_id bidder_id amount in
        parse_bid_envelope lib (out.dumps fields) ≡ ok fields
  unfolding parse_bid_envelope check_loaded check_object check_uuids check_amount missing member get
  parse-envelope sub auction_id bidder_id amount =
      simp (out.loads-dumps, out.decimal-str, out.uuid_of_str-str)

  -- It reads the numbers that the endpoint has written.
  pub read-envelope :
      (sub : Submission) (auction_id bidder_id : ℕ) (amount : ℤ)
      → read_envelope lib (envelope_of lib out sub auction_id bidder_id amount)
        ≡ ok (record {
          bid_id = sub.bid_id;
          auction_id = auction_id;
          bidder_id = bidder_id;
          amount = amount;
        })
  unfolding read_envelope get member read_amount
  read-envelope sub auction_id bidder_id amount = simp (out.uuid-str, out.decimal-str)

  module _ {C : Type 0} (api : ConsumerApi C) (driver : Driver) where
    decide_read_fields :
        (m : Message Bytes) (fields : Fields) (env : Envelope) (w : World)
        → read_envelope lib fields ≡ ok env
        → decide_fields lib api driver m (ok fields) w
          ≡ decide_bid driver m.faults m.decided_at env m.partition m.offset w
    unfolding decide_fields decide_read
    decide_read_fields m fields env w h = ap (λ r. decide_read lib api driver m r w) h

    -- A message with a submitted envelope is decided as the bid that was submitted.
    pub process-envelope :
        (sub : Submission) (auction_id bidder_id : ℕ) (amount : ℤ) (m : Message Bytes) (w : World)
        → m.value ≡ out.dumps (envelope_of lib out sub auction_id bidder_id amount)
        → process lib api driver m w
          ≡ decide_bid driver m.faults m.decided_at
              (record {
                bid_id = sub.bid_id;
                auction_id = auction_id;
                bidder_id = bidder_id;
                amount = amount;
              })
              m.partition
              m.offset
              w
    unfolding process
    process-envelope sub auction_id bidder_id amount m w h =
        let fields = envelope_of lib out sub auction_id bidder_id amount in
        ap (λ r. decide_fields lib api driver m r w)
          (ap (λ v. parse_bid_envelope lib v) h ∙ parse-envelope sub auction_id bidder_id amount)
        ∙ decide_read_fields m fields _ w (read-envelope sub auction_id bidder_id amount)

  -- What an accepted submission has checked and written.
  unfoldable pub IsPublished :
      Collation
      → Submission
      → Db
      → ℕ
      → User
      → ℤ
      → List (String × Bytes)
      → List (String × Bytes)
      → Type 0
  IsPublished col sub db auction_id user amount topic topic' =
      ((auction : Auction) × (find_auction auction_id db ≡ some auction)
        × (str_eq auction.status "live" ≡ true))
      × (meets (role_names (get_user_roles col user.id db)) required_bid_roles ≡ true)
      × (topic'
          ≡ (out.str_uuid auction_id, out.dumps (envelope_of lib out sub auction_id user.id amount))
            ∷ topic)

  then_ok :
      (r : Result Auction) (k : Result (Unit {0}))
      → (r >>= λ a. k) ≡ ok tt
      → ((a : Auction) × (r ≡ ok a)) × (k ≡ ok tt)
  then_ok (ok a) k h = ((a, refl), h)
  then_ok (raise e) k h = absurd (cc)

  found_live :
      (id : ℕ) (o : Option Auction) (a : Auction)
      → (or_not_found id o >>= or_not_live id) ≡ ok a
      → (o ≡ some a) × (str_eq a.status "live" ≡ true)
  found_live id none a h = absurd (cc)
  found_live id (some b) a h = ground arith

  eligible :
      (names : List String)
      → validate_bid_eligibility names ≡ ok tt
      → meets names required_bid_roles ≡ true
  unfolding validate_bid_eligibility
  eligible names h = ground arith

  published_ok :
      (sub : Submission) (auction_id bidder_id : ℕ) (amount : ℤ) (topic : List (String × Bytes))
      (acc : BidAccepted)
      → (publish_bid lib out sub auction_id bidder_id amount topic).0 ≡ ok acc
      → (publish_bid lib out sub auction_id bidder_id amount topic).1
        ≡ (out.str_uuid auction_id, out.dumps (envelope_of lib out sub auction_id bidder_id amount))
          ∷ topic
  unfolding publish_bid
  published_ok sub auction_id bidder_id amount topic acc h = ground arith

  checked_ok :
      (r : Result (Unit {0})) (sub : Submission) (auction_id bidder_id : ℕ) (amount : ℤ)
      (topic : List (String × Bytes)) (acc : BidAccepted)
      → (submit_checked lib out r sub auction_id bidder_id amount topic).0 ≡ ok acc
      → (r ≡ ok tt)
        × ((submit_checked lib out r sub auction_id bidder_id amount topic).1
            ≡ (
              out.str_uuid auction_id,
              out.dumps (envelope_of lib out sub auction_id bidder_id amount),
            )
              ∷ topic)
  unfolding submit_checked
  checked_ok (raise e) sub auction_id bidder_id amount topic acc h = absurd (cc)
  checked_ok (ok u) sub auction_id bidder_id amount topic acc h =
      (refl, published_ok sub auction_id bidder_id amount topic acc h)

  -- A submission that returns was for an auction that is live, by a user who holds a role that may
  -- bid, and it has put one message on the topic, whose key is the auction.
  pub submit_bid-IsPublished :
      (col : Collation) (sub : Submission) (db : Db) (auction_id : ℕ) (user : User) (amount : ℤ)
      (topic : List (String × Bytes)) (acc : BidAccepted)
      → (submit_bid lib out col sub db auction_id user amount topic).0 ≡ ok acc
      → IsPublished col sub db auction_id user amount topic
          (submit_bid lib out col sub db auction_id user amount topic).1
  unfolding submit_bid get_live_auction get_auction IsPublished
  submit_bid-IsPublished col sub db auction_id user amount topic acc h =
      let names = role_names (get_user_roles col user.id db) in
      let (r_ok, written) =
        checked_ok (get_live_auction auction_id db >>= λ a. validate_bid_eligibility names) sub
          auction_id user.id amount topic acc h in
      let ((a, live), may) =
        then_ok (get_live_auction auction_id db) (validate_bid_eligibility names) r_ok in
      let (found, is_live) = found_live auction_id (find_auction auction_id db) a live in
      ((a, found, is_live), eligible names may, written)
