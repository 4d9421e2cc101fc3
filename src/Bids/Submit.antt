-- ===== src/Bids/Submit.antt =====
-- services/auction_service.py, and bid_service.submit_bid with its eligibility check: what the
-- REST endpoint does with a bid before the worker decides it.
pub mod Published
pub mod Tests
use awa_platform.Prelude.{
  ℕ, String, ◌≡◌, Bool, Option, none, some, List, [], ◌∷◌, if◌then◌else◌, str_eq,
}
use awa_platform.Prelude.Int.{ℤ}
use awa_platform.Exceptions.{
  Result, ok, raise, auction_not_found_error, auction_not_live_error, bid_not_eligible_error,
  bid_publish_error, ◌>>=◌,
}
use awa_platform.Models.Auction.{Auction}
use awa_platform.Models.User.{User}
use awa_platform.Session.{Db}
use awa_platform.Roles.{Collation, meets, get_user_roles, role_names}
use awa_platform.Bids.Decide.{find_auction}
use awa_platform.Bids.Envelope.{Fields, end, field, string, object, loaded, number, Stdlib}

-- How the values are written, with the round trips through json, uuid and decimal.
pub record Printer {Bytes : Type 0} (lib : Stdlib Bytes) : Type 0 where
  pub dumps : Fields → Bytes
  pub str_uuid : ℕ → String
  pub str_decimal : ℤ → String
  pub isoformat : ℕ → String
  pub loads-dumps : (fields : Fields) → lib.loads (dumps fields) ≡ loaded (object fields)
  pub uuid-str : (n : ℕ) → lib.uuid (string (str_uuid n)) ≡ ok n
  pub uuid_of_str-str : (n : ℕ) → lib.uuid_of_str (string (str_uuid n)) ≡ some n
  pub decimal-str : (x : ℤ) → lib.decimal (string (str_decimal x)) ≡ number x

abbrev pub or_not_found : ℕ → Option Auction → Result Auction
or_not_found auction_id none = raise (auction_not_found_error auction_id)
or_not_found auction_id (some auction) = ok auction

unfoldable pub get_auction : ℕ → Db → Result Auction
get_auction auction_id db = or_not_found auction_id (find_auction auction_id db)

abbrev pub or_not_live : ℕ → Auction → Result Auction
or_not_live auction_id auction =
    if str_eq auction.status "live"
    then ok auction
    else raise (auction_not_live_error auction_id auction.status)

unfoldable pub get_live_auction : ℕ → Db → Result Auction
unfolding get_auction
get_live_auction auction_id db = get_auction auction_id db >>= or_not_live auction_id

abbrev pub required_bid_roles : List String
required_bid_roles = "Buyer" ∷ "AuctionsHead" ∷ []

unfoldable pub validate_bid_eligibility : List String → Result (Unit {0})
validate_bid_eligibility names =
    if meets names required_bid_roles
    then ok tt
    else raise (bid_not_eligible_error "Only Buyer or AuctionsHead roles may place bids (BRD R088)")

pub record BidAccepted : Type 0 where
  pub bid_id : ℕ
  pub auction_id : ℕ
  pub submitted_at : ℕ

-- The new bid id, the clock, whether `publish_event` raises, and if so whether the broker has
-- appended the message all the same.
pub record Submission : Type 0 where
  pub bid_id : ℕ
  pub submitted_at : ℕ
  pub kafka_fails : Bool
  pub appended : Bool

module _ {Bytes : Type 0} (lib : Stdlib Bytes) (out : Printer lib) where
  -- The messages of the bids topic with their keys, newest first.
  abbrev pub Topic : Type 0
  Topic = List (String × Bytes)

  abbrev pub envelope_of : Submission → (auction_id bidder_id : ℕ) → ℤ → Fields
  envelope_of sub auction_id bidder_id amount = field "bid_id" (string (out.str_uuid sub.bid_id)) (
      field "auction_id" (string (out.str_uuid auction_id)) (
        field "bidder_id" (string (out.str_uuid bidder_id)) (
          field "amount" (string (out.str_decimal amount))
            (field "submitted_at" (string (out.isoformat sub.submitted_at)) end))))

  -- The key is the auction, for the order within its partition.
  abbrev pub message_of : Submission → (auction_id bidder_id : ℕ) → ℤ → String × Bytes
  message_of sub auction_id bidder_id amount =
      (out.str_uuid auction_id, out.dumps (envelope_of sub auction_id bidder_id amount))

  unfoldable pub publish_bid :
      Submission → (auction_id bidder_id : ℕ) → ℤ → Topic → Result BidAccepted × Topic
  publish_bid sub auction_id bidder_id amount topic =
      let written = message_of sub auction_id bidder_id amount ∷ topic in
      if sub.kafka_fails
      then (raise bid_publish_error, if sub.appended then written else topic)
      else (
        ok (record {
          bid_id = sub.bid_id;
          auction_id = auction_id;
          submitted_at = sub.submitted_at;
        }),
        written,
      )

  unfoldable pub submit_checked :
      Result (Unit {0})
      → Submission
      → (auction_id bidder_id : ℕ) → ℤ
      → Topic
      → Result BidAccepted × Topic
  submit_checked (raise e) sub auction_id bidder_id amount topic = (raise e, topic)
  submit_checked (ok u) sub auction_id bidder_id amount topic =
      publish_bid sub auction_id bidder_id amount topic

  unfoldable pub submit_bid :
      Collation → Submission → Db → (auction_id : ℕ) → User → ℤ → Topic → Result BidAccepted × Topic
  unfolding submit_checked
  submit_bid col sub db auction_id user amount topic =
      submit_checked
        (get_live_auction auction_id db >>= λ auction.
          validate_bid_eligibility (role_names (get_user_roles col user.id db)))
        sub auction_id user.id amount topic
