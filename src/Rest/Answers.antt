-- ===== src/Rest/Answers.antt =====
-- Every submission of a bid is answered.
use awa_platform.Prelude.{
  ℕ, String, ◌≡◌, refl, true, Option, none, some, List, ◌∷◌, str_eq, if_split, if◌then◌else◌, false,
  Bool-cases, inl, inr,
}
use awa_platform.Prelude.Int.{ℤ}
use awa_platform.Exceptions.{Result, ok, raise, ◌>>=◌, bid_publish_error}
use awa_platform.Models.Auction.{Auction}
use awa_platform.Models.User.{User}
use awa_platform.Session.{Db}
use awa_platform.Roles.{Collation, meets, get_user_roles, role_names}
use awa_platform.Api.{Reply, reply, http_exception}
use awa_platform.Bids.Decide.{find_auction}
use awa_platform.Bids.Envelope.{Stdlib}
use awa_platform.Bids.Submit.{
  Printer, BidAccepted, Submission, Topic, message_of, publish_bid, submit_checked, submit_bid,
  or_not_found, or_not_live, get_auction, get_live_auction, validate_bid_eligibility,
  required_bid_roles,
}
use awa_platform.Rest.Bidding.{bid_error, reply_or, submit_bid_endpoint}

module _ {Bytes : Type 0} (lib : Stdlib Bytes) (out : Printer lib) (col : Collation)
    (sub : Submission) (db : Db) (auction_id : ℕ) (user : User) (amount : ℤ)
    (topic : Topic lib out) where
  abbrev names : List String
  names = role_names (get_user_roles col user.id db)

  -- There is a live auction, and the user holds a role that may bid.
  abbrev pub MayBid : Type 0
  MayBid =
      ((a : Auction) × (find_auction auction_id db ≡ some a) × (str_eq a.status "live" ≡ true))
      × (meets names required_bid_roles ≡ true)

  abbrev message : String × Bytes
  message = message_of lib out sub auction_id user.id amount

  -- The answer and the topic, with what each answer says of the request.
  pub data Answered : Reply BidAccepted × Topic lib out → Type 0 where
    not_found : find_auction auction_id db ≡ none → Answered (http_exception 404, topic)
    not_live :
        (a : Auction)
        → find_auction auction_id db ≡ some a
        → str_eq a.status "live" ≡ false
        → Answered (http_exception 409, topic)
    not_eligible :
        (a : Auction)
        → find_auction auction_id db ≡ some a
        → str_eq a.status "live" ≡ true
        → meets names required_bid_roles ≡ false
        → Answered (http_exception 403, topic)
    not_confirmed :
        MayBid
        → sub.kafka_fails ≡ true
        → sub.appended ≡ false
        → Answered (http_exception 503, topic)
    appended_unconfirmed :
        MayBid
        → sub.kafka_fails ≡ true
        → sub.appended ≡ true
        → Answered (http_exception 503, message ∷ topic)
    accepted_bid :
        MayBid
        → sub.kafka_fails ≡ false
        → Answered (
          reply (record {
            bid_id = sub.bid_id;
            auction_id = auction_id;
            submitted_at = sub.submitted_at;
          }),
          message ∷ topic,
        )

  abbrev replied : Result BidAccepted × Topic lib out → Reply BidAccepted × Topic lib out
  replied (r, t) = (reply_or bid_error r, t)

  abbrev checked : Result (Unit {0}) → Reply BidAccepted × Topic lib out
  checked r = replied (submit_checked lib out r sub auction_id user.id amount topic)

  published : MayBid → Answered (replied (publish_bid lib out sub auction_id user.id amount topic))
  unfolding publish_bid
  published may =
      if_split (λ p. Answered (replied p)) sub.kafka_fails
        (raise bid_publish_error, if sub.appended then message ∷ topic else topic)
        (
          ok (record {
            bid_id = sub.bid_id;
            auction_id = auction_id;
            submitted_at = sub.submitted_at;
          }),
          message ∷ topic,
        )
        (λ f.
          if_split (λ t. Answered (http_exception 503, t)) sub.appended (message ∷ topic) topic
            (λ a. appended_unconfirmed may f a) (λ a. not_confirmed may f a))
        (λ f. accepted_bid may f)

  eligible-Answered :
      (a : Auction)
      → find_auction auction_id db ≡ some a
      → str_eq a.status "live" ≡ true
      → Answered (checked (validate_bid_eligibility names))
  unfolding validate_bid_eligibility submit_checked
  eligible-Answered a found live = elim (Bool-cases (meets names required_bid_roles)) [
    | inl e ↦ rw e (published ((a, found, live), e))
    | inr e ↦ rw e (not_eligible a found live e)
  ]

  found-Answered :
      (o : Option Auction)
      → find_auction auction_id db ≡ o
      → Answered (
          checked (
            (or_not_found auction_id o >>= or_not_live auction_id) >>= λ a.
            validate_bid_eligibility names))
  unfolding submit_checked
  found-Answered none e = not_found e
  found-Answered (some a) e = elim (Bool-cases (str_eq a.status "live")) [
    | inl l ↦ rw l (eligible-Answered a e l)
    | inr l ↦ rw l (not_live a e l)
  ]

  -- For a user, a submission is answered with 404 if there is no such auction, with 409 if it is not
  -- live, with 403 if the user has no role that may bid, with 503 if Kafka's client raises, and is
  -- accepted otherwise. The topic has the message of this bid, under the auction's key, if the bid is
  -- accepted, may have it after a 503, and is as before in all other cases.
  pub submit_bid-Answered :
      Answered (submit_bid_endpoint lib out col sub db auction_id (reply user) amount topic)
  unfolding submit_bid_endpoint submit_bid get_live_auction get_auction
  submit_bid-Answered = found-Answered (find_auction auction_id db) refl
