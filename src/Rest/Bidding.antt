-- ===== src/Rest/Bidding.antt =====
-- api/v1/auctions.py: an auction, and the submission of a bid.
use awa_platform.Prelude.{ℕ}
use awa_platform.Prelude.Int.{ℤ}
use awa_platform.Exceptions.{
  Exception, Result, ok, raise, auction_not_found_error, auction_not_live_error,
  bid_not_eligible_error, bid_publish_error,
}
use awa_platform.Models.Auction.{Auction}
use awa_platform.Models.User.{User}
use awa_platform.Session.{Db}
use awa_platform.Roles.{Collation}
use awa_platform.Api.{Reply, reply, http_exception, unhandled}
use awa_platform.Bids.Envelope.{Stdlib}
use awa_platform.Bids.Submit.{Printer, BidAccepted, Submission, Topic, get_auction, submit_bid}

abbrev pub not_found_error : {A : Type 0} → Exception → Reply A
not_found_error (auction_not_found_error auction_id) = http_exception 404
not_found_error e = unhandled e

abbrev pub bid_error : {A : Type 0} → Exception → Reply A
bid_error (auction_not_found_error auction_id) = http_exception 404
bid_error (auction_not_live_error auction_id status) = http_exception 409
bid_error (bid_not_eligible_error reason) = http_exception 403
bid_error bid_publish_error = http_exception 503
bid_error e = unhandled e

abbrev pub reply_or : {A : Type 0} → (Exception → Reply A) → Result A → Reply A
reply_or handler (ok a) = reply a
reply_or handler (raise e) = handler e

unfoldable pub get_auction_endpoint : ℕ → Db → Reply Auction
get_auction_endpoint auction_id db = reply_or not_found_error (get_auction auction_id db)

module _ {Bytes : Type 0} (lib : Stdlib Bytes) (out : Printer lib) where
  -- The body, for the user that the dependency `get_current_local_user` has returned, or its answer.
  unfoldable pub submit_bid_endpoint :
      Collation
      → Submission
      → Db
      → (auction_id : ℕ) → Reply User
      → ℤ
      → Topic lib out
      → Reply BidAccepted × Topic lib out
  submit_bid_endpoint col sub db auction_id (reply user) amount topic =
      let (r, topic') = submit_bid lib out col sub db auction_id user amount topic in
      (reply_or bid_error r, topic')
  submit_bid_endpoint col sub db auction_id (http_exception status) amount topic =
      (http_exception status, topic)
  submit_bid_endpoint col sub db auction_id (unhandled e) amount topic = (unhandled e, topic)
