-- ===== src/Bids/House.antt =====
-- What an auction house promises: an abstract view of the bids that forgets rows, order and
-- positions, with one step for each message. It says which bids raise the price of an auction, and
-- is independent of how services/bid_service.decide_bid keeps its rows.
pub mod Refines
pub mod Swaps
mod Tests
use awa_platform.Prelude.{
  ℕ, Bool, ◌&&◌, ◌||◌, not, Option, none, some, List, [], ◌∷◌, ◌==◌, if◌then◌else◌, is_some, str_eq,
}
use awa_platform.Prelude.Int.{ℤ, pos, ltb_ℤ}
use awa_platform.Prelude.Lists.{find, any}
use awa_platform.Models.Auction.{Auction, Bid, same}
use awa_platform.Models.User.{User}
use awa_platform.Bids.Decide.{highest}
use awa_platform.Bids.World.{World}
use awa_platform.Bids.Replay.{Delivery}

-- Which bid ids and positions have been used, and the price that each auction stands at.
pub record House : Type 0 where
  pub used : (id partition offset : ℕ) → Bool
  pub price : ℕ → Option ℤ

-- The auctions and the bidders do not change while bids are decided.
pub record Listed : Type 0 where
  pub auctions : List Auction
  pub users : List User

-- The id or the position is that of the message.
abbrev pub is_of : Delivery → (id partition offset : ℕ) → Bool
is_of d id partition offset =
    d.envelope.bid_id == id || (partition == d.partition && offset == d.offset)

-- A first bid has to be above the starting price, a later one above the price.
abbrev pub outbids : ℤ → (start : ℤ) → Option ℤ → Bool
outbids x start none = ltb_ℤ start x
outbids x start (some h) = ltb_ℤ h x

abbrev pub raise_price : ℤ → Option Auction → Option ℤ → Option ℤ
raise_price x none price = price
raise_price x (some auction) price =
    if str_eq auction.status "live" && outbids x auction.starting_price price then some x else price

abbrev pub listed_auction : Listed → Delivery → Option Auction
listed_auction l d = find (λ (a : Auction). a.id == d.envelope.auction_id) l.auctions

-- The house enters a bid of a known bidder for a known auction, of a positive amount, and once.
abbrev pub enters : Listed → Delivery → House → Bool
enters l d h =
    is_some (listed_auction l d)
    && (any (λ (u : User). u.id == d.envelope.bidder_id) l.users
        && (ltb_ℤ (pos 0) d.envelope.amount && not (h.used d.envelope.bid_id d.partition d.offset)))

abbrev pub entered : Listed → Delivery → House → House
entered l d h = record {
  used = λ id partition offset. is_of d id partition offset || h.used id partition offset;
  price = λ a.
      if a == d.envelope.auction_id
      then raise_price d.envelope.amount (listed_auction l d) (h.price a)
      else h.price a;
}

unfoldable pub offer : Listed → Delivery → House → House
offer l d h = if enters l d h then entered l d h else h

unfoldable pub offers : Listed → List Delivery → House → House
offers l [] h = h
offers l (d ∷ ds) h = offers l ds (offer l d h)

-- The house that a world stands for.
abbrev pub house_of : World → House
house_of w = record {
  used = λ id partition offset.
      any
        (λ (r : Bid).
          r.id == id
          || (same (some partition) r.kafka_partition && same (some offset) r.kafka_offset))
        w.db.bids;
  price = λ a. highest a w.db.bids;
}

abbrev pub listed : World → Listed
listed w = record { auctions = w.db.auctions; users = w.db.users }
