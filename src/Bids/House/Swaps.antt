-- ===== src/Bids/House/Swaps.antt =====
-- The prices do not depend on the order in which the bids are decided.
use mathlib.Core.Path.{fun_ext}
use awa_platform.Prelude.{
  ℕ, ◌≡◌, ◌≢◌, refl, sym, ap, ◌∙◌, Bool, ◌&&◌, ◌||◌, not, Option, none, some, List, [], ◌∷◌, ◌++◌,
  ◌==◌, ==_iff, arith, if◌then◌else◌, is_some, Bool-cases, inl, inr,
}
use awa_platform.Prelude.Int.{ℤ, pos, ltb_ℤ}
use awa_platform.Prelude.Lists.{All, any, find}
use awa_platform.Models.Auction.{Auction}
use awa_platform.Bids.World.{World}
use awa_platform.Bids.Decide.{Driver, highest}
use awa_platform.Bids.Ledger.{IsLedger}
use awa_platform.Bids.Replay.{Delivery, run}
use awa_platform.Bids.House.{
  House, Listed, is_of, raise_price, listed_auction, enters, entered, offer, offers, house_of,
  listed,
}
use awa_platform.Bids.House.Refines.{KeepsAmount, run-offers}

-- Two messages with different bid ids and different positions.
pub record AreDistinct (d e : Delivery) : Type 0 where
  pub ids : d.envelope.bid_id ≢ e.envelope.bid_id
  pub positions : d.partition ≡ e.partition → d.offset ≢ e.offset

raise_comm :
    (x y : ℤ) (o : Option Auction) (p : Option ℤ)
    → raise_price x o (raise_price y o p) ≡ raise_price y o (raise_price x o p)
raise_comm x y none p = refl
raise_comm x y (some a) none = ground arith
raise_comm x y (some a) (some h) = ground arith

not_used :
    (d e : Delivery) (h : House)
    → AreDistinct d e
    → (is_of e d.envelope.bid_id d.partition d.offset
        || h.used d.envelope.bid_id d.partition d.offset)
      ≡ h.used d.envelope.bid_id d.partition d.offset
not_used d e h ne = ground (arith, ne.ids, ne.positions)

or_comm : (a b c : Bool) → (a || (b || c)) ≡ (b || (a || c))
or_comm a b c = ground arith

-- The same for the prices, where two messages for one auction find the same auction.
price_comm :
    (a : ℕ) (d e : Delivery) (o q : Option Auction) (p : Option ℤ)
    → (a ≡ d.envelope.auction_id → a ≡ e.envelope.auction_id → o ≡ q)
    → (let p' = if a == e.envelope.auction_id then raise_price e.envelope.amount q p else p in
        if a == d.envelope.auction_id then raise_price d.envelope.amount o p' else p')
      ≡ (let p' = if a == d.envelope.auction_id then raise_price d.envelope.amount o p else p in
          if a == e.envelope.auction_id then raise_price e.envelope.amount q p' else p')
price_comm a d e o q p same = elim (Bool-cases (a == d.envelope.auction_id)) [
  | inl i ↦ elim (Bool-cases (a == e.envelope.auction_id)) [
    | inl j ↦
        let e' : o ≡ q =
          same ((==_iff a d.envelope.auction_id).0 i) ((==_iff a e.envelope.auction_id).0 j) in
        rw (i, j, e') (raise_comm d.envelope.amount e.envelope.amount q p)
    | inr j ↦ rw (i, j) refl
  ]
  | inr i ↦ rw i refl
]

-- Two guarded steps commute if neither changes the other's guard and the steps commute.
swap :
    (f g : House → Bool) (u v : House → House) (h : House)
    → f (v h) ≡ f h
    → g (u h) ≡ g h
    → u (v h) ≡ v (u h)
    → (let k = if g h then v h else h in if f k then u k else k)
      ≡ (let k = if f h then u h else h in if g k then v k else k)
swap f g u v h fv gu uv = elim (Bool-cases (f h)) [
  | inl i ↦ elim (Bool-cases (g h)) [
    | inl j ↦ rw (i, j, gu, j, fv, i) uv
    | inr j ↦ rw (i, j, i, gu, j) refl
  ]
  | inr i ↦ elim (Bool-cases (g h)) [ inl j ↦ rw (i, j, fv, i) refl | inr j ↦ rw (i, j, i) refl ]
]

module _ (l : Listed) where
  -- Whether a message enters does not depend on another one that has entered.
  enters-entered :
      (d e : Delivery) (h : House) → AreDistinct d e → enters l d (entered l e h) ≡ enters l d h
  enters-entered d e h ne =
      ap
        (λ b.
          is_some (listed_auction l d)
          && (any (λ u. u.id == d.envelope.bidder_id) l.users
              && (ltb_ℤ (pos 0) d.envelope.amount && not b)))
        (not_used d e h ne)

  entered_comm :
      (d e : Delivery) (h : House) → entered l d (entered l e h) ≡ entered l e (entered l d h)
  entered_comm d e h =
      ap (λ (u : ℕ → ℕ → ℕ → Bool). record (entered l d (entered l e h)) { used = u })
        (fun_ext
          λ i. fun_ext λ p. fun_ext λ o. or_comm (is_of d i p o) (is_of e i p o) (h.used i p o))
      ∙ ap (λ (f : ℕ → Option ℤ). record (entered l e (entered l d h)) { price = f })
          (fun_ext λ a.
            price_comm a d e (listed_auction l d) (listed_auction l e) (h.price a)
              (λ i j. ap (λ (k : ℕ). find (λ (r : Auction). r.id == k) l.auctions) (sym i ∙ j)))

  -- Two neighbouring messages that are distinct can be taken in either order.
  offer_comm :
      (d e : Delivery) (h : House)
      → AreDistinct d e
      → AreDistinct e d
      → offer l d (offer l e h) ≡ offer l e (offer l d h)
  unfolding offer
  offer_comm d e h ne en =
      swap (enters l d) (enters l e) (entered l d) (entered l e) h (enters-entered d e h ne)
        (enters-entered e d h en) (entered_comm d e h)

  offers-append :
      (ds es : List Delivery) (h : House) → offers l (ds ++ es) h ≡ offers l es (offers l ds h)
  unfolding offers
  offers-append [] es h = refl
  offers-append (d ∷ ds) es h = offers-append ds es (offer l d h)

  offers-swap :
      (ds : List Delivery) (d e : Delivery) (es : List Delivery) (h : House)
      → AreDistinct d e
      → AreDistinct e d
      → offers l (ds ++ (d ∷ e ∷ es)) h ≡ offers l (ds ++ (e ∷ d ∷ es)) h
  unfolding offers
  offers-swap ds d e es h ne en =
      offers-append ds (d ∷ e ∷ es) h
      ∙ ap (offers l es) (sym (offer_comm d e (offers l ds h) ne en))
      ∙ sym (offers-append ds (e ∷ d ∷ es) h)

All-swap :
    {A : Type 0} (P : A → Type 0) (xs : List A) (x y : A) (ys : List A)
    → All P (xs ++ (x ∷ y ∷ ys))
    → All P (xs ++ (y ∷ x ∷ ys))
All-swap P [] x y ys (h, (k, rest)) = (k, (h, rest))
All-swap P (z ∷ xs) x y ys (h, rest) = (h, All-swap P xs x y ys rest)

-- Whoever is served first: if two neighbouring messages that are distinct had come in the other
-- order, every auction would stand at the same price after all messages, whatever the faults, where
-- the column takes all amounts and keeps them as they are. Which bids are accepted on the way may
-- differ.
pub swap_same_price :
    (driver : Driver) (ds : List Delivery) (d e : Delivery) (es : List Delivery) (w : World) (a : ℕ)
    → All (KeepsAmount driver) (ds ++ (d ∷ e ∷ es))
    → IsLedger w.db
    → d.envelope.bid_id ≢ e.envelope.bid_id
    → (d.partition ≡ e.partition → d.offset ≢ e.offset)
    → highest a (run driver (ds ++ (d ∷ e ∷ es)) w).db.bids
      ≡ highest a (run driver (ds ++ (e ∷ d ∷ es)) w).db.bids
swap_same_price driver ds d e es w a kept h ids positions =
    ap (λ (x : House). x.price a)
      (run-offers driver (ds ++ (d ∷ e ∷ es)) w kept h
        ∙ offers-swap (listed w) ds d e es (house_of w)
            (record { ids = ids; positions = positions })
            (record { ids = λ i. ids (sym i); positions = λ p o. positions (sym p) (sym o) })
        ∙ sym (
            run-offers driver (ds ++ (e ∷ d ∷ es)) w (All-swap (KeepsAmount driver) ds d e es kept)
              h))
