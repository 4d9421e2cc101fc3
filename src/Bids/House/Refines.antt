-- ===== src/Bids/House/Refines.antt =====
-- The decisions about a sequence of messages are a run of the auction house.
use mathlib.Core.Path.{fun_ext}
use awa_platform.Prelude.{
  ℕ, ◌≡◌, refl, sym, ap, subst, ◌∙◌, Bool, true, false, Option, none, some, List, [], ◌∷◌, ◌==◌,
  arith, if◌then◌else◌, Bool-cases, if_intro, ==_iff, Option-cases, inl, inr,
}
use awa_platform.Prelude.Int.{ℤ, pos, ◌<ℤ◌}
use awa_platform.Prelude.Lists.{All}
use awa_platform.Models.Auction.{Auction, Bid, is_accepted, insertable}
use awa_platform.Session.{Db}
use awa_platform.Bids.World.{World}
use awa_platform.Bids.Decide.{Driver, max_amount, highest, verdict, find_auction, takes_row}
use awa_platform.Bids.Ledger.{IsLedger, IsPositive, highest_positive}
use awa_platform.Bids.Sound.{IsExact, exact-IsStorable, db-decide_bid, decide_bid-IsLedger}
use awa_platform.Bids.Replay.{Delivery, row_of, step, run}
use awa_platform.Bids.House.{House, raise_price, enters, entered, offer, offers, house_of, listed}

-- The price that a new row leaves, at its own auction.
raised :
    (id : ℕ) (o : Option Auction) (x : ℤ) (bids : List Bid)
    → IsPositive bids
    → (if is_accepted (verdict id o x bids).0
        then some (max_amount x (highest id bids))
        else highest id bids)
      ≡ raise_price x o (highest id bids)
unfolding verdict
raised id none x bids p = refl
raised id (some a) x bids p = elim (Option-cases (highest id bids)) [
  | inl n ↦ rw n (ground arith)
  | inr (k, s) ↦ let positive : pos 0 <ℤ k = highest_positive id bids k p s in rw s (ground arith)
]

-- The house enters a message exactly where the table takes its row.
takes-enters :
    (d : Delivery) (w : World)
    → takes_row w.db (row_of d d.envelope.amount w.db) ≡ enters (listed w) d (house_of w)
unfolding insertable
takes-enters d w = refl

-- The price of one auction after the row of a message.
price-row :
    (d : Delivery) (db : Db) (a : ℕ)
    → IsPositive db.bids
    → highest a (row_of d d.envelope.amount db ∷ db.bids) ≡ (
        if a == d.envelope.auction_id
        then raise_price d.envelope.amount
            (find_auction d.envelope.auction_id db)
            (highest a db.bids)
        else highest a db.bids)
unfolding highest
price-row d db a p = elim (Bool-cases (a == d.envelope.auction_id)) [
  | inl e ↦
      subst
        (λ b. highest b (row_of d d.envelope.amount db ∷ db.bids) ≡ (
          if b == d.envelope.auction_id
          then raise_price d.envelope.amount (find_auction d.envelope.auction_id db)
              (highest b db.bids)
          else highest b db.bids))
        (sym ((==_iff a d.envelope.auction_id).0 e))
        (rw ((==_iff d.envelope.auction_id d.envelope.auction_id).1 refl) (
          raised d.envelope.auction_id (find_auction d.envelope.auction_id db) d.envelope.amount
            db.bids p))
  | inr e ↦ ground arith
]

with_row-entered :
    (d : Delivery) (w : World)
    → IsPositive w.db.bids
    → house_of
        (record w { db = record w.db { bids = row_of d d.envelope.amount w.db ∷ w.db.bids } })
      ≡ entered (listed w) d (house_of w)
with_row-entered d w p =
    ap (λ (f : ℕ → Option ℤ). record (entered (listed w) d (house_of w)) { price = f })
      (fun_ext λ a. price-row d w.db a p)

choose :
    (b : Bool) (w : World) (db : Db) (h : House)
    → house_of (record w { db = db }) ≡ h
    → house_of (record w { db = if b then db else w.db }) ≡ (if b then h else house_of w)
choose true w db h e = e
choose false w db h e = refl

-- The column takes the amount of the message and keeps it as it is.
abbrev pub KeepsAmount : Driver → Delivery → Type 0
KeepsAmount driver d = IsExact driver d.envelope.amount

-- A decision is a step of the house, whatever the faults.
pub step-offer :
    (driver : Driver) (d : Delivery) (w : World)
    → KeepsAmount driver d
    → IsPositive w.db.bids
    → house_of (step driver d w) ≡ offer (listed w) d (house_of w)
unfolding offer insertable
step-offer driver d w exact p =
    ap (λ (db : Db). house_of (record w { db = db }))
      (db-decide_bid driver d.faults d.decided_at d.envelope d.partition d.offset w exact)
    ∙ choose (takes_row w.db (row_of d d.envelope.amount w.db)) w
        (record w.db { bids = row_of d d.envelope.amount w.db ∷ w.db.bids })
        (entered (listed w) d (house_of w)) (with_row-entered d w p)

listed-step :
    (driver : Driver) (d : Delivery) (w : World)
    → KeepsAmount driver d
    → listed (step driver d w) ≡ listed w
listed-step driver d w exact =
    ap (λ (db : Db). listed (record w { db = db }))
      (db-decide_bid driver d.faults d.decided_at d.envelope d.partition d.offset w exact)
    ∙ if_intro (λ (db : Db). listed (record w { db = db }) ≡ listed w)
        (takes_row w.db (row_of d d.envelope.amount w.db))
        (record w.db { bids = row_of d d.envelope.amount w.db ∷ w.db.bids }) w.db refl refl

-- However the brokers fail and whatever messages come, once or again, as long as the column takes
-- their amounts and keeps them as they are, the used ids and positions and the prices after the
-- worker's decisions are those that the auction house's rules give for the same messages.
pub run-offers :
    (driver : Driver) (ds : List Delivery) (w : World)
    → All (KeepsAmount driver) ds
    → IsLedger w.db
    → house_of (run driver ds w) ≡ offers (listed w) ds (house_of w)
unfolding run offers
run-offers driver [] w exact h = refl
run-offers driver (d ∷ ds) w (exact, rest) h =
    let next =
      decide_bid-IsLedger driver d.faults d.decided_at d.envelope d.partition d.offset w
        (exact-IsStorable driver d.envelope.amount exact) h in
    run-offers driver ds (step driver d w) rest next
    ∙ ap (λ l. offers l ds (house_of (step driver d w))) (listed-step driver d w exact)
    ∙ ap (offers (listed w) ds) (step-offer driver d w exact h.positive)
