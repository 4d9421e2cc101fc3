-- ===== src/Bids/Replay.antt =====
-- Redelivery after a crash of the worker: a message that has been decided is never decided again.
use awa_platform.Prelude.{
  ℕ, zero, suc, ◌≡◌, refl, sym, subst, ap, ◌∙◌, Bool, false, Option, none, some, List, [], ◌∷◌,
  arith, map, Bool-cases, inl, inr,
}
use awa_platform.Prelude.Lists.{All, drop}
use awa_platform.Prelude.Int.{ℤ}
use awa_platform.Exceptions.{Result, raise, data_error}
use awa_platform.Models.Auction.{Bid, BidStatus, insertable}
use awa_platform.Session.{Db}
use awa_platform.Bids.World.{World, Faults, BidResult}
use awa_platform.Bids.Decide.{
  Driver, Envelope, bid_row, takes_row, find_auction, leave_failed_flush, record_bid, flush_bid,
  decide_bid,
}
use awa_platform.Bids.Sound.{db-record_bid, decide_bid-record_bid}

-- A message of the bids topic as the worker meets it: the faults and the clock are those of this
-- delivery.
pub record Delivery : Type 0 where
  pub envelope : Envelope
  pub partition : ℕ
  pub offset : ℕ
  pub faults : Faults
  pub decided_at : ℕ

-- The row of a message, with what the column keeps of its amount.
abbrev pub row_of : Delivery → (stored : ℤ) → Db → Bid
row_of d stored db = bid_row d.envelope stored d.partition d.offset db

abbrev pub step : Driver → Delivery → World → World
step driver d w = (decide_bid driver d.faults d.decided_at d.envelope d.partition d.offset w).1

-- The messages in the order of the partition.
unfoldable pub run : Driver → List Delivery → World → World
run driver [] w = w
run driver (d ∷ ds) w = run driver ds (step driver d w)

-- The table will not take the row of this message any more.
abbrev pub IsSettled : Driver → World → Delivery → Type 0
IsSettled driver w d =
    (y : ℤ) → driver.column d.envelope.amount ≡ some y → takes_row w.db (row_of d y w.db) ≡ false

-- How a decision ends that the database refuses: DataError, or the end of a failed flush.
abbrev pub leave_refused : Driver → Option ℤ → Result (Option BidResult)
leave_refused driver none = raise data_error
leave_refused driver (some stored) = leave_failed_flush driver.inactive

refused_flush :
    (driver : Driver) (faults : Faults) (t : ℕ) (env : Envelope) (p o : ℕ) (w : World)
    (column : Option ℤ)
    → ((y : ℤ) → column ≡ some y → takes_row w.db (bid_row env y p o w.db) ≡ false)
    → flush_bid driver faults t env column p o w ≡ (leave_refused driver column, w)
unfolding flush_bid record_bid
refused_flush driver faults t env p o w none h = refl
refused_flush driver faults t env p o w (some y) h = rw (h y refl)

-- On a row that the table does not take the decision changes nothing and publishes nothing.
pub decide_bid_refused :
    (driver : Driver) (faults : Faults) (t : ℕ) (env : Envelope) (p o : ℕ) (w : World)
    → ((y : ℤ)
        → driver.column env.amount ≡ some y
        → takes_row w.db (bid_row env y p o w.db) ≡ false)
    → decide_bid driver faults t env p o w ≡ (leave_refused driver (driver.column env.amount), w)
unfolding decide_bid
decide_bid_refused driver faults t env p o w h =
    refused_flush driver faults t env p o w (driver.column env.amount) h

-- A refusal does not depend on the verdict, and further rows do not lift it.
insertable-cons :
    (ak bk : Bool) (bids : List Bid) (b c : Bid) (s : BidStatus)
    → insertable ak bk bids b ≡ false
    → insertable ak bk (c ∷ bids) (record b { status = s }) ≡ false
unfolding insertable
insertable-cons ak bk bids b c s h = ground arith

-- A row that stands in the table is refused.
insertable_self :
    (ak bk : Bool) (bids : List Bid) (b : Bid) (s : BidStatus)
    → insertable ak bk (b ∷ bids) (record b { status = s }) ≡ false
unfolding insertable
insertable_self ak bk bids b s = ground arith

abbrev SettledIn : Delivery → ℤ → Db → Type 0
SettledIn d y db = takes_row db (row_of d y db) ≡ false

SettledIn-cons :
    (d : Delivery) (y : ℤ) (db : Db) (new : Bid)
    → SettledIn d y db
    → SettledIn d y (record db { bids = new ∷ db.bids })
SettledIn-cons d y db new h =
    insertable-cons _ _ db.bids (row_of d y db) new
      (row_of d y (record db { bids = new ∷ db.bids })).status h

SettledIn-self :
    (d : Delivery) (y : ℤ) (db : Db) → SettledIn d y (record db { bids = row_of d y db ∷ db.bids })
SettledIn-self d y db =
    insertable_self _ _ db.bids (row_of d y db)
      (row_of d y (record db { bids = row_of d y db ∷ db.bids })).status

SettledIn-record_bid :
    (driver : Driver) (e d : Delivery) (x y : ℤ) (w : World)
    → SettledIn d y w.db
    → SettledIn d y
        (record_bid driver e.faults e.decided_at e.envelope x e.partition e.offset w).1.db
SettledIn-record_bid driver e d x y w h =
    rw (db-record_bid driver e.faults e.decided_at e.envelope e.partition e.offset w x)
      (elim (Bool-cases (takes_row w.db (row_of e x w.db))) [
        | inl t ↦ rw t (SettledIn-cons d y w.db (row_of e x w.db) h)
        | inr n ↦ rw n h
      ])

SettledIn-record_bid_self :
    (driver : Driver) (d : Delivery) (y : ℤ) (w : World)
    → SettledIn d y
        (record_bid driver d.faults d.decided_at d.envelope y d.partition d.offset w).1.db
SettledIn-record_bid_self driver d y w =
    rw (db-record_bid driver d.faults d.decided_at d.envelope d.partition d.offset w y)
      (elim (Bool-cases (takes_row w.db (row_of d y w.db))) [
        | inl t ↦ rw t (SettledIn-self d y w.db)
        | inr n ↦ rw n n
      ])

SettledIn-flush_bid :
    (driver : Driver) (e d : Delivery) (column : Option ℤ) (y : ℤ) (w : World)
    → SettledIn d y w.db
    → SettledIn d y
        (flush_bid driver e.faults e.decided_at e.envelope column e.partition e.offset w).1.db
unfolding flush_bid
SettledIn-flush_bid driver e d none y w h = h
SettledIn-flush_bid driver e d (some x) y w h = SettledIn-record_bid driver e d x y w h

IsSettled-step :
    (driver : Driver) (e d : Delivery) (w : World)
    → IsSettled driver w d
    → IsSettled driver (step driver e w) d
unfolding decide_bid
IsSettled-step driver e d w h y known =
    SettledIn-flush_bid driver e d (driver.column e.envelope.amount) y w (h y known)

IsSettled-step_self :
    (driver : Driver) (d : Delivery) (w : World) → IsSettled driver (step driver d w) d
IsSettled-step_self driver d w y known =
    subst (λ (r : Result (Option BidResult) × World). SettledIn d y r.1.db)
      (sym (
        decide_bid-record_bid driver d.faults d.decided_at d.envelope d.partition d.offset w y
          known))
      (SettledIn-record_bid_self driver d y w)

-- Deciding a message again, after a crash and with other faults and another clock, changes
-- nothing, publishes nothing, and ends as a session does whose flush has failed, or with DataError
-- where the amount is out of the column's range.
pub decide_bid_replay :
    (driver : Driver) (faults : Faults) (t : ℕ) (d : Delivery) (w : World)
    → let w' = step driver d w in
      decide_bid driver faults t d.envelope d.partition d.offset w'
      ≡ (leave_refused driver (driver.column d.envelope.amount), w')
decide_bid_replay driver faults t d w =
    decide_bid_refused driver faults t d.envelope d.partition d.offset (step driver d w)
      (IsSettled-step_self driver d w)

-- A redelivery: the same message, met with other faults and at another time.
abbrev pub again : (Delivery → Faults × ℕ) → Delivery → Delivery
again chance d = record d { faults = (chance d).0; decided_at = (chance d).1 }

module _ (driver : Driver) where
  IsSettled-run :
      (ds : List Delivery) (d : Delivery) (w : World)
      → IsSettled driver w d
      → IsSettled driver (run driver ds w) d
  unfolding run
  IsSettled-run [] d w h = h
  IsSettled-run (e ∷ ds) d w h =
      IsSettled-run ds d (step driver e w) (IsSettled-step driver e d w h)

  All-IsSettled-run : (ds : List Delivery) (w : World) → All (IsSettled driver (run driver ds w)) ds
  unfolding run
  All-IsSettled-run [] w = tt
  All-IsSettled-run (d ∷ ds) w = (
    IsSettled-run ds d (step driver d w) (IsSettled-step_self driver d w),
    All-IsSettled-run ds (step driver d w),
  )

  run_settled :
      (chance : Delivery → Faults × ℕ) (ds : List Delivery) (w : World)
      → All (IsSettled driver w) ds
      → run driver (map (again chance) ds) w ≡ w
  unfolding run
  run_settled chance [] w h = refl
  run_settled chance (d ∷ ds) w h =
      ap (run driver (map (again chance) ds)) (
        ap (λ r. r.1)
          (decide_bid_refused driver (chance d).0 (chance d).1 d.envelope d.partition d.offset w
            h.0))
      ∙ run_settled chance ds w h.1

All-drop {ℓ κ} : {A : Type ℓ} (P : A → Type κ) (n : ℕ) (xs : List A) → All P xs → All P (drop n xs)
All-drop P zero xs h = h
All-drop P (suc n) [] h = h
All-drop P (suc n) (x ∷ xs) h = All-drop P n xs h.1

-- The worker has decided the messages `ds`, crashes, and is given everything from position `n` on
-- again: the database, the cache and what was published stay as they were.
pub run_after_crash :
    (driver : Driver) (chance : Delivery → Faults × ℕ) (n : ℕ) (ds : List Delivery) (w : World)
    → run driver (map (again chance) (drop n ds)) (run driver ds w) ≡ run driver ds w
run_after_crash driver chance n ds w =
    run_settled driver chance (drop n ds) (run driver ds w)
      (All-drop (IsSettled driver (run driver ds w)) n ds (All-IsSettled-run driver ds w))

-- A bid for an auction that the table `auctions` does not hold leaves no row, is not announced, and
-- is not reported as rejected: the insert fails on the foreign key.
decide_bid_unknown_auction :
    (driver : Driver) (faults : Faults) (t : ℕ) (env : Envelope) (p o : ℕ) (w : World)
    → find_auction env.auction_id w.db ≡ none
    → decide_bid driver faults t env p o w ≡ (leave_refused driver (driver.column env.amount), w)
decide_bid_unknown_auction driver faults t env p o w h =
    decide_bid_refused driver faults t env p o w (λ y e. unfold insertable in rw h)
