-- ===== src/Bids/Envelope.antt =====
-- services/bid_service.parse_bid_envelope, and the reading of the envelope at the head of
-- decide_bid. What json, decimal and uuid of Python's library compute is a parameter.
use awa_platform.Prelude.{
  ℕ, String, Bool, true, false, Option, none, some, List, [], ◌∷◌, if◌then◌else◌, is_some, str_eq,
}
use awa_platform.Prelude.Int.{ℤ}
use awa_platform.Exceptions.{
  Result, ok, raise, malformed_bid_event, key_error, type_error, attribute_error, value_error,
  invalid_operation, data_error, ◌>>=◌,
}
use awa_platform.Bids.Decide.{Envelope}

mutual
  pub data Json : Type 0 where
    null : Json
    bool : Bool → Json
    int : ℤ → Json
    float : String → Json
    string : String → Json
    array : Items → Json
    object : Fields → Json

  pub data Items : Type 0 where
    nil : Items
    item : Json → Items → Items

  pub data Fields : Type 0 where
    end : Fields
    field : String → Json → Fields → Fields

-- How `json.loads(raw_value)` ends.
pub data Loaded : Type 0 where
  loaded : Json → Loaded
  json_decode_error unicode_decode_error : Loaded

-- How `Decimal(value)` ends: with a number, in units so fine that every finite Decimal is a whole
-- number of them, with a NaN or an infinity, or with an exception.
pub data Number : Type 0 where
  number : ℤ → Number
  not_finite : Number
  bad_syntax bad_type bad_value : Number

pub record Stdlib (Bytes : Type 0) : Type 0 where
  pub loads : Bytes → Loaded
  pub decimal : Json → Number
  -- `uuid.UUID(str(value))`: `none` is a ValueError
  pub uuid_of_str : Json → Option ℕ
  -- `uuid.UUID(value)`
  pub uuid : Json → Result ℕ

-- The value of a key, the last one if it occurs twice.
unfoldable pub member : String → Fields → Option Json
member k end = none
member k (field j v rest) =
    let later = member k rest in
    if is_some later then later else (if str_eq j k then some v else none)

-- The first key of the list that is missing.
unfoldable pub missing : List String → Fields → Bool
missing [] fields = false
missing (k ∷ ks) fields =
    let rest = missing ks fields in if is_some (member k fields) then rest else true

abbrev pub required_envelope_fields : List String
required_envelope_fields = "bid_id" ∷ "auction_id" ∷ "bidder_id" ∷ "amount" ∷ "submitted_at" ∷ []

abbrev pub envelope_uuid_fields : List String
envelope_uuid_fields = "bid_id" ∷ "auction_id" ∷ "bidder_id" ∷ []

-- `data[key]`
unfoldable pub get : String → Fields → Result Json
get k fields = elim (member k fields) [ none ↦ raise key_error | some v ↦ ok v ]

-- Only `InvalidOperation` is caught.
unfoldable pub check_amount : Number → Result (Unit {0})
check_amount (number x) = ok tt
check_amount not_finite = ok tt
check_amount bad_syntax = raise malformed_bid_event
check_amount bad_type = raise type_error
check_amount bad_value = raise value_error

-- `Decimal(envelope["amount"])`, with no handler. Of what is not finite, a NaN raises
-- InvalidOperation where decide_bid compares it, and the driver refuses the row of any other;
-- nothing is written before either, so the exception is raised here.
unfoldable pub read_amount : Number → Result ℤ
read_amount (number x) = ok x
read_amount not_finite = raise data_error
read_amount bad_syntax = raise invalid_operation
read_amount bad_type = raise type_error
read_amount bad_value = raise value_error

module _ {Bytes : Type 0} (lib : Stdlib Bytes) where
  unfoldable pub check_uuids : List String → Fields → Result (Unit {0})
  check_uuids [] fields = ok tt
  check_uuids (k ∷ ks) fields =
      let rest = check_uuids ks fields in
      get k fields >>= λ v. elim (lib.uuid_of_str v) [
        | none ↦ raise malformed_bid_event
        | some id ↦ rest
      ]

  unfoldable pub check_object : Fields → Result Fields
  unfolding check_uuids get
  check_object fields =
      if missing required_envelope_fields fields
      then raise malformed_bid_event
      else (get "amount" fields >>= λ amount. check_amount (lib.decimal amount) >>= λ _.
          check_uuids envelope_uuid_fields fields >>= λ _. ok fields)

  -- `data.keys()` is there for a dict only.
  unfoldable pub check_loaded : Loaded → Result Fields
  unfolding check_object
  check_loaded json_decode_error = raise malformed_bid_event
  check_loaded unicode_decode_error = raise value_error
  check_loaded (loaded (object fields)) = check_object fields
  check_loaded (loaded _) = raise attribute_error

  unfoldable pub parse_bid_envelope : Bytes → Result Fields
  unfolding check_loaded
  parse_bid_envelope raw_value = check_loaded (lib.loads raw_value)

  -- The first lines of `decide_bid`.
  unfoldable pub read_envelope : Fields → Result Envelope
  unfolding get
  read_envelope fields = do
    auction_id ← get "auction_id" fields >>= lib.uuid
    bid_id ← get "bid_id" fields >>= lib.uuid
    bidder_id ← get "bidder_id" fields >>= lib.uuid
    amount ← get "amount" fields >>= λ v. read_amount (lib.decimal v)
    ok (record { bid_id = bid_id; auction_id = auction_id; bidder_id = bidder_id; amount = amount })
