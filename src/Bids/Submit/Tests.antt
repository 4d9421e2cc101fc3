-- ===== src/Bids/Submit/Tests.antt =====
-- A submission on a topic whose numbers are written in unary.
use Prim.Native.String.{[] as nil, ◌∷◌ as push, count}
use text.Mathlib.TextLemmas.{length-nil, length-cons}
use awa_platform.Prelude.{
  ℕ, zero, suc, String, ◌+◌, ◌≡◌, refl, ap, ◌∙◌, true, false, Option, none, some, [], ◌∷◌, arith,
  str_eq, if◌then◌else◌, ◌==◌,
}
use awa_platform.Prelude.Int.{ℤ, pos, negsuc}
use awa_platform.Exceptions.{ok, raise, value_error}
use awa_platform.Models.User.{User}
use awa_platform.Session.{Db, empty_db}
use awa_platform.Roles.{Collation, get_user_roles, meets}
use awa_platform.Bids.World.{World, Faults}
use awa_platform.Bids.Tests.{server}
use awa_platform.Bids.Decide.{decide_bid}
use awa_platform.Bids.Envelope.{
  Json, string, Loaded, loaded, object, Number, number, bad_type, Stdlib,
}
use awa_platform.Bids.Worker.{ConsumerApi, Message, process}
use awa_platform.Bids.Submit.{
  Printer, Submission, envelope_of, publish_bid, submit_checked, submit_bid, get_auction,
  get_live_auction, validate_bid_eligibility,
}
use awa_platform.Bids.Submit.Published.{IsPublished, process-envelope, submit_bid-IsPublished}

unfoldable pub unary : ℕ → String
unary zero = nil
unary (suc n) = push "a" (unary n)

pub count-unary : (n : ℕ) → count (unary n) ≡ n
unfolding unary
count-unary zero = length-nil
count-unary (suc n) = length-cons "a" (unary n) ∙ ap suc (count-unary n) ∙ omega arith

abbrev uuid_of : Json → Option ℕ
uuid_of (string s) = some (count s)
uuid_of _ = none

abbrev written : ℤ → String
written (pos n) = push "p" (unary n)
written (negsuc n) = push "n" (unary n)

abbrev signed : String → Number
signed nil = bad_type
signed (push c s) = number (if str_eq (push c nil) "p" then pos (count s) else negsuc (count s))

abbrev decimal_of : Json → Number
decimal_of (string s) = signed s
decimal_of _ = bad_type

abbrev pub python : Stdlib Loaded
python = record {
  loads = λ x. x;
  decimal = decimal_of;
  uuid_of_str = uuid_of;
  uuid = λ v. elim (uuid_of v) [ none ↦ raise value_error | some n ↦ ok n ];
}

pub signed-written : (x : ℤ) → signed (written x) ≡ number x
signed-written (pos n) = ap (λ k. number (pos k)) (count-unary n)
signed-written (negsuc n) = ap (λ k. number (negsuc k)) (count-unary n)

abbrev pub printer : Printer python
printer = record {
  dumps = λ fields. loaded (object fields);
  str_uuid = unary;
  str_decimal = written;
  isoformat = unary;
  loads-dumps = λ fields. refl;
  uuid-str = λ n. ap ok (count-unary n);
  uuid_of_str-str = λ n. ap some (count-unary n);
  decimal-str = signed-written;
}

abbrev pub bidder : User
bidder = record {
  id = 3;
  email = "";
  password_hash = "";
  first_name = "";
  last_name = "";
  phone = none;
  primary_role_id = 1;
  is_active = true;
  is_email_verified = true;
  failed_login_attempts = 0;
  locked_until = none;
  last_login_at = none;
}

abbrev pub db_with : String → Db
db_with role_name = record empty_db {
  users = bidder ∷ [];
  roles = record { id = 1; name = role_name; description = none; is_active = true } ∷ [];
  user_roles = record { id = 10; user_id = 3; role_id = 1; assigned_at = 0 } ∷ [];
  auctions =
      record {
        id = 7;
        vehicle_id = 1;
        status = "live";
        starting_price = pos 100;
        reserve_price = none;
        starts_at = 0;
        ends_at = 10;
      }
      ∷ [];
}

abbrev pub unsorted : Collation
unsorted = record { by_name = λ roles. roles; any-by_name = λ p roles. refl }

abbrev pub new_bid : Submission
new_bid = record { bid_id = 1; submitted_at = 5; kafka_fails = false; appended = false }

abbrev calm : Faults
calm = record {
  eval_fails = false;
  eval_runs = false;
  publish_fails = false;
  publish_runs = false;
  kafka_fails = false;
  kafka_runs = false;
}

abbrev consumer : ConsumerApi ((ℕ → ℕ) × (ℕ → ℕ))
consumer = record {
  position = λ c. c.0;
  committed = λ c. c.1;
  deliver = λ c p o. ((λ q. if q == p then o + 1 else c.0 q), c.1);
  commit = λ c. (c.0, c.0);
  failed_commit = λ c. c;
  position_deliver = λ c p o q. refl;
  committed_deliver = λ c p o q. refl;
  position_commit = λ c q. refl;
  committed_commit = λ c q. refl;
}

abbrev delivered : Message Loaded
delivered = record {
  value = loaded (object (envelope_of python printer new_bid 7 3 (pos 150)));
  partition = 0;
  offset = 4;
  faults = calm;
  decided_at = 9;
  shutdown = false;
  commit_fails = false;
}

abbrev start : World
start = record { db = db_with "Buyer"; cache = []; updates = []; results = [] }

process-envelope_example :
    process python consumer (server none) delivered start
    ≡ decide_bid
        (server none)
        calm
        9
        (record { bid_id = 1; auction_id = 7; bidder_id = 3; amount = pos 150 })
        0
        4
        start
process-envelope_example =
    process-envelope python printer consumer (server none) new_bid 7 3 (pos 150) delivered start
      refl

submit_bid-IsPublished_example :
    IsPublished python printer unsorted new_bid
      (db_with "Buyer")
      7
      bidder
      (pos 150)
      []
      (submit_bid python printer unsorted new_bid (db_with "Buyer") 7 bidder (pos 150) []).1
unfolding submit_bid submit_checked publish_bid get_live_auction get_auction
    validate_bid_eligibility get_user_roles meets
submit_bid-IsPublished_example =
    submit_bid-IsPublished python printer unsorted new_bid (db_with "Buyer") 7 bidder (pos 150) []
      (record { bid_id = 1; auction_id = 7; submitted_at = 5 }) refl
