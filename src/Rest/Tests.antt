-- ===== src/Rest/Tests.antt =====
-- Requests to the endpoints.
use awa_platform.Prelude.{◌≡◌, refl, []}
use awa_platform.Prelude.Int.{pos}
use awa_platform.Api.{handled, reply}
use awa_platform.Auth.Base.{get_user_by_email, normalize_email, verify_password, hash_token}
use awa_platform.Auth.Tests.{plain, unsorted, settings, at, seller, before}
use awa_platform.Bids.Submit.Tests.{python, printer, bidder, db_with, new_bid}
use awa_platform.Rest.{sign_in_endpoint, forgot_password_endpoint}
use awa_platform.Rest.Bidding.{submit_bid_endpoint}
use Prim.Native.Char.{code}
use awa_platform.Prelude.{leb, ◌&&◌}
use awa_platform.Exceptions.{ok, raise, value_error}
use awa_platform.Rest.Passwords.{has_char, validate_password}
use awa_platform.Rest.Answers.{Answered, submit_bid-Answered}
use awa_platform.Rest.Hides.{accounts_hidden}

submit_bid-Answered_example :
    Answered python printer unsorted new_bid (db_with "Buyer") 7 bidder (pos 150) [] (
      submit_bid_endpoint python printer unsorted new_bid
        (db_with "Buyer")
        7
        (reply bidder)
        (pos 150)
        [])
submit_bid-Answered_example =
    submit_bid-Answered python printer unsorted new_bid (db_with "Buyer") 7 bidder (pos 150) []

accounts_hidden_example :
    ((handled
        (sign_in_endpoint plain unsorted settings (at 100 "t" 0) "nobody@example.com" "x")
        before).0
      ≡ (handled
          (sign_in_endpoint plain unsorted settings (at 100 "t" 0) "seller@example.com" "guess")
          before).0)
    × ((handled
          (forgot_password_endpoint plain unsorted settings (at 100 "t" 0) "nobody@example.com")
          before).0
        ≡ (handled
            (forgot_password_endpoint plain unsorted settings (at 100 "t" 0) "seller@example.com")
            before).0)
unfolding get_user_by_email normalize_email verify_password hash_token
accounts_hidden_example =
    accounts_hidden plain unsorted settings (at 100 "t" 0) before "nobody@example.com"
      "seller@example.com" "x" "guess" "nobody@example.com" "seller@example.com" seller refl refl
      refl (refl, refl) refl

-- Eight letters and digits pass, and letters alone do not.
good_password :
    validate_password (λ c. leb 48 (code c) && leb (code c) 57) "abcdefg1" ≡ ok "abcdefg1"
unfolding validate_password has_char
good_password = refl

no_digit :
    validate_password (λ c. leb 48 (code c) && leb (code c) 57) "abcdefgh" ≡ raise value_error
unfolding validate_password has_char
no_digit = refl
