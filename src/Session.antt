-- ===== src/Session.antt =====
-- core/database.py: the tables, and the session of one request as state passing with exceptions.
use awa_platform.Prelude.{List, []}
use awa_platform.Exceptions.{Exception, Result, ok, raise}
use awa_platform.Models.Auction.{Auction, Bid}
use awa_platform.Models.User.{User, RefreshToken, PasswordResetToken, EmailVerificationToken}
use awa_platform.Models.Role.{Role, UserRole}

pub record Db : Type 0 where
  pub users : List User
  pub roles : List Role
  pub user_roles : List UserRole
  pub refresh_tokens : List RefreshToken
  pub password_reset_tokens : List PasswordResetToken
  pub email_verification_tokens : List EmailVerificationToken
  pub auctions : List Auction
  pub bids : List Bid

abbrev pub empty_db : Db
empty_db = record {
  users = [];
  roles = [];
  user_roles = [];
  refresh_tokens = [];
  password_reset_tokens = [];
  email_verification_tokens = [];
  auctions = [];
  bids = [];
}

-- What the transaction sees, and what has been committed.
pub record Session : Type 0 where
  pub working : Db
  pub stored : Db

abbrev pub Exec : Type 0 → Type 0
Exec A = Session → Result A × Session

module _ {A : Type 0} where
  abbrev pub pure : A → Exec A
  pure a s = (ok a, s)

  abbrev pub throw : Exception → Exec A
  throw e s = (raise e, s)

  abbrev pub gets : (Db → A) → Exec A
  gets f s = (ok (f s.working), s)

infixl 5 ◌>>=◌ ◌>>◌
abbrev pub ◌>>=◌ : {A B : Type 0} → Exec A → (A → Exec B) → Exec B
◌>>=◌ m f s = let (r, s') = m s in elim r [ ok a ↦ f a s' | raise e ↦ (raise e, s') ]

abbrev pub ◌>>◌ : {A B : Type 0} → Exec A → Exec B → Exec B
m >> k = m >>= λ _. k

abbrev pub modify : (Db → Db) → Exec Unit
modify f s = (ok tt, record s { working = f s.working })

-- `await db.commit()`
abbrev pub commit : Exec Unit
commit s = (ok tt, record s { stored = s.working })

-- The dependency `get_db_session`: a request begins at what is committed, and what it has not
-- committed is rolled back when it ends, with or without an exception.
abbrev pub request : {A : Type 0} → Exec A → Db → Result A × Db
request m db = let (r, s) = m (record { working = db; stored = db }) in (r, s.stored)
