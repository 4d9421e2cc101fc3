-- ===== src/Lib.antt =====
-- The vehicle-auction platform: a FastAPI service with local accounts, auctions whose bids travel
-- over Kafka to a worker, a WebSocket gateway, and the back office of a vehicle yard.
--
-- How the parts interact. A client signs in (services/auth_service.py) and submits a bid
-- (services/bid_service.py), which is put on a Kafka topic whose key is the auction. The auction
-- worker (workers/auction_worker.py) takes the messages of a partition one by one, decides each
-- against the database, sets the cache in Redis and publishes the result; the gateway (ws/gateway.py)
-- relays it to the sockets of the auction's room. Roles (services/role_service.py) say who may do
-- what. Vehicles come in through services/vehicle_intake_service.py, and reports on payments are read
-- through services/vehicle_payment_service.py.
--
-- Which file models which part:
--   Prelude            shared names, Boolean tests, lists, integers, dictionaries
--   Exceptions         services/exceptions.py and the exceptions of the libraries
--   Models/*           models/auction.py, models/user.py, models/role.py
--   Session            core/database.py: a request as state passing over what the transaction sees
--                      and what is committed
--   Bids/World         core/redis.py and core/kafka.py: cache, channel and result topic
--   Bids/Decide        bid_service.decide_bid
--   Bids/Envelope      bid_service.parse_bid_envelope and the reading of the envelope
--   Bids/Worker        auction_worker.run_worker
--   Bids/Submit        auction_service.py, bid_service.submit_bid and validate_bid_eligibility
--   Bids/Ledger, Sound, Verdict, Replay, Cache, Worker/Offsets, Submit/Published
--                      theorems about these
--   Roles              services/role_service.py and core/roles.py; Roles/Grant and Roles/Revoke
--   Auth/Base          core/passwords.py, core/access_tokens.py (issuing), the settings, the clock
--   Auth/Tokens, SignIn, SignUp, Reset, Verify
--                      the flows of services/auth_service.py under their names
--   Auth/Lockout, Rotation, Sessions, SignOut
--                      theorems about these
--   Gateway            ws/gateway.py; Gateway/Rooms and Gateway/Relay
--   Payments           services/vehicle_payment_service.py; Payments/Pages and Payments/Counts
--   Intake             models/vehicle_intake.py and the look-ups of vehicle_intake_service.py;
--                      Intake/Create is the form, Intake/Sheet and Intake/Bulk the bulk upload,
--                      Intake/Options the drop-downs and searches, Intake/Endpoints
--                      api/v1/vehicle_intake.py, Intake/Chassis, Intake/Resolved and Intake/Form the
--                      theorems about them
--   Api                core/access_tokens.decode_access_token, api/deps.py and the endpoints of
--                      api/v1/users.py; Api/Guard, Api/Keeps and Api/Issued
--   Bids/House         an auction house as a specification of the bids, without rows and order;
--                      House/Refines and House/Swaps, and Worker/Progress on the commits of offsets
--   Auth/Registered    signing up and signing in; Auth/Verified: signing up and verifying the address
--   Security           core/security.py; Security/Keys and Security/Access
--   Content            models/content.py; Content/Menu, Featured and Sections are the queries of
--                      services/content_service.py, Content/Levels, Tabs and Items the theorems
--   Admin              services/admin_service.py; Admin/Access and Admin/Reports are
--                      api/v1/admin.py; Admin/Nav and Admin/Counts
--   Rest               api/v1/auth.py and, in Rest/Bidding, api/v1/auctions.py; Rest/Passwords
--                      holds the rules of schemas/auth.py; Rest/Answers and Rest/Hides
--   Migrations/*       alembic/versions: Roles is 0029, PrimaryRole 0030, Featured 0006 and 0007, Lookups
--                      0019, Demo 0031, and Dashboard 0010 to 0017, 0024 to 0026 and 0032 with their
--                      seed data; Names, Known, Collates, Backfill, Among, Links, RoundTrip, Chain, Split, Models,
--                      Seeded, Undo, Sellers, Upsert and Overview/Linked are the theorems
--   Startup            core/database.py, core/redis.py, core/kafka.py, main.lifespan and the frame of
--                      auction_worker.run_worker; Startup/Config is core/config.py, Startup/Health
--                      api/v1/health.py, Startup/Lifecycle the theorems
--
-- Conventions. Ids are numbers and times are microseconds. Amounts of money are whole hundredths, and
-- those of bids are whole numbers of a unit so fine that it divides every finite Decimal; what the
-- column of a bid's amount keeps of one is a parameter. A table is a list of rows, newest first, and a
-- query is a search or a selection; uniqueness and foreign keys are tests that an insert makes. What
-- argon2, hashlib, jose, json, uuid, decimal, the database's driver and collation and the Kafka
-- consumer compute is a parameter, with the documented laws that the code relies on as its fields.
-- Random values, clock readings and failures of Redis or Kafka are arguments of the step that meets
-- them; a call that raises may have been carried out. All loops run over lists, so no fuel is needed.
--
-- Not modelled: the other revisions of the database, and of those above the types and lengths of
-- columns and the downgrades that only drop tables; the lengths and ranges of columns elsewhere, but
-- for the amounts of bids and the listings of a bulk upload; the rounding of tonumber in the script of
-- the Redis cache; logging and telemetry; the retries of tenacity, whose last result is an argument;
-- the other checks that pydantic makes of a request; the headers and the codes of successful answers;
-- concurrency inside a request, where the database's isolation takes over, except for the cached key
-- set of core/security.py.
pub mod Prelude
pub mod Exceptions
pub mod Models
pub mod Session
pub mod Bids
pub mod Roles
pub mod Auth
pub mod Gateway
pub mod Payments
pub mod Intake
pub mod Api
pub mod Security
pub mod Content
pub mod Admin
pub mod Rest
pub mod Migrations
pub mod Startup
