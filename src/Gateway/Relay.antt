-- ===== src/Gateway/Relay.antt =====
-- Who is in a room after a broadcast, and what becomes of a room whose relay has failed.
use awa_platform.Prelude.{ℕ, ◌≡◌, none, some, List, [], ◌∷◌, arith}
use awa_platform.Prelude.Dict.{lookup, lookup-erase}
use awa_platform.Gateway.{AuctionRoomManager, connect, relay_fails}

unfoldable pub connect_all : ℕ → List ℕ → AuctionRoomManager → AuctionRoomManager
connect_all a [] m = m
connect_all a (s ∷ sockets) m = connect_all a sockets (connect a s m)

-- The task that is filed under the auction does not run.
abbrev pub IsSilent : ℕ → AuctionRoomManager → Type 0
IsSilent a m = (t : ℕ) × (lookup a m.relay_tasks ≡ some t) × (lookup t m.running ≡ none)

connect-IsSilent : (a s : ℕ) (m : AuctionRoomManager) → IsSilent a m → IsSilent a (connect a s m)
unfolding connect
connect-IsSilent a s m (t, filed, dead) = (t, simp filed, simp filed dead)

connect_all-IsSilent :
    (a : ℕ) (sockets : List ℕ) (m : AuctionRoomManager)
    → IsSilent a m
    → IsSilent a (connect_all a sockets m)
unfolding connect_all
connect_all-IsSilent a [] m h = h
connect_all-IsSilent a (s ∷ sockets) m h =
    connect_all-IsSilent a sockets (connect a s m) (connect-IsSilent a s m h)

-- Once the relay of a room has ended by an exception, no client that joins the room starts a new
-- one: the task that the room is filed under stays one that does not run.
relay_not_restarted :
    (a t : ℕ) (sockets : List ℕ) (m : AuctionRoomManager)
    → lookup a m.relay_tasks ≡ some t
    → IsSilent a (connect_all a sockets (relay_fails a m))
unfolding relay_fails
relay_not_restarted a t sockets m filed =
    connect_all-IsSilent a sockets (relay_fails a m)
      (t, filed, simp filed (ground (arith, lookup-erase t t m.running)))
