-- ===== src/Gateway.antt =====
-- ws/gateway.py: the rooms of connected sockets, and the relay task of each room. Sockets, tasks and
-- auctions are numbers. Every method body that holds the lock is one step.
pub mod Rooms
pub mod Relay
mod Tests
use awa_platform.Prelude.{
  ℕ, ◌+◌, Bool, true, false, not, Option, none, some, List, [], ◌∷◌, ◌==◌, if◌then◌else◌,
}
use awa_platform.Prelude.Lists.{any, select}
use awa_platform.Prelude.Dict.{Dict, lookup, contains, insert, erase}

pub record AuctionRoomManager : Type 0 where
  -- a set of sockets for each auction
  pub connections : Dict (List ℕ)
  pub relay_tasks : Dict ℕ
  -- the tasks that the event loop runs, with the auction that each relays, and the next task
  pub running : Dict ℕ
  pub next_task : ℕ

abbrev pub empty_manager : AuctionRoomManager
empty_manager = record { connections = []; relay_tasks = []; running = []; next_task = 0 }

abbrev pub or_empty : Option (List ℕ) → List ℕ
or_empty none = []
or_empty (some sockets) = sockets

-- `self._connections.get(auction_id, ())`
abbrev pub room : ℕ → AuctionRoomManager → List ℕ
room auction_id m = or_empty (lookup auction_id m.connections)

abbrev pub has_socket : ℕ → List ℕ → Bool
has_socket socket = any λ s. s == socket

-- `set.add` and `set.discard`
abbrev pub add : ℕ → List ℕ → List ℕ
add socket sockets = if has_socket socket sockets then sockets else socket ∷ sockets

abbrev pub discard : ℕ → List ℕ → List ℕ
discard socket = select λ s. not (s == socket)

-- `asyncio.create_task(self._relay_loop(auction_id))`
abbrev pub start_relay : ℕ → AuctionRoomManager → AuctionRoomManager
start_relay auction_id m = record m {
  relay_tasks = insert auction_id m.next_task m.relay_tasks;
  running = insert m.next_task auction_id m.running;
  next_task = m.next_task + 1;
}

unfoldable pub connect : ℕ → ℕ → AuctionRoomManager → AuctionRoomManager
connect auction_id socket m =
    let joined = record m {
      connections = insert auction_id (add socket (room auction_id m)) m.connections;
    } in
    if contains auction_id m.relay_tasks then joined else start_relay auction_id joined

-- `task.cancel()`
abbrev pub cancel : Option ℕ → Dict ℕ → Dict ℕ
cancel none running = running
cancel (some task) running = erase task running

-- The room without the socket: an empty room is deleted with its relay task.
unfoldable pub leave : ℕ → List ℕ → AuctionRoomManager → AuctionRoomManager
leave auction_id [] m = record m {
  connections = erase auction_id m.connections;
  relay_tasks = erase auction_id m.relay_tasks;
  running = cancel (lookup auction_id m.relay_tasks) m.running;
}
leave auction_id (s ∷ left) m = record m {
  connections = insert auction_id (s ∷ left) m.connections;
}

unfoldable pub disconnect : ℕ → ℕ → AuctionRoomManager → AuctionRoomManager
unfolding leave
disconnect auction_id socket m = leave auction_id (discard socket (room auction_id m)) m

unfoldable pub disconnect_all : ℕ → List ℕ → AuctionRoomManager → AuctionRoomManager
disconnect_all auction_id [] m = m
disconnect_all auction_id (s ∷ dead) m = disconnect_all auction_id dead (disconnect auction_id s m)

-- `_broadcast`: whom the message reaches, and the manager without the sockets that failed.
unfoldable pub broadcast : (fails : ℕ → Bool) → ℕ → AuctionRoomManager → List ℕ × AuctionRoomManager
broadcast fails auction_id m = (
  select (λ s. not (fails s)) (room auction_id m),
  disconnect_all auction_id (select fails (room auction_id m)) m,
)

-- The end of a relay loop by an exception of the Redis client: the entry of `_relay_tasks` stays.
unfoldable pub relay_fails : ℕ → AuctionRoomManager → AuctionRoomManager
relay_fails auction_id m = record m { running = cancel (lookup auction_id m.relay_tasks) m.running }

pub data Event : Type 0 where
  connects disconnects : (auction_id socket : ℕ) → Event
  message : (fails : ℕ → Bool) → (auction_id : ℕ) → Event

unfoldable pub handle : Event → AuctionRoomManager → AuctionRoomManager
handle (connects a s) m = connect a s m
handle (disconnects a s) m = disconnect a s m
handle (message fails a) m = (broadcast fails a m).1

unfoldable pub handle_all : List Event → AuctionRoomManager → AuctionRoomManager
handle_all [] m = m
handle_all (e ∷ events) m = handle_all events (handle e m)
