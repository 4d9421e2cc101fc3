-- ===== src/Gateway/Rooms.antt =====
-- What the gateway keeps between its steps: a room has sockets exactly as long as it has a relay.
use awa_platform.Prelude.{
  ℕ, ◌<◌, ◌≡◌, ◌≢◌, refl, ◌∙◌, true, false, Option, none, some, List, [], ◌∷◌, arith, is_some,
  Bool-cases, Option-cases, inl, inr,
}
use awa_platform.Prelude.Lists.{select}
use awa_platform.Prelude.Dict.{lookup, contains, insert, lookup-insert, lookup-erase}
use awa_platform.Gateway.{
  AuctionRoomManager, or_empty, room, add, discard, start_relay, connect, leave, disconnect,
  disconnect_all, broadcast, Event, connects, disconnects, message, handle, handle_all,
}

-- Every room has sockets and a task in `_relay_tasks`, no other auction has a task, and each of
-- these tasks runs and relays the auction that it is filed under.
pub record IsServed (m : AuctionRoomManager) : Type 0 where
  pub covered : (a : ℕ) → contains a m.relay_tasks ≡ contains a m.connections
  pub inhabited : (a : ℕ) → lookup a m.connections ≢ some []
  pub runs : (a t : ℕ) → lookup a m.relay_tasks ≡ some t → lookup t m.running ≡ some a
  pub fresh : (t a : ℕ) → lookup t m.running ≡ some a → t < m.next_task

add_ne : (s : ℕ) (xs : List ℕ) → add s xs ≢ []
add_ne s [] h = cc
add_ne s (x ∷ xs) h = ground arith

-- A room that gets another set of sockets, which is not empty.
put-IsServed :
    (a : ℕ) (xs : List ℕ) (m : AuctionRoomManager)
    → xs ≢ []
    → contains a m.relay_tasks ≡ true
    → IsServed m
    → IsServed (record m { connections = insert a xs m.connections })
put-IsServed a xs m ne has h = record {
  covered = λ b. rw lookup-insert (ground (arith, h.covered b));
  inhabited = λ b e. ground (arith, h.inhabited b, lookup-insert b a xs m.connections);
  runs = h.runs;
  fresh = h.fresh;
}

start-IsServed :
    (a : ℕ) (xs : List ℕ) (m : AuctionRoomManager)
    → xs ≢ []
    → contains a m.relay_tasks ≡ false
    → IsServed m
    → IsServed (start_relay a (record m { connections = insert a xs m.connections }))
start-IsServed a xs m ne has h = record {
  covered = λ b. ground (
    arith,
    h.covered b,
    lookup-insert b a xs m.connections,
    lookup-insert b a m.next_task m.relay_tasks,
  );
  inhabited = λ b e. ground (arith, h.inhabited b, lookup-insert b a xs m.connections);
  runs = λ b t e. ground (
    arith,
    lookup-insert b a m.next_task m.relay_tasks,
    lookup-insert t m.next_task a m.running,
    h.runs b t,
    h.fresh t b,
  );
  fresh = λ t b e. ground (arith, lookup-insert t m.next_task a m.running, h.fresh t b);
}

connect-IsServed : (a s : ℕ) (m : AuctionRoomManager) → IsServed m → IsServed (connect a s m)
unfolding connect
connect-IsServed a s m h = elim (Bool-cases (contains a m.relay_tasks)) [
  | inl e ↦ rw e (put-IsServed a (add s (room a m)) m (add_ne s (room a m)) e h)
  | inr e ↦ rw e (start-IsServed a (add s (room a m)) m (add_ne s (room a m)) e h)
]

close-IsServed : (a : ℕ) (m : AuctionRoomManager) → IsServed m → IsServed (leave a [] m)
unfolding leave
close-IsServed a m h = record {
  covered = λ b.
      ground (arith, h.covered b, lookup-erase b a m.connections, lookup-erase b a m.relay_tasks);
  inhabited = λ b e. ground (arith, h.inhabited b, lookup-erase b a m.connections);
  runs = λ b t e. elim (Option-cases (lookup a m.relay_tasks)) [
    | inl n ↦ rw n (ground (arith, lookup-erase b a m.relay_tasks, h.runs b t))
    | inr (u, n) ↦ rw n (
        ground (
          arith,
          lookup-erase b a m.relay_tasks,
          lookup-erase t u m.running,
          h.runs b t,
          h.runs a u n,
        ))
  ];
  fresh = λ t b e. elim (Option-cases (lookup a m.relay_tasks)) [
    | inl n ↦ h.fresh t b (rw n at e)
    | inr (u, n) ↦ ground (arith, (rw n at e), lookup-erase t u m.running, h.fresh t b)
  ];
}

-- Leaving a room that keeps a socket, or that was the last one.
leave-IsServed :
    (a : ℕ) (left : List ℕ) (m : AuctionRoomManager)
    → (left ≢ [] → contains a m.connections ≡ true)
    → IsServed m
    → IsServed (leave a left m)
unfolding leave
leave-IsServed a [] m open_room h = close-IsServed a m h
leave-IsServed a (s ∷ left) m open_room h =
    put-IsServed a (s ∷ left) m (λ e. cc) (h.covered a ∙ open_room (λ e. cc)) h

-- A room with a socket left is one that is there.
room_open : (s : ℕ) (o : Option (List ℕ)) → discard s (or_empty o) ≢ [] → is_some o ≡ true
room_open s none ne = absurd (ne refl)
room_open s (some xs) ne = refl

disconnect-IsServed : (a s : ℕ) (m : AuctionRoomManager) → IsServed m → IsServed (disconnect a s m)
unfolding disconnect
disconnect-IsServed a s m h =
    leave-IsServed a (discard s (room a m)) m (room_open s (lookup a m.connections)) h

disconnect_all-IsServed :
    (a : ℕ) (dead : List ℕ) (m : AuctionRoomManager)
    → IsServed m
    → IsServed (disconnect_all a dead m)
unfolding disconnect_all
disconnect_all-IsServed a [] m h = h
disconnect_all-IsServed a (s ∷ dead) m h =
    disconnect_all-IsServed a dead (disconnect a s m) (disconnect-IsServed a s m h)

handle-IsServed : (e : Event) (m : AuctionRoomManager) → IsServed m → IsServed (handle e m)
unfolding handle broadcast
handle-IsServed (connects a s) m h = connect-IsServed a s m h
handle-IsServed (disconnects a s) m h = disconnect-IsServed a s m h
handle-IsServed (message fails a) m h = disconnect_all-IsServed a (select fails (room a m)) m h

-- Whatever clients connect, disconnect or fail, in any order and to any room, the rooms with
-- sockets are those with a relay task, and each of these tasks runs for its own room.
pub handle_all-IsServed :
    (events : List Event) (m : AuctionRoomManager) → IsServed m → IsServed (handle_all events m)
unfolding handle_all
handle_all-IsServed [] m h = h
handle_all-IsServed (e ∷ events) m h =
    handle_all-IsServed events (handle e m) (handle-IsServed e m h)
