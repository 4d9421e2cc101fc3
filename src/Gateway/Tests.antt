-- ===== src/Gateway/Tests.antt =====
-- Rooms with concrete sockets.
use awa_platform.Prelude.{◌≡◌, refl, [], ◌∷◌, ◌==◌}
use awa_platform.Prelude.Dict.{lookup, insert, erase}
use awa_platform.Gateway.{
  AuctionRoomManager, empty_manager, connect, leave, disconnect, disconnect_all, broadcast,
  connects, disconnects, message, handle, handle_all,
}
use awa_platform.Gateway.Rooms.{IsServed, handle_all-IsServed}

abbrev two : AuctionRoomManager
two = connect 7 2 (connect 7 1 empty_manager)

empty-IsServed : IsServed empty_manager
unfolding lookup
empty-IsServed = record {
  covered = λ a. refl;
  inhabited = λ a e. cc;
  runs = λ a t e. absurd (cc);
  fresh = λ t a e. absurd (cc);
}

-- The last socket of a room takes the relay with it.
all_leave :
    handle_all
      (connects 7 1 ∷ connects 7 2 ∷ message (λ s. s == 1) 7 ∷ disconnects 7 2 ∷ [])
      empty_manager
    ≡ record empty_manager { next_task = 1 }
unfolding handle_all handle connect disconnect leave disconnect_all broadcast lookup insert erase
all_leave = refl

handle_all-IsServed_example :
    IsServed (handle_all (connects 7 1 ∷ connects 8 2 ∷ disconnects 7 1 ∷ []) empty_manager)
handle_all-IsServed_example =
    handle_all-IsServed (connects 7 1 ∷ connects 8 2 ∷ disconnects 7 1 ∷ []) empty_manager
      empty-IsServed
