-- ===== src/Room/Laws.antt =====
-- What the methods of src/room/room/Room.cpp do to a valid room.
use project_sos_backend.Base.{
  ℕ, ◌^◌, ◌≤◌, ◌<◌, String, ◌≡◌, refl, true, false, ◌||◌, ◌↔◌, [], ◌∷◌, length, length-append,
  arith, ◌==◌, if◌then◌else◌,
}
use project_sos_backend.Room.Players.{
  any_player, Distinct, AllReady, any_player-append, Distinct-append, any_player-erase_player,
  Distinct-erase_player, length-erase_player, erase_player-append, any_player-toggle_player,
  Distinct-toggle_player, length-toggle_player, toggle_player_twice, all_ready_iff, mem_id,
  mem_id-player_ids,
}
use project_sos_backend.Room.{
  Room, waiting, new_room, has_player, add_player, remove_player, toggle_ready, can_start,
  player_count, player_ids,
}

-- Ids are distinct, the room is not over its size, and the size is a `uint32_t`.
pub record IsValid (room : Room) : Type 0 where
  pub distinct : Distinct room.players
  pub fits : length room.players ≤ room.max_players
  pub word : room.max_players < 2 ^ 32

pub new_room-IsValid :
    (room_id room_name host_id host_name : String) (max_players : ℕ)
    → 1 ≤ max_players
    → max_players < 2 ^ 32
    → IsValid (new_room room_id room_name host_id host_name max_players)
unfolding new_room any_player
new_room-IsValid room_id room_name host_id host_name max_players h w = record {
  distinct = (refl, tt);
  fits = h;
  word = w;
}

pub add_player-IsValid :
    (room : Room) (id name : String) → IsValid room → IsValid (add_player room id name).0
unfolding add_player
add_player-IsValid room id name v = record {
  distinct = ground (
    arith,
    Distinct-append room.players
        (record { player_id = id; player_name = name; is_ready = false; is_host = false }),
  );
  fits = ground (
    arith,
    length-append room.players
        (record { player_id = id; player_name = name; is_ready = false; is_host = false } ∷ []),
  );
  word = ground arith;
}

pub remove_player-IsValid :
    (room : Room) (id : String) → IsValid room → IsValid (remove_player room id).0
unfolding remove_player
remove_player-IsValid room id v =
    ground
      (arith, Distinct-erase_player id room.players v.distinct, length-erase_player id room.players)

pub toggle_ready-IsValid :
    (room : Room) (id : String) → IsValid room → IsValid (toggle_ready room id)
unfolding toggle_ready
toggle_ready-IsValid room id v =
    ground (
      arith,
      Distinct-toggle_player id room.players v.distinct,
      length-toggle_player id room.players,
    )

-- What only the constructor and the setters write.
pub record SameSetup (old room : Room) : Type 0 where
  pub room_id : room.room_id ≡ old.room_id
  pub host_id : room.host_id ≡ old.host_id
  pub max_players : room.max_players ≡ old.max_players
  pub session_id : room.session_id ≡ old.session_id
  pub state : room.state ≡ old.state

pub add_player-SameSetup :
    (room : Room) (id name : String) → SameSetup room (add_player room id name).0
unfolding add_player
add_player-SameSetup room id name = ground arith

pub remove_player-SameSetup : (room : Room) (id : String) → SameSetup room (remove_player room id).0
unfolding remove_player
remove_player-SameSetup room id = ground arith

pub toggle_ready-SameSetup : (room : Room) (id : String) → SameSetup room (toggle_ready room id)
unfolding toggle_ready
toggle_ready-SameSetup room id = ground arith

pub has_player-add_player :
    (room : Room) (id name other : String)
    → (add_player room id name).1 ≡ true
    → has_player (add_player room id name).0 other ≡ (has_player room other || (id == other))
unfolding add_player has_player any_player
has_player-add_player room id name other h = ground (
  arith,
  any_player-append other room.players
      (record { player_id = id; player_name = name; is_ready = false; is_host = false } ∷ []),
)

-- After a removal from a valid room, the removed id is in the room no more, and the others are as before.
pub has_player-remove_player :
    (room : Room) (id other : String)
    → IsValid room
    → has_player (remove_player room id).0 other
      ≡ (if other == id then false else has_player room other)
unfolding remove_player has_player
has_player-remove_player room id other v =
    ground (arith, any_player-erase_player id other room.players v.distinct)

pub has_player-toggle_ready :
    (room : Room) (id other : String)
    → has_player (toggle_ready room id) other ≡ has_player room other
unfolding toggle_ready has_player
has_player-toggle_ready room id other =
    ground (arith, any_player-toggle_player id other room.players)

-- `addPlayer` succeeds exactly when a place is free, the player is new and the room is waiting.
pub add_player_iff :
    (room : Room) (id name : String)
    → ((add_player room id name).1 ≡ true) ↔ (
        (length room.players < room.max_players)
        × (has_player room id ≡ false)
        × (room.state ≡ waiting))
unfolding add_player
add_player_iff room id name = ground arith

-- Removing the id that was just added gives the room back; after a refused addition it is the
-- removal from the room as it was.
pub remove_player-add_player :
    (room : Room) (id name : String)
    → (remove_player (add_player room id name).0 id).0
      ≡ (if (add_player room id name).1 then room else (remove_player room id).0)
unfolding add_player remove_player any_player
remove_player-add_player room id name = ground (
  arith,
  any_player-append id room.players
      (record { player_id = id; player_name = name; is_ready = false; is_host = false } ∷ []),
  erase_player-append room.players
      (record { player_id = id; player_name = name; is_ready = false; is_host = false }),
)

-- Toggling twice restores the room, for the host and for any other id.
pub toggle_ready_twice : (room : Room) (id : String) → toggle_ready (toggle_ready room id) id ≡ room
unfolding toggle_ready
toggle_ready_twice room id = ground (arith, toggle_player_twice id room.players)

-- The game can start exactly when every entry that is not the host's is ready.
pub can_start_iff : (room : Room) → (can_start room ≡ true) ↔ AllReady room.players
unfolding can_start
can_start_iff room = all_ready_iff room.players

-- In a valid room the 32 bit count is the number of players, and at most the size.
pub player_count_lem :
    (room : Room)
    → IsValid room
    → (player_count room ≡ length room.players) × (player_count room ≤ room.max_players)
unfolding player_count
player_count_lem room v = (omega arith, omega arith)

pub mem_id-room : (room : Room) (id : String) → mem_id id (player_ids room) ≡ has_player room id
unfolding player_ids has_player
mem_id-room room id = mem_id-player_ids id room.players
