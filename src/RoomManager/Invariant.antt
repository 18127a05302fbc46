-- ===== src/RoomManager/Invariant.antt =====
-- What always holds of the maps `rooms_` and `player_to_room_` of src/room/room/RoomManager.h, and
-- the rules by which a change of one room keeps it.
pub mod Entering
pub mod Leaving
pub mod Playing
use project_sos_backend.Room.{Room, RoomState, waiting, in_game, is_waiting, has_player}
use project_sos_backend.Room.Laws.{IsValid, SameSetup}
use project_sos_backend.RoomManager.State.{Server, Config, put}
use project_sos_backend.RoomManager.Frames.{SameBook}
use project_sos_backend.RoomManager.Game.{has_active_game}
use project_sos_backend.Base.{
  ℕ, suc, ◌+◌, ◌^◌, ◌≤◌, ◌<◌, ◌≡◌, ◌≢◌, refl, sym, ◌∙◌, String, Bool, true, false, Option, none,
  some, List, [], ◌∷◌, length, lookup, insert, erase, lookup-insert, lookup-erase, length-insert,
  length-erase, arith, ◌==◌, if◌then◌else◌,
}

abbrev pub Rooms : Type 0
Rooms = List (String × Room)

abbrev pub has_member : Option Room → String → Bool
has_member none p = false
has_member (some room) p = has_player room p

abbrev pub points_to : Option String → String → Bool
points_to none r = false
points_to (some s) r = r == s

-- A player is mapped to a room exactly when the room lists the player.
abbrev pub Agree : Rooms → (String → Option String) → Type 0
Agree rooms mapping = (p r : String) → has_member (lookup r rooms) p ≡ points_to (mapping p) r

-- A room stands under its own id, is valid and is no larger than the server allows.
pub record IsGood (limit : ℕ) (r : String) (room : Room) : Type 0 where
  pub keyed : room.room_id ≡ r
  pub valid : IsValid room
  pub limited : room.max_players ≤ limit

abbrev pub AllGood : ℕ → Rooms → Type 0
AllGood limit rooms = (r : String) (room : Room) → lookup r rooms ≡ some room → IsGood limit r room

-- At most one room is in game.
abbrev pub OneGame : Rooms → Type 0
OneGame rooms =
    (r s : String) (x y : Room)
    → lookup r rooms ≡ some x
    → lookup s rooms ≡ some y
    → x.state ≡ in_game
    → y.state ≡ in_game
    → r ≡ s

-- The UUIDs still to be drawn are no keys.
abbrev pub Fresh : (ℕ → String) → ℕ → Rooms → Type 0
Fresh uuid drawn rooms = (n : ℕ) → drawn ≤ n → lookup (uuid n) rooms ≡ none

pub record Limits : Type 0 where
  pub max_rooms : ℕ
  pub max_players_per_room : ℕ
  pub uuid : ℕ → String

pub record Inv (limits : Limits) (rooms : Rooms) (mapping : String → Option String) (drawn : ℕ)
    : Type 0 where
  pub agree : Agree rooms mapping
  pub good : AllGood limits.max_players_per_room rooms
  pub one_game : OneGame rooms
  pub bounded : length rooms ≤ limits.max_rooms
  pub fresh : Fresh limits.uuid drawn rooms

pub Inv-later :
    {limits : Limits} {rooms : Rooms} {mapping : String → Option String} {m n : ℕ}
    → m ≤ n
    → Inv limits rooms mapping m
    → Inv limits rooms mapping n
Inv-later h v = record {
  agree = v.agree;
  good = v.good;
  one_game = v.one_game;
  bounded = v.bounded;
  fresh = λ k l. v.fresh k (omega arith);
}

module _ (rooms : Rooms) (mapping : String → Option String) where
  pub Agree-insert :
      (r : String) (room : Room) (mapping' : String → Option String)
      → Agree rooms mapping
      → ((p : String) → has_player room p ≡ points_to (mapping' p) r)
      → ((p s : String) → s ≢ r → points_to (mapping' p) s ≡ points_to (mapping p) s)
      → Agree (insert r room rooms) mapping'
  Agree-insert r room mapping' a here there p s =
      rw (lookup-insert r s room rooms) (ground (arith, a p s, here p, there p s))

  pub Agree-erase :
      (r : String) (mapping' : String → Option String)
      → Agree rooms mapping
      → ((p : String) → points_to (mapping' p) r ≡ false)
      → ((p s : String) → s ≢ r → points_to (mapping' p) s ≡ points_to (mapping p) s)
      → Agree (erase r rooms) mapping'
  Agree-erase r mapping' a here there p s =
      rw (lookup-erase r s rooms) (ground (arith, a p s, here p, there p s))

module _ (rooms : Rooms) where
  pub AllGood-insert :
      (limit : ℕ) (r : String) (room : Room)
      → AllGood limit rooms
      → IsGood limit r room
      → AllGood limit (insert r room rooms)
  AllGood-insert limit r room all g s x e =
      let e' = rw (lookup-insert r s room rooms) at e in ground (arith, all s x)

  pub AllGood-erase : (limit : ℕ) (r : String) → AllGood limit rooms → AllGood limit (erase r rooms)
  AllGood-erase limit r all s x e =
      let e' = rw (lookup-erase r s rooms) at e in ground (arith, all s x)

  pub OneGame-insert :
      (r : String) (room : Room)
      → OneGame rooms
      → ((s : String) (y : Room)
          → room.state ≡ in_game
          → lookup s rooms ≡ some y
          → y.state ≡ in_game
          → s ≡ r)
      → OneGame (insert r room rooms)
  OneGame-insert r room one only s t x y e f =
      let e' = rw (lookup-insert r s room rooms) at e in
      let f' = rw (lookup-insert r t room rooms) at f in
      ground (arith, one s t x y, only s x, only t y)

  pub OneGame-erase : (r : String) → OneGame rooms → OneGame (erase r rooms)
  OneGame-erase r one s t x y e f =
      let e' = rw (lookup-erase r s rooms) at e in
      let f' = rw (lookup-erase r t rooms) at f in ground (arith, one s t x y)

  pub Fresh-insert :
      (uuid : ℕ → String) (drawn : ℕ) (r : String) (room : Room)
      → Fresh uuid drawn rooms
      → ((n : ℕ) → drawn ≤ n → uuid n ≢ r)
      → Fresh uuid drawn (insert r room rooms)
  Fresh-insert uuid drawn r room f new n h =
      rw (lookup-insert r (uuid n) room rooms) (ground (arith, f n h, new n h))

  pub Fresh-erase :
      (uuid : ℕ → String) (drawn : ℕ) (r : String)
      → Fresh uuid drawn rooms
      → Fresh uuid drawn (erase r rooms)
  Fresh-erase uuid drawn r f n h = rw (lookup-erase r (uuid n) rooms) (ground (arith, f n h))

pub has_active_game-lookup :
    (rooms : Rooms) (s : String) (y : Room)
    → has_active_game rooms ≡ false
    → lookup s rooms ≡ some y
    → is_waiting y.state ≡ true
unfolding has_active_game lookup
has_active_game-lookup [] s y h e = cc
has_active_game-lookup ((r, x) ∷ rooms) s y h e = ground (arith, has_active_game-lookup rooms s y)

module _ {limits : Limits} {rooms : Rooms} {mapping : String → Option String} {drawn : ℕ}
    (v : Inv limits rooms mapping drawn) where
  -- A room that is there already takes a new value: which players it has may change with the map.
  pub Inv-update :
      (r : String) (old room : Room) (mapping' : String → Option String)
      → lookup r rooms ≡ some old
      → IsValid room
      → SameSetup old room
      → ((p : String) → has_player room p ≡ points_to (mapping' p) r)
      → ((p s : String) → s ≢ r → points_to (mapping' p) s ≡ points_to (mapping p) s)
      → Inv limits (insert r room rooms) mapping' drawn
  Inv-update r old room mapping' e valid same here there =
      let g = v.good r old e in
      record {
        agree = Agree-insert rooms mapping r room mapping' v.agree here there;
        good = AllGood-insert rooms limits.max_players_per_room r room v.good (record {
          keyed = same.room_id ∙ g.keyed;
          valid = valid;
          limited = rw same.max_players g.limited;
        });
        one_game =
            OneGame-insert rooms r room v.one_game
              (λ s y h f k. v.one_game s r y old f e k (sym same.state ∙ h));
        bounded = rw (length-insert r room rooms, e) v.bounded;
        fresh = Fresh-insert rooms limits.uuid drawn r room v.fresh (λ n h k. cc (v.fresh n h));
      }

  -- A room goes, and with it all that pointed to it.
  pub Inv-erase :
      (r : String) (mapping' : String → Option String)
      → ((p : String) → points_to (mapping' p) r ≡ false)
      → ((p s : String) → s ≢ r → points_to (mapping' p) s ≡ points_to (mapping p) s)
      → Inv limits (erase r rooms) mapping' drawn
  Inv-erase r mapping' here there = record {
    agree = Agree-erase rooms mapping r mapping' v.agree here there;
    good = AllGood-erase rooms limits.max_players_per_room r v.good;
    one_game = OneGame-erase rooms r v.one_game;
    bounded = omega (arith, length-erase r rooms);
    fresh = Fresh-erase rooms limits.uuid drawn r v.fresh;
  }

  -- A new room, with one player, takes the next UUID for its key.
  pub Inv-add :
      (room : Room) (id : String)
      → ((m n : ℕ) → limits.uuid m ≡ limits.uuid n → m ≡ n)
      → mapping id ≡ none
      → length rooms < limits.max_rooms
      → IsGood limits.max_players_per_room (limits.uuid drawn) room
      → room.state ≡ waiting
      → ((p : String) → has_player room p ≡ (id == p))
      → Inv limits
          (insert (limits.uuid drawn) room rooms)
          (put id (limits.uuid drawn) mapping)
          (suc drawn)
  Inv-add room id distinct out space g still member =
      let r = limits.uuid drawn in
      let new : lookup r rooms ≡ none = v.fresh drawn (omega arith) in
      record {
        agree =
            Agree-insert rooms mapping r room (put id r mapping) v.agree
              (λ p. ground (arith, member p, v.agree p r, new))
              (λ p s ne. ground (arith, v.agree id s));
        good = AllGood-insert rooms limits.max_players_per_room r room v.good g;
        one_game = OneGame-insert rooms r room v.one_game (λ s y h f k. cc);
        bounded = rw (length-insert r room rooms, new) space;
        fresh =
            Fresh-insert rooms limits.uuid (suc drawn) r room (λ n h. v.fresh n (omega arith))
              (λ n h k. absurd (omega (arith, distinct n drawn k)));
      }

module _ {S : Type 0} where
  abbrev pub limits_of : Config S → Limits
  limits_of config = record {
    max_rooms = config.max_rooms;
    max_players_per_room = config.max_players_per_room;
    uuid = config.uuid;
  }

  -- The invariant of a server's state.
  abbrev pub Holds : Config S → Server S → Type 0
  Holds config w = Inv (limits_of config) w.rooms w.player_to_room w.io.drawn

  -- UUIDs do not repeat, and the limit on players is a `uint32_t`.
  pub record IsSane (config : Config S) : Type 0 where
    pub distinct : (m n : ℕ) → config.uuid m ≡ config.uuid n → m ≡ n
    pub word : config.max_players_per_room < 2 ^ 32

  pub Holds-SameBook :
      (config : Config S) {v w : Server S} → SameBook v w → Holds config v → Holds config w
  Holds-SameBook config same h = rw (same.rooms, same.mapping, same.drawn) h
