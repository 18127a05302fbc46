-- ===== src/Room/Tests.antt =====
-- Rooms at concrete inputs.
use project_sos_backend.Room.{Room, new_room}
use project_sos_backend.Room.Laws.{IsValid, new_room-IsValid}
use project_sos_backend.Base.{arith}

-- A room of three places, made by Ann.
abbrev pub trio : Room
trio = new_room "r1" "trio" "ann" "Ann" 3

trio-IsValid : IsValid trio
trio-IsValid = new_room-IsValid "r1" "trio" "ann" "Ann" 3 (omega arith) (omega arith)
