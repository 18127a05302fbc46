-- ===== src/Room/Players.antt =====
-- The vector `players_` of src/room/room/Room.h, and the searches that Room.cpp makes in it by
-- `std::any_of` and `std::find_if`.
use project_sos_backend.Base.{
  suc, String, ◌≡◌, refl, Bool, true, false, not, ◌&&◌, ◌||◌, ◌↔◌, List, [], ◌∷◌, ◌++◌, map, length,
  arith, ◌==◌, if◌then◌else◌,
}

pub record PlayerData : Type 0 where
  pub player_id : String
  pub player_name : String
  pub is_ready : Bool
  pub is_host : Bool

unfoldable pub any_player : String → List PlayerData → Bool
any_player id [] = false
any_player id (p ∷ ps) = p.player_id == id || any_player id ps

-- `erase` at the first match.
unfoldable pub erase_player : String → List PlayerData → List PlayerData
erase_player id [] = []
erase_player id (p ∷ ps) = if p.player_id == id then ps else p ∷ erase_player id ps

-- `it->is_ready = !it->is_ready` at the first match.
unfoldable pub toggle_player : String → List PlayerData → List PlayerData
toggle_player id [] = []
toggle_player id (p ∷ ps) =
    if p.player_id == id
    then record p { is_ready = not p.is_ready } ∷ ps
    else p ∷ toggle_player id ps

-- The loop of `canStart`.
unfoldable pub all_ready : List PlayerData → Bool
all_ready [] = true
all_ready (p ∷ ps) = if not p.is_host && not p.is_ready then false else all_ready ps

-- No two players have one id.
abbrev pub Distinct : List PlayerData → Type 0
Distinct [] = Unit
Distinct (p ∷ ps) = (any_player p.player_id ps ≡ false) × Distinct ps

-- Each player is the host's entry or is ready.
abbrev pub AllReady : List PlayerData → Type 0
AllReady [] = Unit
AllReady (p ∷ ps) = ((p.is_host || p.is_ready) ≡ true) × AllReady ps

pub any_player-append :
    (id : String) (ps qs : List PlayerData)
    → any_player id (ps ++ qs) ≡ (any_player id ps || any_player id qs)
unfolding any_player
any_player-append id [] qs = refl
any_player-append id (p ∷ ps) qs = ground (arith, any_player-append id ps qs)

pub Distinct-append :
    (ps : List PlayerData) (p : PlayerData)
    → Distinct ps
    → any_player p.player_id ps ≡ false
    → Distinct (ps ++ p ∷ [])
unfolding any_player
Distinct-append [] p d h = (refl, tt)
Distinct-append (q ∷ ps) p d h =
    ground (arith, any_player-append q.player_id ps (p ∷ []), Distinct-append ps p d.1)

pub any_player-erase_player :
    (id other : String) (ps : List PlayerData)
    → Distinct ps
    → any_player other (erase_player id ps) ≡ (if other == id then false else any_player other ps)
unfolding any_player erase_player
any_player-erase_player id other [] d = ground arith
any_player-erase_player id other (p ∷ ps) d =
    ground (arith, any_player-erase_player id other ps d.1)

pub Distinct-erase_player :
    (id : String) (ps : List PlayerData) → Distinct ps → Distinct (erase_player id ps)
unfolding any_player erase_player
Distinct-erase_player id [] d = tt
Distinct-erase_player id (p ∷ ps) d =
    ground (arith, any_player-erase_player id p.player_id ps d.1, Distinct-erase_player id ps d.1)

pub length-erase_player :
    (id : String) (ps : List PlayerData)
    → any_player id ps ≡ true
    → suc (length (erase_player id ps)) ≡ length ps
unfolding any_player erase_player
length-erase_player id [] h = cc
length-erase_player id (p ∷ ps) h = ground (arith, length-erase_player id ps)

pub erase_player-append :
    (ps : List PlayerData) (p : PlayerData)
    → any_player p.player_id ps ≡ false
    → erase_player p.player_id (ps ++ p ∷ []) ≡ ps
unfolding any_player erase_player
erase_player-append [] p h = ground arith
erase_player-append (q ∷ ps) p h = ground (arith, erase_player-append ps p)

pub any_player-toggle_player :
    (id other : String) (ps : List PlayerData)
    → any_player other (toggle_player id ps) ≡ any_player other ps
unfolding any_player toggle_player
any_player-toggle_player id other [] = refl
any_player-toggle_player id other (p ∷ ps) = ground (arith, any_player-toggle_player id other ps)

pub Distinct-toggle_player :
    (id : String) (ps : List PlayerData) → Distinct ps → Distinct (toggle_player id ps)
unfolding toggle_player
Distinct-toggle_player id [] d = tt
Distinct-toggle_player id (p ∷ ps) d =
    ground (arith, any_player-toggle_player id p.player_id ps, Distinct-toggle_player id ps d.1)

pub length-toggle_player :
    (id : String) (ps : List PlayerData) → length (toggle_player id ps) ≡ length ps
unfolding toggle_player
length-toggle_player id [] = refl
length-toggle_player id (p ∷ ps) = ground (arith, length-toggle_player id ps)

pub toggle_player_twice :
    (id : String) (ps : List PlayerData) → toggle_player id (toggle_player id ps) ≡ ps
unfolding toggle_player
toggle_player_twice id [] = refl
toggle_player_twice id (p ∷ ps) = ground (arith, toggle_player_twice id ps)

pub all_ready_iff : (ps : List PlayerData) → (all_ready ps ≡ true) ↔ AllReady ps
unfolding all_ready
all_ready_iff [] = (λ _. tt, λ _. refl)
all_ready_iff (p ∷ ps) = ground (arith, all_ready_iff ps)

-- Membership of an id in the list that `playerIds` returns.
unfoldable pub mem_id : String → List String → Bool
mem_id id [] = false
mem_id id (x ∷ xs) = x == id || mem_id id xs

pub mem_id-player_ids :
    (id : String) (ps : List PlayerData)
    → mem_id id (map (λ (p : PlayerData). p.player_id) ps) ≡ any_player id ps
unfolding mem_id any_player
mem_id-player_ids id [] = refl
mem_id-player_ids id (p ∷ ps) = ground (arith, mem_id-player_ids id ps)
