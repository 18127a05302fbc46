-- ===== src/RoomManager/Effects/Paging.antt =====
-- The pages of `handleRoomListRequest` of src/room/room/RoomManager.cpp.
use project_sos_backend.Room.{Room, to_room_summary}
use project_sos_backend.RoomManager.Listing.{clamp_page_size, page_loop, room_page}
use project_sos_backend.Base.{
  ℕ, zero, suc, ◌+◌, ◌*◌, ◌%◌, ◌^◌, ◌≤◌, ◌<◌, ◌≡◌, refl, none, some, List, [], ◌∷◌, map, length,
  get_elem?, take, drop, le_or_lt, inl, inr, arith,
}

-- The rooms of a list from place `i` on, `n` at most.
abbrev pub slice : {A : Type 0} → ℕ → ℕ → List A → List A
slice i n xs = take n (drop i xs)

slice_step :
    {A : Type 0} (i n : ℕ) (xs : List A)
    → slice i (suc n) xs ≡ elim (get_elem? xs i) [ none ↦ [] | some x ↦ x ∷ slice (suc i) n xs ]
slice_step zero n [] = refl
slice_step zero n (x ∷ xs) = refl
slice_step (suc i) n [] = refl
slice_step (suc i) n (x ∷ xs) = slice_step i n xs

get_elem_some :
    {A : Type 0} (i : ℕ) (xs : List A) → i < length xs → (x : A) × (get_elem? xs i ≡ some x)
get_elem_some i [] h = elim h [ ]
get_elem_some zero (x ∷ xs) h = (x, refl)
get_elem_some (suc i) (x ∷ xs) h = get_elem_some i xs (omega arith)

drop_past : {A : Type 0} (i : ℕ) (xs : List A) → length xs ≤ i → drop i xs ≡ []
drop_past zero [] h = refl
drop_past zero (x ∷ xs) h = elim h [ ]
drop_past (suc i) [] h = refl
drop_past (suc i) (x ∷ xs) h = drop_past i xs (omega arith)

take_nil : {A : Type 0} (n : ℕ) → take {A = A} n [] ≡ []
take_nil zero = refl
take_nil (suc n) = refl

-- Enough rounds for the rest of the list.
page_loop-slice :
    (fuel i n limit : ℕ) (rooms : List Room)
    → length rooms < fuel + i
    → limit ≡ i + n
    → page_loop fuel i (length rooms) limit rooms ≡ map to_room_summary (slice i n rooms)
unfolding page_loop
page_loop-slice zero i n limit rooms h l =
    rw (drop_past i rooms (omega arith), take_nil {A = Room} n) refl
page_loop-slice (suc fuel) i zero limit rooms h l = ground arith
page_loop-slice (suc fuel) i (suc n) limit rooms h l = elim (le_or_lt (length rooms) i) [
  | inl past ↦ rw (drop_past i rooms past) (ground arith)
  | inr inside ↦
      let (x, e) = get_elem_some i rooms inside in
      let next : i + 1 ≡ suc i = omega arith in
      let rest = page_loop-slice fuel (suc i) n limit rooms (omega arith) (omega arith) in
      rw (slice_step i n rooms, e, next) (ground (arith, rest))
]

mod_small : (k : ℕ) → k < 2 ^ 32 → k % 2 ^ 32 ≡ k
mod_small k h = omega arith

page_at :
    (k size : ℕ) (rooms : List Room)
    → length rooms < 2 ^ 32
    → k + size < 2 ^ 32
    → page_loop
        (suc (length rooms % 2 ^ 32))
        (k % 2 ^ 32)
        (length rooms % 2 ^ 32)
        ((k % 2 ^ 32 + size) % 2 ^ 32)
        rooms
      ≡ map to_room_summary (slice k size rooms)
page_at k size rooms few small =
    rw (mod_small (length rooms) few, mod_small k (omega arith), mod_small (k + size) small)
      (page_loop-slice (suc (length rooms)) k size (k + size) rooms (omega arith) refl)

clamp_page_size_lem : (n : ℕ) → (1 ≤ clamp_page_size n) × (clamp_page_size n ≤ 100)
unfolding clamp_page_size
clamp_page_size_lem n = ground arith

-- While the end of the page is below 2 ^ 32, and there are fewer than 2 ^ 32 waiting rooms, a page
-- has the rooms from `page * size` on, `size` at most, where `size` is the clamped page size and
-- lies between 1 and 100; and the total is the number of the rooms.
pub room_page-slice :
    (page page_size : ℕ) (rooms : List Room)
    → length rooms < 2 ^ 32
    → page * clamp_page_size page_size + clamp_page_size page_size < 2 ^ 32
    → let size = clamp_page_size page_size in
      (room_page page page_size rooms
        ≡ (map to_room_summary (slice (page * size) size rooms), length rooms))
      × (1 ≤ size)
      × (size ≤ 100)
unfolding room_page
room_page-slice page page_size rooms few small =
    let size = clamp_page_size page_size in
    (
      ground (arith, page_at (page * size) size rooms few small, mod_small (length rooms) few),
      (clamp_page_size_lem page_size).0,
      (clamp_page_size_lem page_size).1,
    )
