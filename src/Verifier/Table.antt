-- ===== src/Verifier/Table.antt =====
-- src/verifier/verifier.cpp: the table of outstanding submissions, with open addressing and
-- tombstones. A loop over the table has the table's size as its fuel, as in the source.
use Prim.Native.Nat.{bit_and, bit_xor}
use monero_solo_stratum.Common.{
  ℕ, zero, suc, ◌+◌, ◌-◌, ◌*◌, ◌/◌, ◌%◌, ◌^◌, max, Bool, true, false, List, ltb, ◌==◌,
  if◌then◌else◌, length, get_or,
}
use monero_solo_stratum.Common.Word.{u64_mod}

pub data SubmissionKind : Type 0 where
  verify_claim : SubmissionKind
  hash_only : SubmissionKind

pub data SlotState : Type 0 where
  empty : SlotState
  occupied : SlotState
  tombstone : SlotState

pub record SubmissionSlot : Type 0 where
  pub state : SlotState
  pub user_tag : ℕ
  pub ticket : ℕ
  pub seed_id : ℕ
  pub kind : SubmissionKind

-- A default-initialised slot.
abbrev pub blank : SubmissionSlot
blank = record { state = empty; user_tag = 0; ticket = 0; seed_id = 0; kind = verify_claim }

-- `while (result < wanted) { result <<= 1; }`.
unfoldable pub doubling : ℕ → ℕ → ℕ → ℕ
doubling zero wanted result = result
doubling (suc fuel) wanted result =
    let more = doubling fuel wanted (result * 2) in if ltb result wanted then more else result

-- More rounds than the number of bits of any table are not made.
unfoldable pub submission_table_size : ℕ → ℕ
unfolding doubling
submission_table_size max_outstanding =
    let wanted = max 8 (max_outstanding * 2) in doubling wanted wanted 1

unfoldable pub mix64 : ℕ → ℕ
mix64 value =
    let a = (value + 0x9e3779b97f4a7c15) % u64_mod in
    let b = bit_xor a (a / 2 ^ 30) * 0xbf58476d1ce4e5b9 % u64_mod in
    let c = bit_xor b (b / 2 ^ 27) * 0x94d049bb133111eb % u64_mod in bit_xor c (c / 2 ^ 31)

abbrev pub slot_at : List SubmissionSlot → ℕ → SubmissionSlot
slot_at slots index = get_or slots index blank

abbrev pub first_index : List SubmissionSlot → ℕ → ℕ
first_index slots user_tag = bit_and (mix64 user_tag) (length slots - 1)

abbrev pub next_index : List SubmissionSlot → ℕ → ℕ
next_index slots index = bit_and (index + 1) (length slots - 1)

-- What the search does at a slot: it ends, at the slot or without one, or goes on.
pub data Look : Type 0 where
  absent : Look
  here : Look
  further : Look

abbrev pub look : SlotState → Bool → Look
look empty same = absent
look occupied true = here
look occupied false = further
look tombstone same = further

unfoldable pub find_loop : List SubmissionSlot → ℕ → ℕ → ℕ → ℕ
find_loop slots user_tag zero index = length slots
find_loop slots user_tag (suc left) index =
    let slot = slot_at slots index in
    elim (look slot.state (slot.user_tag == user_tag)) [
      | absent ↦ length slots
      | here ↦ index
      | further ↦ find_loop slots user_tag left (next_index slots index)
    ]

-- The size of the table where there is no such slot.
unfoldable pub find_submission_slot_locked : List SubmissionSlot → ℕ → ℕ
unfolding find_loop mix64
find_submission_slot_locked slots user_tag =
    find_loop slots user_tag (length slots) (first_index slots user_tag)

unfoldable pub insert_loop : List SubmissionSlot → ℕ → ℕ → ℕ → ℕ → ℕ × Bool
insert_loop slots user_tag zero index first_tombstone = (first_tombstone, false)
insert_loop slots user_tag (suc left) index first_tombstone =
    let slot = slot_at slots index in
    let none_yet = first_tombstone == length slots in
    elim slot.state [
      | occupied ↦
          let more = insert_loop slots user_tag left (next_index slots index) first_tombstone in
          if slot.user_tag == user_tag then (index, true) else more
      | tombstone ↦
          insert_loop slots user_tag left (next_index slots index)
            (if none_yet then index else first_tombstone)
      | empty ↦ ((if none_yet then index else first_tombstone), false)
    ]

-- The place for a tag, and whether the tag stands there already.
unfoldable pub find_submission_insert_slot_locked : List SubmissionSlot → ℕ → ℕ × Bool
unfolding insert_loop mix64
find_submission_insert_slot_locked slots user_tag =
    insert_loop slots user_tag (length slots) (first_index slots user_tag) (length slots)

-- What `erase_submission_slot_locked` writes to the slot.
abbrev pub erased : SubmissionSlot
erased = record { state = tombstone; user_tag = 0; ticket = 0; seed_id = 0; kind = verify_claim }
