-- ===== src/Mailbox.antt =====
-- src/verifier/completion_mailbox.cpp and include/monero_solo/verifier_mailbox.hpp: slots for the
-- completions of the verifier, a slot per waiter.
pub mod Delivery
pub mod Capacity
mod Examples
use monero_solo_stratum.Common.{
  ℕ, Bool, true, false, not, ◌&&◌, ◌||◌, Option, none, some, List, [], ◌∷◌, leb, ◌==◌,
  if◌then◌else◌,
}
use monero_solo_stratum.Common.Map.{Map, nat_eq, lookup, insert, erase, size}

-- A completion, read by its tag only.
pub record Completion (C : Type 0) : Type 0 where
  pub user_tag : ℕ
  pub payload : C

pub record CompletionMailbox (C : Type 0) : Type 0 where
  pub capacity : ℕ
  pub slots : Map ℕ (Option (Completion C))
  pub closed : Bool

module _ {C : Type 0} where
  -- The constructor; `none` is `std::invalid_argument`.
  unfoldable pub make_mailbox : ℕ → Option (CompletionMailbox C)
  make_mailbox capacity =
      if capacity == 0
      then none
      else some (record { capacity = capacity; slots = []; closed = true })

  -- `none` is `std::logic_error`.
  unfoldable pub open_mailbox : CompletionMailbox C → Option (CompletionMailbox C)
  unfolding size
  open_mailbox m = if not (size m.slots == 0) then none else some (record m { closed = false })

  unfoldable pub close : CompletionMailbox C → CompletionMailbox C
  close m = record m { closed = true; slots = [] }

  unfoldable pub register_waiter : ℕ → CompletionMailbox C → CompletionMailbox C × Bool
  unfolding lookup insert size
  register_waiter user_tag m =
      if m.closed || leb m.capacity (size m.slots)
      then (m, false)
      else elim (lookup user_tag m.slots) [
        | some slot ↦ (m, false)
        | none ↦ (record m { slots = insert user_tag none m.slots }, true)
      ]

  unfoldable pub cancel : ℕ → CompletionMailbox C → CompletionMailbox C
  unfolding erase
  cancel user_tag m = record m { slots = erase user_tag m.slots }

  -- A slot takes a result while it has none and the mailbox is open.
  abbrev pub takes_result : Bool → Option (Option (Completion C)) → Bool
  takes_result true found = false
  takes_result false none = false
  takes_result false (some none) = true
  takes_result false (some (some completion)) = false

  unfoldable pub publish : Completion C → CompletionMailbox C → CompletionMailbox C × Bool
  unfolding lookup insert
  publish completion m =
      if takes_result m.closed (lookup completion.user_tag m.slots)
      then (record m { slots = insert completion.user_tag (some completion) m.slots }, true)
      else (m, false)

  -- What a waiter waits for.
  abbrev pub is_ready_slot : Option (Option (Completion C)) → Bool
  is_ready_slot none = true
  is_ready_slot (some none) = false
  is_ready_slot (some (some completion)) = true

  unfoldable pub is_ready : ℕ → CompletionMailbox C → Bool
  unfolding lookup
  is_ready user_tag m = m.closed || is_ready_slot (lookup user_tag m.slots)

  -- What `wait` does once the waiter is ready, or its time has run out: `finished` is what the
  -- condition says then.
  unfoldable pub end_wait :
      ℕ → Bool → CompletionMailbox C → CompletionMailbox C × Option (Completion C)
  unfolding lookup erase
  end_wait user_tag finished m = elim (lookup user_tag m.slots) [
    | none ↦ (m, none)
    | some none ↦ (record m { slots = erase user_tag m.slots }, none)
    | some (some result) ↦
        (record m { slots = erase user_tag m.slots }, (if finished then some result else none))
  ]

  -- `wait` with a time limit, at the moment it stops waiting.
  unfoldable pub wait_for : ℕ → CompletionMailbox C → CompletionMailbox C × Option (Completion C)
  unfolding is_ready end_wait
  wait_for user_tag m = end_wait user_tag (is_ready user_tag m) m

  -- `wait` without one returns only when the waiter is ready; before, there is no step.
  unfoldable pub wait :
      ℕ → CompletionMailbox C → Option (CompletionMailbox C × Option (Completion C))
  unfolding is_ready end_wait
  wait user_tag m = if is_ready user_tag m then some (end_wait user_tag true m) else none
