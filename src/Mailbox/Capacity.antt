-- ===== src/Mailbox/Capacity.antt =====
-- src/verifier/completion_mailbox.cpp: the mailbox is bounded, and a closed one is empty.
use monero_solo_stratum.Common.{
  ℕ, ◌≡◌, ◌≤◌, inl, inr, Bool, true, none, some, List, [], ◌∷◌, arith, Option-cases,
}
use monero_solo_stratum.Common.Map.{
  nat_eq, lookup, size, size-insert_new, size-insert_old, size-erase_le,
}
use monero_solo_stratum.Mailbox.{
  Completion, CompletionMailbox, make_mailbox, open_mailbox, close, register_waiter, cancel,
  publish, is_ready, end_wait, wait_for,
}
use monero_solo_stratum.Mailbox.Delivery.{
  Call, step, run, opens, closes, registers, cancels, waits, publishes,
}

module _ {C : Type 0} where
  -- At most the capacity of slots, and none while closed.
  abbrev pub IsBounded : CompletionMailbox C → Type 0
  IsBounded m = (size m.slots ≤ m.capacity) × (m.closed ≡ true → size m.slots ≡ 0)

  end_wait-IsBounded :
      (t : ℕ) (finished : Bool) (m : CompletionMailbox C)
      → IsBounded m
      → IsBounded (end_wait t finished m).0
  unfolding end_wait
  end_wait-IsBounded t finished m h = ground (arith, h.0, h.1, size-erase_le t m.slots)

  register_waiter-IsBounded :
      (t : ℕ) (m : CompletionMailbox C) → IsBounded m → IsBounded (register_waiter t m).0
  unfolding register_waiter
  register_waiter-IsBounded t m h = ground (arith, h.0, h.1, size-insert_new t none m.slots)

  publish-IsBounded :
      (c : Completion C) (m : CompletionMailbox C) → IsBounded m → IsBounded (publish c m).0
  unfolding publish
  publish-IsBounded c m h = elim (Option-cases (lookup c.user_tag m.slots)) [
    | inl e ↦ ground (arith, e, h.0, h.1)
    | inr (slot, e) ↦
        ground (arith, e, h.0, h.1, size-insert_old c.user_tag (some c) slot m.slots e)
  ]

  step-IsBounded : (call : Call C) (m : CompletionMailbox C) → IsBounded m → IsBounded (step call m)
  unfolding step open_mailbox close cancel wait_for size
  step-IsBounded opens m h = ground (arith, h.0, h.1)
  step-IsBounded closes m h = ground arith
  step-IsBounded (registers t) m h = register_waiter-IsBounded t m h
  step-IsBounded (cancels t) m h = ground (arith, h.0, h.1, size-erase_le t m.slots)
  step-IsBounded (waits t) m h = end_wait-IsBounded t (is_ready t m) m h
  step-IsBounded (publishes c) m h = publish-IsBounded c m h

  run-IsBounded :
      (calls : List (Call C)) (m : CompletionMailbox C) → IsBounded m → IsBounded (run calls m)
  unfolding run
  run-IsBounded [] m h = h
  run-IsBounded (call ∷ rest) m h = run-IsBounded rest (step call m) (step-IsBounded call m h)

  make_mailbox-IsBounded : (n : ℕ) (m : CompletionMailbox C) → make_mailbox n ≡ some m → IsBounded m
  unfolding make_mailbox size
  make_mailbox-IsBounded n m made = ground arith

  -- A mailbox that the constructor accepts has, after any calls, at most its capacity of slots, and
  -- none while it is closed.
  pub run-make_mailbox-IsBounded :
      (n : ℕ) (m : CompletionMailbox C) (calls : List (Call C))
      → make_mailbox n ≡ some m
      → IsBounded (run calls m)
  run-make_mailbox-IsBounded n m calls made =
      run-IsBounded calls m (make_mailbox-IsBounded n m made)
