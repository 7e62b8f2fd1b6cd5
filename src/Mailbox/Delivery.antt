-- ===== src/Mailbox/Delivery.antt =====
-- src/verifier/completion_mailbox.cpp: a delivered completion reaches its waiter. Each operation
-- holds the mailbox's lock, so that concurrent calls are a list.
use monero_solo_stratum.Common.{
  ℕ, ◌≡◌, ◌≢◌, inl, inr, true, Option, none, some, List, [], ◌∷◌, All, arith, Option-cases, ==_iff,
}
use monero_solo_stratum.Common.Map.{nat_eq, lookup, lookup-insert, lookup-erase}
use monero_solo_stratum.Mailbox.{
  Completion, CompletionMailbox, open_mailbox, close, register_waiter, cancel, publish, is_ready,
  end_wait, wait_for, wait,
}

pub data Call (C : Type 0) : Type 0 where
  opens closes : Call C
  registers cancels waits : ℕ → Call C
  publishes : Completion C → Call C

module _ {C : Type 0} where
  abbrev pub or_same : CompletionMailbox C → Option (CompletionMailbox C) → CompletionMailbox C
  or_same m none = m
  or_same m (some m') = m'

  unfoldable pub step : Call C → CompletionMailbox C → CompletionMailbox C
  unfolding open_mailbox close register_waiter cancel publish wait_for
  step opens m = or_same m (open_mailbox m)
  step closes m = close m
  step (registers t) m = (register_waiter t m).0
  step (cancels t) m = cancel t m
  step (waits t) m = (wait_for t m).0
  step (publishes c) m = (publish c m).0

  unfoldable pub run : List (Call C) → CompletionMailbox C → CompletionMailbox C
  unfolding step
  run [] m = m
  run (call ∷ rest) m = run rest (step call m)

  -- The call is not one that takes the slot of the tag away.
  abbrev pub Spares : ℕ → Call C → Type 0
  Spares t opens = Unit {0}
  Spares t closes = ⊥
  Spares t (registers u) = Unit
  Spares t (cancels u) = u ≢ t
  Spares t (waits u) = u ≢ t
  Spares t (publishes c) = Unit

  step_keeps :
      (t : ℕ) (c : Completion C) (call : Call C) (m : CompletionMailbox C)
      → Spares t call
      → lookup t m.slots ≡ some (some c)
      → lookup t (step call m).slots ≡ some (some c)
  unfolding step open_mailbox close register_waiter cancel publish wait_for end_wait
  step_keeps t c opens m spares h = ground arith
  step_keeps t c closes m spares h = absurd spares
  step_keeps t c (registers u) m spares h = elim (Option-cases (lookup u m.slots)) [
    | inr (slot, e) ↦ ground (arith, e)
    | inl e ↦ ground (arith, e, ==_iff u t, lookup-insert u t none m.slots)
  ]
  step_keeps t c (cancels u) m spares h =
      ground (arith, spares, ==_iff u t, lookup-erase u t m.slots)
  step_keeps t c (waits u) m spares h = ground (arith, spares, ==_iff u t, lookup-erase u t m.slots)
  step_keeps t c (publishes d) m spares h =
      ground (arith, ==_iff d.user_tag t, lookup-insert d.user_tag t (some d) m.slots)

  run_keeps :
      (t : ℕ) (c : Completion C) (calls : List (Call C)) (m : CompletionMailbox C)
      → All (Spares t) calls
      → lookup t m.slots ≡ some (some c)
      → lookup t (run calls m).slots ≡ some (some c)
  unfolding run
  run_keeps t c [] m spares h = h
  run_keeps t c (call ∷ rest) m spares h =
      run_keeps t c rest (step call m) spares.1 (step_keeps t c call m spares.0 h)

  publish_stores :
      (c : Completion C) (m : CompletionMailbox C)
      → (publish c m).1 ≡ true
      → lookup c.user_tag (publish c m).0.slots ≡ some (some c)
  unfolding publish
  publish_stores c m h =
      ground
        (arith, ==_iff c.user_tag c.user_tag, lookup-insert c.user_tag c.user_tag (some c) m.slots)

  wait_stored :
      (t : ℕ) (c : Completion C) (m : CompletionMailbox C)
      → lookup t m.slots ≡ some (some c)
      → ((wait_for t m).1 ≡ some c)
        × (wait t m ≡ some (wait_for t m))
        × (lookup t (wait_for t m).0.slots ≡ none)
  unfolding wait_for wait is_ready end_wait
  wait_stored t c m h = ground (arith, h, ==_iff t t, lookup-erase t t m.slots)

  -- Once the mailbox has taken a completion, its waiter gets exactly that completion, with a time
  -- limit or without one, whatever calls come in between that do not close the mailbox, cancel the
  -- waiter or wait in its place; further completions under the tag change nothing, and the slot is
  -- gone afterwards.
  pub publish_delivers :
      (c : Completion C) (m : CompletionMailbox C) (calls : List (Call C))
      → (publish c m).1 ≡ true
      → All (Spares c.user_tag) calls
      → let after = run calls (publish c m).0 in
        ((wait_for c.user_tag after).1 ≡ some c)
        × (wait c.user_tag after ≡ some (wait_for c.user_tag after))
        × (lookup c.user_tag (wait_for c.user_tag after).0.slots ≡ none)
  publish_delivers c m calls taken spares =
      wait_stored c.user_tag c (run calls (publish c m).0)
        (run_keeps c.user_tag c calls (publish c m).0 spares (publish_stores c m taken))
