-- ===== src/Mailbox/Examples.antt =====
-- The mailbox at concrete calls.
use monero_solo_stratum.Common.{ℕ, ◌≡◌, refl, true, false, none, some, List, [], ◌∷◌, All, arith}
use monero_solo_stratum.Common.Map.{nat_eq, lookup}
use monero_solo_stratum.Mailbox.{
  Completion, CompletionMailbox, make_mailbox, publish, wait_for, wait,
}
use monero_solo_stratum.Mailbox.Delivery.{
  Call, run, opens, registers, waits, publishes, Spares, publish_delivers,
}
use monero_solo_stratum.Mailbox.Capacity.{IsBounded, run-make_mailbox-IsBounded}

abbrev result : Completion ℕ
result = record { user_tag = 7; payload = 70 }

abbrev late : Completion ℕ
late = record { user_tag = 7; payload = 71 }

-- Open, with one waiter.
abbrev waiting : CompletionMailbox ℕ
waiting = record { capacity = 2; slots = (7, none) ∷ []; closed = false }

abbrev others : List (Call ℕ)
others = registers 8 ∷ publishes late ∷ waits 8 ∷ []

result_taken : (publish result waiting).1 ≡ true
unfolding publish
result_taken = refl

others_spare : All (Spares 7) others
others_spare = ground arith

publish_delivers_example :
    let after = run others (publish result waiting).0 in
    ((wait_for 7 after).1 ≡ some result)
    × (wait 7 after ≡ some (wait_for 7 after))
    × (lookup 7 (wait_for 7 after).0.slots ≡ none)
publish_delivers_example = publish_delivers result waiting others result_taken others_spare

abbrev empty : CompletionMailbox ℕ
empty = record { capacity = 2; slots = []; closed = true }

empty_made : make_mailbox 2 ≡ some empty
unfolding make_mailbox
empty_made = refl

run-make_mailbox-IsBounded_example : IsBounded (run (opens ∷ registers 7 ∷ others) empty)
run-make_mailbox-IsBounded_example =
    run-make_mailbox-IsBounded 2 empty (opens ∷ registers 7 ∷ others) empty_made
