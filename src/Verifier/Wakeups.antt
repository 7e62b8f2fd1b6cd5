-- ===== src/Verifier/Wakeups.antt =====
-- src/verifier/verifier.cpp: the flag that coalesces wake-ups, and the callbacks, which take no lock.
use monero_solo_stratum.Common.{ℕ, ◌+◌, ◌%◌, Bool, true, false, Option, none, some}
use monero_solo_stratum.Common.Word.{u64_mod}

record Wakeups : Type 0 where
  pub wake_pending : Bool
  pub callback_exceptions : ℕ

-- A callback is `none` when the configuration has none, and otherwise whether it returns.
abbrev called_back : Option Bool → Wakeups → Wakeups
called_back none w = w
called_back (some true) w = w
called_back (some false) w = record w {
  callback_exceptions = (w.callback_exceptions + 1) % u64_mod;
}

unfoldable native_notify : Option Bool → Wakeups → Wakeups
native_notify wake w = called_back wake (record w { wake_pending = true })

unfoldable native_log : Option Bool → Wakeups → Wakeups
native_log log w = called_back log w

unfoldable consume_wakeup : Wakeups → Wakeups × Bool
consume_wakeup w = (record w { wake_pending = false }, w.wake_pending)

-- What `drain_completions` does before it polls.
unfoldable begin_drain : Wakeups → Wakeups
begin_drain w = record w { wake_pending = false }
