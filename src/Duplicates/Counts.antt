-- ===== src/Duplicates/Counts.antt =====
-- `source_sizes_`: the counter of each source, where a counter at zero is erased.
use monero_solo_stratum.Common.{ℕ, ◌+◌, ◌-◌, ◌≤◌, ◌≡◌, some, arith, ◌==◌, if◌then◌else◌}
use monero_solo_stratum.Common.Map.{Map, nat_eq, lookup, lookup-insert, lookup-erase}
use monero_solo_stratum.Duplicates.{count_or, increment_source, decrement_source}

-- No stored counter is zero.
abbrev pub Positive : Map ℕ ℕ → Type 0
Positive m = (s n : ℕ) → lookup s m ≡ some n → 1 ≤ n

pub lookup-increment_source :
    (s t : ℕ) (m : Map ℕ ℕ)
    → lookup s (increment_source t m)
      ≡ (if t == s then some (count_or (lookup s m) + 1) else lookup s m)
unfolding increment_source
lookup-increment_source s t m = ground (arith, lookup-insert t s (count_or (lookup t m) + 1) m)

pub increment_source-Positive : (t : ℕ) (m : Map ℕ ℕ) → Positive m → Positive (increment_source t m)
increment_source-Positive t m h s n e = ground (arith, lookup-increment_source s t m, h s n)

pub count-decrement_source :
    (s t : ℕ) (m : Map ℕ ℕ)
    → count_or (lookup s (decrement_source t m))
      ≡ (if t == s then count_or (lookup s m) - 1 else count_or (lookup s m))
unfolding decrement_source
count-decrement_source s t m =
    ground (arith, lookup-erase t s m, lookup-insert t s (count_or (lookup t m) - 1) m)

pub decrement_source-Positive : (t : ℕ) (m : Map ℕ ℕ) → Positive m → Positive (decrement_source t m)
unfolding decrement_source
decrement_source-Positive t m h s n e = ground (
  arith,
  h s n,
  h t (count_or (lookup t m)),
  lookup-erase t s m,
  lookup-insert t s (count_or (lookup t m) - 1) m,
)
