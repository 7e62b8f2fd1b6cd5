-- ===== src/Duplicates/Tokens.antt =====
-- How long a token is good: generations grow, so a released token stays dead.
use monero_solo_stratum.Common.{
  ℕ, ◌+◌, ◌≤◌, ◌<◌, ◌≡◌, refl, inl, inr, Bool, true, false, Option, none, some, List, [], ◌∷◌,
  arith, ◌==◌, Bool-cases, Option-cases, length, All,
}
use monero_solo_stratum.Common.Map.{nat_eq, pair_eq, lookup, lookup-insert, lookup-erase}
use monero_solo_stratum.Common.Word.{u64_mod}
use monero_solo_stratum.Duplicates.{
  DuplicateRegistry, DuplicateToken, Entry, bucket_or, retain_height, retire_height, release_height,
  collect_bucket, collect_keys, collect_key, reserve, release, add_entry, remove_entry,
  this_generation,
}
use monero_solo_stratum.Duplicates.Invariant.{Inv}
use monero_solo_stratum.Duplicates.Operations.{
  Call, reserves, releases, retains, retires, drops, restores, step, run, step-Inv, release-Inv,
}
use monero_solo_stratum.Duplicates.Retirement.{lookup-retire_height, lookup-release_height}

abbrev pub holds : ℕ → Option Entry → Bool
holds g none = false
holds g (some e) = e.generation == g

next-collect_keys :
    (r : DuplicateRegistry) (s : ℕ) (keys : List ℕ)
    → (collect_keys r s keys).0.next_generation ≡ r.next_generation
unfolding collect_keys collect_key
next-collect_keys r s [] = refl
next-collect_keys r s (key ∷ keys) = ground (arith, next-collect_keys (collect_key r s key) s keys)

next-collect_bucket :
    (r : DuplicateRegistry) (s h : ℕ) → (collect_bucket r s h).0.next_generation ≡ r.next_generation
unfolding collect_bucket
next-collect_bucket r s h =
    ground (arith, next-collect_keys r s (bucket_or (lookup (s, h) r.buckets)).keys)

next-retire_height :
    (r : DuplicateRegistry) (s h : ℕ) → (retire_height r s h).0.next_generation ≡ r.next_generation
unfolding retire_height
next-retire_height r s h = next-collect_bucket _ s h

next-release_height :
    (r : DuplicateRegistry) (s h : ℕ) → (release_height r s h).0.next_generation ≡ r.next_generation
unfolding release_height
next-release_height r s h = elim (Option-cases (lookup (s, h) r.buckets)) [
  | inl e ↦ rw (e, release_height)
  | inr (b, e) ↦ elim (Bool-cases (b.external_references == 0)) [
    | inl z ↦ rw (e, z, release_height)
    | inr z ↦ rw (e, z, release_height) (next-collect_bucket _ s h)
  ]
]

-- A token whose generation was handed out, and that no entry holds.
pub record IsDead (r : DuplicateRegistry) (t : DuplicateToken) : Type 0 where
  pub past : t.generation < r.next_generation
  pub gone : holds t.generation (lookup t.key r.entries) ≡ false

-- What a running client calls: `restore` is for start-up.
abbrev pub IsRunning : Call → Type 0
IsRunning (restores k s h g) = ⊥
IsRunning (reserves k s h) = Unit {0}
IsRunning (releases t) = Unit {0}
IsRunning (retains s h) = Unit {0}
IsRunning (retires s h) = Unit {0}
IsRunning (drops s h) = Unit {0}

step-IsDead :
    (r : DuplicateRegistry) (c : Call) (t : DuplicateToken)
    → Inv r
    → IsRunning c
    → r.next_generation + 1 < u64_mod
    → IsDead r t
    → IsDead (step r c) t × ((step r c).next_generation ≤ r.next_generation + 1)
unfolding step reserve release add_entry remove_entry retain_height
step-IsDead r (reserves key s h) t v w b d =
    let x : Entry = record {
      source_id = s;
      height = h;
      generation = this_generation r.next_generation;
    } in
    ground (arith, lookup-insert key t.key x r.entries)
step-IsDead r (releases u) t v w b d = ground (arith, lookup-erase u.key t.key r.entries)
step-IsDead r (retains s h) t v w b d = ground arith
step-IsDead r (retires s h) t v w b d =
    ground (arith, lookup-retire_height r s h v t.key, next-retire_height r s h)
step-IsDead r (drops s h) t v w b d =
    ground (arith, lookup-release_height r s h v t.key, next-release_height r s h)
step-IsDead r (restores k s h g) t v w b d = absurd w

next-release :
    (r : DuplicateRegistry) (t : DuplicateToken)
    → (release r t).0.next_generation ≡ r.next_generation
unfolding release remove_entry
next-release r t = ground arith

release-IsDead :
    (r : DuplicateRegistry) (t : DuplicateToken)
    → t.generation < r.next_generation
    → (release r t).1 ≡ true
    → IsDead (release r t).0 t
unfolding release remove_entry
release-IsDead r t past ok = ground (arith, lookup-erase t.key t.key r.entries)

run-IsDead :
    (r : DuplicateRegistry) (cs : List Call) (t : DuplicateToken)
    → Inv r
    → All IsRunning cs
    → r.next_generation + length cs < u64_mod
    → IsDead r t
    → IsDead (run r cs) t
unfolding run
run-IsDead r [] t v w b d = d
run-IsDead r (c ∷ cs) t v w b d =
    let k : IsDead (step r c) t × ((step r c).next_generation ≤ r.next_generation + 1) =
      step-IsDead r c t v w.0 (omega arith) d in
    run-IsDead (step r c) cs t (step-Inv r c v) w.1 (omega (arith, k.1)) k.0

-- A token that the registry handed out is good for one release: once a release of it succeeded, no
-- later release of it does, whatever calls a running client makes in between (even new reservations
-- of the same key), as long as they cannot exhaust the 64-bit generation counter.
pub release_once :
    (r : DuplicateRegistry) (t : DuplicateToken) (cs : List Call)
    → Inv r
    → t.generation < r.next_generation
    → (release r t).1 ≡ true
    → All IsRunning cs
    → r.next_generation + length cs < u64_mod
    → release (run (release r t).0 cs) t ≡ (run (release r t).0 cs, false)
unfolding release
release_once r t cs v past ok w b =
    let d : IsDead (run (release r t).0 cs) t =
      run-IsDead (release r t).0 cs t (release-Inv r v t) w (ground (arith, next-release r t))
        (release-IsDead r t past ok) in
    ground (arith, d.gone)
