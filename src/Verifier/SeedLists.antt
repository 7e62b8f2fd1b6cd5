-- ===== src/Verifier/SeedLists.antt =====
-- src/verifier/verifier.cpp: the list of seed records, by the ids and the numbers of verifications in it.
use monero_solo_stratum.Common.{
  ℕ, zero, suc, ◌+◌, ◌≡◌, ◌≢◌, refl, sym, ap, ◌∙◌, subst, ◌⊎◌, inl, inr, Bool, true, false, not,
  ◌&&◌, Option, none, some, List, [], ◌∷◌, ◌==◌, if◌then◌else◌, arith, get_elem?, set, All, All-set,
  All-get_elem?, All-mono,
}
use monero_solo_stratum.Verifier.State.{
  SeedRecord, find_seed_from, find_seed_locked, find_resident_from, erase_seeds,
}

-- The record stands at the place.
abbrev pub At : List SeedRecord → ℕ → SeedRecord → Type 0
At seeds place seed = get_elem? seeds place ≡ some seed

pub At-set :
    (seeds : List SeedRecord) (place : ℕ) (old new : SeedRecord)
    → At seeds place old
    → At (set seeds place new) place new
At-set [] place old new h = cc
At-set (s ∷ ss) zero old new h = refl
At-set (s ∷ ss) (suc place) old new h = At-set ss place old new h

-- No two records have an id in common.
abbrev pub UniqueIds : List SeedRecord → Type 0
UniqueIds [] = Unit {0}
UniqueIds (s ∷ ss) = All (λ r. r.seed_id ≢ s.seed_id) ss × UniqueIds ss

abbrev pub part : ℕ → SeedRecord → ℕ
part id s = if s.seed_id == id then s.tracked_verifications else 0

-- The verifications that the records with the id track.
unfoldable pub tracked_of : ℕ → List SeedRecord → ℕ
tracked_of id [] = 0
tracked_of id (s ∷ ss) = part id s + tracked_of id ss

pub tracked_of-set :
    (id : ℕ) (seeds : List SeedRecord) (place : ℕ) (old new : SeedRecord)
    → At seeds place old
    → tracked_of id (set seeds place new) + part id old ≡ tracked_of id seeds + part id new
unfolding tracked_of
tracked_of-set id [] place old new h = cc
tracked_of-set id (s ∷ ss) zero old new h = let e : s ≡ old = cc in rw e (omega arith)
tracked_of-set id (s ∷ ss) (suc place) old new h =
    omega (arith, tracked_of-set id ss place old new h)

All-ids-set :
    (id : ℕ) (seeds : List SeedRecord) (place : ℕ) (old new : SeedRecord)
    → At seeds place old
    → new.seed_id ≡ old.seed_id
    → All (λ r. r.seed_id ≢ id) seeds
    → All (λ r. r.seed_id ≢ id) (set seeds place new)
All-ids-set id seeds place old new h e all =
    All-set (λ r. r.seed_id ≢ id) seeds place new
      (λ q. All-get_elem? (λ r. r.seed_id ≢ id) seeds place old h all (sym e ∙ q)) all

pub set-UniqueIds :
    (seeds : List SeedRecord) (place : ℕ) (old new : SeedRecord)
    → At seeds place old
    → new.seed_id ≡ old.seed_id
    → UniqueIds seeds
    → UniqueIds (set seeds place new)
set-UniqueIds [] place old new h e u = tt
set-UniqueIds (s ∷ ss) zero old new h e u =
    let same : new.seed_id ≡ s.seed_id = e ∙ ap (λ (r : SeedRecord). r.seed_id) (old_is s old h) in
    (
      All-mono (λ r. r.seed_id ≢ s.seed_id) (λ r. r.seed_id ≢ new.seed_id) ss
          (λ r k q. k (q ∙ same)) u.0,
      u.1,
    )
  where
    old_is : (a b : SeedRecord) → some a ≡ some b → b ≡ a
    old_is a b p = cc
set-UniqueIds (s ∷ ss) (suc place) old new h e u =
    (All-ids-set s.seed_id ss place old new h e u.0, set-UniqueIds ss place old new h e u.1)

no_id-tracked :
    (id : ℕ) (seeds : List SeedRecord) → All (λ r. r.seed_id ≢ id) seeds → tracked_of id seeds ≡ 0
unfolding tracked_of
no_id-tracked id [] h = refl
no_id-tracked id (s ∷ ss) h = ground (arith, h.0, no_id-tracked id ss h.1)

-- A record tracks all the verifications of its id.
pub tracked_of_here :
    (seeds : List SeedRecord) (place : ℕ) (seed : SeedRecord)
    → At seeds place seed
    → UniqueIds seeds
    → tracked_of seed.seed_id seeds ≡ seed.tracked_verifications
unfolding tracked_of
tracked_of_here [] place seed h u = cc
tracked_of_here (s ∷ ss) zero seed h u =
    let e : s ≡ seed = cc in
    subst (λ (r : SeedRecord). tracked_of r.seed_id (s ∷ ss) ≡ r.tracked_verifications) e
      (ground (arith, no_id-tracked s.seed_id ss u.0))
tracked_of_here (s ∷ ss) (suc place) seed h u =
    let differs = All-get_elem? (λ r. r.seed_id ≢ s.seed_id) ss place seed h u.0 in
    ground (arith, differs, tracked_of_here ss place seed h u.1)

if-some {ℓ} :
    {A : Type ℓ} (b : Bool) (x y : A) (rest : Option A)
    → (if b then some x else rest) ≡ some y
    → ((b ≡ true) × (x ≡ y)) ⊎ ((b ≡ false) × (rest ≡ some y))
if-some true x y rest h = inl (refl, cc)
if-some false x y rest h = inr (refl, h)

if-none {ℓ} :
    {A : Type ℓ} (b : Bool) (x : A) (rest : Option A)
    → (if b then some x else rest) ≡ none
    → (b ≡ false) × (rest ≡ none)
if-none true x rest h = cc
if-none false x rest h = (refl, h)

-- What a search by id finds.
pub record IsFound (seeds : List SeedRecord) (id place : ℕ) (seed : SeedRecord) : Type 0 where
  pub at : At seeds place seed
  pub same : seed.seed_id ≡ id
  pub kept : seed.removed ≡ false

record IsFoundFrom (off : ℕ) (seeds : List SeedRecord) (id place : ℕ) (seed : SeedRecord)
    : Type 0 where
  index : ℕ
  sum : place ≡ off + index
  found : IsFound seeds id index seed

find_seed_from-IsFoundFrom :
    (off id : ℕ) (seeds : List SeedRecord) (place : ℕ) (seed : SeedRecord)
    → find_seed_from off id seeds ≡ some (place, seed)
    → IsFoundFrom off seeds id place seed
unfolding find_seed_from
find_seed_from-IsFoundFrom off id [] place seed h = cc
find_seed_from-IsFoundFrom off id (s ∷ ss) place seed h =
    elim (if-some (s.seed_id == id && not s.removed) (off, s) (place, seed) _ h) [
      | inl (y, e) ↦
          let here : s ≡ seed = ap (λ (t : ℕ × SeedRecord). t.1) e in
          record {
            index = 0;
            sum = omega (arith, ap (λ (t : ℕ × SeedRecord). t.0) e);
            found = record {
              at = ap some here;
              same = subst (λ (r : SeedRecord). r.seed_id ≡ id) here (ground arith);
              kept = subst (λ (r : SeedRecord). r.removed ≡ false) here (ground arith);
            };
          }
      | inr (y, e) ↦
          let later = find_seed_from-IsFoundFrom (suc off) id ss place seed e in
          record {
            index = suc later.index;
            sum = omega (arith, later.sum);
            found = record {
              at = later.found.at;
              same = later.found.same;
              kept = later.found.kept;
            };
          }
    ]

pub find_seed_locked-IsFound :
    (id : ℕ) (seeds : List SeedRecord) (place : ℕ) (seed : SeedRecord)
    → find_seed_locked id seeds ≡ some (place, seed)
    → IsFound seeds id place seed
unfolding find_seed_locked
find_seed_locked-IsFound id seeds place seed h =
    let f = find_seed_from-IsFoundFrom 0 id seeds place seed h in
    let here : f.index ≡ place = omega (arith, f.sum) in
    record {
      at = subst (λ (p : ℕ). At seeds p seed) here f.found.at;
      same = f.found.same;
      kept = f.found.kept;
    }

-- Where the search finds nothing, each record with the id was removed.
find_seed_from-none :
    (off id : ℕ) (seeds : List SeedRecord)
    → find_seed_from off id seeds ≡ none
    → All (λ s. s.seed_id ≡ id → s.removed ≡ true) seeds
unfolding find_seed_from
find_seed_from-none off id [] h = tt
find_seed_from-none off id (s ∷ ss) h =
    let (miss, later) = if-none (s.seed_id == id && not s.removed) (off, s) _ h in
    (λ e. ground arith, find_seed_from-none (suc off) id ss later)

pub find_seed_locked-none :
    (id : ℕ) (seeds : List SeedRecord)
    → find_seed_locked id seeds ≡ none
    → All (λ s. s.seed_id ≡ id → s.removed ≡ true) seeds
unfolding find_seed_locked
find_seed_locked-none id seeds h = find_seed_from-none 0 id seeds h

pub find_resident_from-At :
    (off hash : ℕ) (seeds : List SeedRecord) (place : ℕ) (seed : SeedRecord)
    → find_resident_from off hash seeds ≡ some (place, seed)
    → (q : ℕ) × (place ≡ off + q) × At seeds q seed
unfolding find_resident_from
find_resident_from-At off hash [] place seed h = cc
find_resident_from-At off hash (s ∷ ss) place seed h =
    go (find_resident_from (suc off) hash ss) h
      (λ e. find_resident_from-At (suc off) hash ss place seed e)
  where
    go :
        (o : Option (ℕ × SeedRecord))
        → (elim o as (λ x. Option (ℕ × SeedRecord)) [
          | some later ↦ some later
          | none ↦ if s.seed_hash == hash && not s.removed then some (off, s) else none
        ])
          ≡ some (place, seed)
        → (o ≡ some (place, seed) → (q : ℕ) × (place ≡ suc off + q) × At ss q seed)
        → (q : ℕ) × (place ≡ off + q) × At (s ∷ ss) q seed
    go (some later) e ih = let (q, sum, at) = ih e in (suc q, omega (arith, sum), at)
    go none e ih =
        elim (if-some (s.seed_hash == hash && not s.removed) (off, s) (place, seed) none e) [
          | inl (y, p) ↦ (
            0,
            omega (arith, ap (λ (t : ℕ × SeedRecord). t.0) p),
            ap some (ap (λ (t : ℕ × SeedRecord). t.1) p),
          )
          | inr (y, p) ↦ cc
        ]

-- Erasing records that track nothing changes no number.
pub tracked_of-erase :
    (p : SeedRecord → Bool) (id : ℕ) (seeds : List SeedRecord)
    → All (λ s. p s ≡ true → s.tracked_verifications ≡ 0) seeds
    → tracked_of id (erase_seeds p seeds) ≡ tracked_of id seeds
unfolding tracked_of erase_seeds
tracked_of-erase p id [] h = refl
tracked_of-erase p id (s ∷ ss) h = ground (arith, h.0, tracked_of-erase p id ss h.1)

pub erase-All {κ} :
    (P : SeedRecord → Type κ) (p : SeedRecord → Bool) (seeds : List SeedRecord)
    → All P seeds
    → All P (erase_seeds p seeds)
unfolding erase_seeds
erase-All P p [] h = tt
erase-All P p (s ∷ ss) h = go (p s) (erase-All P p ss h.1)
  where
    go :
        (b : Bool)
        → All P (erase_seeds p ss)
        → All P (if b then erase_seeds p ss else s ∷ erase_seeds p ss)
    go true ih = ih
    go false ih = (h.0, ih)

pub erase-UniqueIds :
    (p : SeedRecord → Bool) (seeds : List SeedRecord)
    → UniqueIds seeds
    → UniqueIds (erase_seeds p seeds)
unfolding erase_seeds
erase-UniqueIds p [] u = tt
erase-UniqueIds p (s ∷ ss) u = go (p s) (erase-UniqueIds p ss u.1)
  where
    go :
        (b : Bool)
        → UniqueIds (erase_seeds p ss)
        → UniqueIds (if b then erase_seeds p ss else s ∷ erase_seeds p ss)
    go true ih = ih
    go false ih = (erase-All (λ r. r.seed_id ≢ s.seed_id) p ss u.0, ih)
