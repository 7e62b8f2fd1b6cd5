-- ===== src/Duplicates/Keys.antt =====
-- The key set of a bucket (`std::set<DuplicateKey>`): an ascending list read by membership.
use monero_solo_stratum.Common.{
  ℕ, ◌≤◌, ◌<◌, ◌≡◌, refl, Bool, true, false, not, ◌&&◌, ◌||◌, List, [], ◌∷◌, arith, ◌==◌,
}
use monero_solo_stratum.Duplicates.{set_insert, set_erase, is_empty}

unfoldable pub mem : ℕ → List ℕ → Bool
mem k [] = false
mem k (x ∷ xs) = x == k || mem k xs

pub mem-nil : (k : ℕ) → mem k [] ≡ false
unfolding mem
mem-nil k = refl

-- Every element is above the bound, in ascending order.
abbrev pub Above : ℕ → List ℕ → Type 0
Above n [] = Unit {0}
Above n (x ∷ xs) = (n < x) × Above x xs

abbrev pub Ascending : List ℕ → Type 0
Ascending [] = Unit {0}
Ascending (x ∷ xs) = Above x xs

pub Above-Ascending : (n : ℕ) (xs : List ℕ) → Above n xs → Ascending xs
Above-Ascending n [] a = tt
Above-Ascending n (x ∷ xs) a = a.1

Above-mono : (m n : ℕ) (xs : List ℕ) → m < n → Above n xs → Above m xs
Above-mono m n [] h a = tt
Above-mono m n (x ∷ xs) h a = (omega arith, a.1)

pub Above-not_mem : (n k : ℕ) (xs : List ℕ) → Above n xs → k ≤ n → mem k xs ≡ false
unfolding mem
Above-not_mem n k [] a h = refl
Above-not_mem n k (x ∷ xs) a h = ground (arith, Above-not_mem x k xs a.1)

pub mem-set_insert : (j k : ℕ) (xs : List ℕ) → mem j (set_insert k xs) ≡ (k == j || mem j xs)
unfolding mem set_insert
mem-set_insert j k [] = ground arith
mem-set_insert j k (x ∷ xs) = ground (arith, mem-set_insert j k xs)

Above-set_insert : (n k : ℕ) (xs : List ℕ) → n < k → Above n xs → Above n (set_insert k xs)
unfolding set_insert
Above-set_insert n k [] h a = (h, tt)
Above-set_insert n k (x ∷ xs) h a = ground (arith, Above-set_insert x k xs)

pub set_insert-Ascending : (k : ℕ) (xs : List ℕ) → Ascending xs → Ascending (set_insert k xs)
unfolding set_insert
set_insert-Ascending k [] a = tt
set_insert-Ascending k (x ∷ xs) a = ground (arith, Above-set_insert x k xs)

Above-set_erase : (n k : ℕ) (xs : List ℕ) → Above n xs → Above n (set_erase k xs)
unfolding set_erase
Above-set_erase n k [] a = tt
Above-set_erase n k (x ∷ xs) a = ground (arith, Above-mono n x xs, Above-set_erase x k xs a.1)

pub set_erase-Ascending : (k : ℕ) (xs : List ℕ) → Ascending xs → Ascending (set_erase k xs)
unfolding set_erase
set_erase-Ascending k [] a = tt
set_erase-Ascending k (x ∷ []) a = ground arith
set_erase-Ascending k (x ∷ y ∷ xs) a = ground (arith, Above-set_erase x k (y ∷ xs) a)

mem-set_erase-Above :
    (n j k : ℕ) (xs : List ℕ) → Above n xs → mem j (set_erase k xs) ≡ (not (k == j) && mem j xs)
unfolding mem set_erase
mem-set_erase-Above n j k [] a = ground arith
mem-set_erase-Above n j k (x ∷ xs) a =
    ground (arith, Above-not_mem x j xs a.1, mem-set_erase-Above x j k xs a.1)

pub mem-set_erase :
    (j k : ℕ) (xs : List ℕ) → Ascending xs → mem j (set_erase k xs) ≡ (not (k == j) && mem j xs)
unfolding mem set_erase
mem-set_erase j k [] a = ground arith
mem-set_erase j k (x ∷ xs) a =
    ground (arith, Above-not_mem x j xs a, mem-set_erase-Above x j k xs a)

pub is_empty-mem : (k : ℕ) (xs : List ℕ) → is_empty xs ≡ true → mem k xs ≡ false
unfolding mem
is_empty-mem k [] h = refl
is_empty-mem k (x ∷ xs) h = cc
