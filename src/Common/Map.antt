-- ===== src/Common/Map.antt =====
-- `std::map` and `std::unordered_map` as association lists. The order of a map is modelled where
-- the program iterates over it; elsewhere only lookups and sizes are observed.
use Prim.Native.Nat.{ℕ, suc, ◌+◌, ◌≤◌}
use mathlib.Core.Bool.{Bool, true, false, ◌&&◌}
use mathlib.Core.List.{List, [], ◌∷◌}
use mathlib.Core.Logic.{◌↔◌}
use mathlib.Core.Option.{Option, none, some}
use mathlib.Core.Path.{◌≡◌, refl}
use native.Mathlib.Omega.{arith}
use monero_solo_stratum.Common.Tests.{if◌then◌else◌, ==_iff, ◌==◌ as nat_beq}

-- Equality of keys.
pub record Eq {ℓ} (A : Type ℓ) : Type ℓ where
  pub beq : A → A → Bool
  pub beq_iff : (a b : A) → (beq a b ≡ true) ↔ (a ≡ b)

instance abbrev pub nat_eq : Eq ℕ
nat_eq = record { beq = nat_beq; beq_iff = ==_iff }

abbrev pub pair_beq : ℕ × ℕ → ℕ × ℕ → Bool
pair_beq (a, b) (c, d) = nat_beq a c && nat_beq b d

pub pair_beq_iff : (p q : ℕ × ℕ) → (pair_beq p q ≡ true) ↔ (p ≡ q)
pair_beq_iff (a, b) (c, d) = ground arith

instance abbrev pub pair_eq : Eq (ℕ × ℕ)
pair_eq = record { beq = pair_beq; beq_iff = pair_beq_iff }

abbrev pub same_text : List ℕ → List ℕ → Bool
same_text [] [] = true
same_text (a ∷ xs) (b ∷ bs) = nat_beq a b && same_text xs bs
same_text [] (b ∷ bs) = false
same_text (a ∷ xs) [] = false

pub same_text_iff : (p q : List ℕ) → (same_text p q ≡ true) ↔ (p ≡ q)
same_text_iff [] [] = ground arith
same_text_iff [] (b ∷ bs) = ground arith
same_text_iff (a ∷ xs) [] = ground arith
same_text_iff (a ∷ xs) (b ∷ bs) = ground (arith, ==_iff a b, same_text_iff xs bs)

instance abbrev pub text_eq : Eq (List ℕ)
text_eq = record { beq = same_text; beq_iff = same_text_iff }

abbrev pub Map {ℓ κ} : Type ℓ → Type κ → Type (ℓ ⊔ κ)
Map K V = List (K × V)

abbrev pub one_if : Bool → ℕ
one_if true = 1
one_if false = 0

module _ {ℓ κ} {K : Type ℓ} {V : Type κ} ⦃e : Eq K⦄ where
  unfoldable pub lookup : K → Map K V → Option V
  lookup k [] = none
  lookup k ((j, v) ∷ m) = if e.beq j k then some v else lookup k m

  unfoldable pub insert : K → V → Map K V → Map K V
  insert k v [] = (k, v) ∷ []
  insert k v ((j, w) ∷ m) = if e.beq j k then (k, v) ∷ m else (j, w) ∷ insert k v m

  unfoldable pub erase : K → Map K V → Map K V
  erase k [] = []
  erase k ((j, w) ∷ m) = let rest = erase k m in if e.beq j k then rest else (j, w) ∷ rest

  -- The entries whose value passes a test.
  unfoldable pub count : (K → V → Bool) → Map K V → ℕ
  count p [] = 0
  count p ((k, v) ∷ m) = one_if (p k v) + count p m

  unfoldable pub size : Map K V → ℕ
  size [] = 0
  size (x ∷ m) = suc (size m)

  -- No key stands twice.
  abbrev pub Uniq : Map K V → Type κ
  Uniq [] = Unit
  Uniq ((k, v) ∷ m) = (lookup k m ≡ none) × Uniq m

  pub lookup-insert :
      (k j : K) (v : V) (m : Map K V)
      → lookup j (insert k v m) ≡ (if e.beq k j then some v else lookup j m)
  unfolding lookup insert
  lookup-insert k j v [] = refl
  lookup-insert k j v ((i, w) ∷ m) =
      ground (arith, e.beq_iff k j, e.beq_iff i k, e.beq_iff i j, lookup-insert k j v m)

  pub lookup-erase :
      (k j : K) (m : Map K V) → lookup j (erase k m) ≡ (if e.beq k j then none else lookup j m)
  unfolding lookup erase
  lookup-erase k j [] = ground arith
  lookup-erase k j ((i, w) ∷ m) =
      ground (arith, e.beq_iff k j, e.beq_iff i k, e.beq_iff i j, lookup-erase k j m)

  pub insert-Uniq : (k : K) (v : V) (m : Map K V) → Uniq m → Uniq (insert k v m)
  unfolding lookup insert
  insert-Uniq k v [] h = (refl, tt)
  insert-Uniq k v ((j, w) ∷ m) h =
      ground (arith, e.beq_iff j k, e.beq_iff k j, lookup-insert k j v m, insert-Uniq k v m h.1)

  pub erase-Uniq : (k : K) (m : Map K V) → Uniq m → Uniq (erase k m)
  unfolding lookup erase
  erase-Uniq k [] h = h
  erase-Uniq k ((j, w) ∷ m) h =
      ground (arith, e.beq_iff j k, e.beq_iff k j, lookup-erase k j m, erase-Uniq k m h.1)

  pub count-insert_new :
      (p : K → V → Bool) (k : K) (v : V) (m : Map K V)
      → lookup k m ≡ none
      → count p (insert k v m) ≡ one_if (p k v) + count p m
  unfolding lookup insert count
  count-insert_new p k v [] h = refl
  count-insert_new p k v ((j, w) ∷ m) h = ground (arith, count-insert_new p k v m)

  pub erase_absent : (k : K) (m : Map K V) → lookup k m ≡ none → erase k m ≡ m
  unfolding lookup erase
  erase_absent k [] h = refl
  erase_absent k ((j, w) ∷ m) h = ground (arith, erase_absent k m)

  pub count-erase :
      (p : K → V → Bool) (k : K) (v : V) (m : Map K V)
      → Uniq m
      → lookup k m ≡ some v
      → count p (erase k m) + one_if (p k v) ≡ count p m
  unfolding lookup erase count
  count-erase p k v [] u h = cc
  count-erase p k v ((j, w) ∷ m) u h =
      ground (arith, e.beq_iff j k, erase_absent k m, count-erase p k v m u.1)

  -- A present entry is counted.
  pub count_pos :
      (p : K → V → Bool) (k : K) (v : V) (m : Map K V)
      → lookup k m ≡ some v
      → p k v ≡ true
      → 1 ≤ count p m
  unfolding lookup count
  count_pos p k v [] h t = cc
  count_pos p k v ((j, w) ∷ m) h t = ground (arith, e.beq_iff j k, count_pos p k v m)

  pub size-count : (m : Map K V) → size m ≡ count (λ _ _. true) m
  unfolding size count
  size-count [] = refl
  size-count (x ∷ m) = ground (arith, size-count m)

  pub size-insert_new :
      (k : K) (v : V) (m : Map K V) → lookup k m ≡ none → size (insert k v m) ≡ suc (size m)
  unfolding size lookup insert
  size-insert_new k v [] h = refl
  size-insert_new k v ((j, w) ∷ m) h = ground (arith, size-insert_new k v m)

  pub size-insert_old :
      (k : K) (v w : V) (m : Map K V) → lookup k m ≡ some w → size (insert k v m) ≡ size m
  unfolding size lookup insert
  size-insert_old k v w [] h = cc
  size-insert_old k v w ((j, x) ∷ m) h = ground (arith, size-insert_old k v w m)

  pub size-erase :
      (k : K) (v : V) (m : Map K V) → Uniq m → lookup k m ≡ some v → suc (size (erase k m)) ≡ size m
  unfolding size lookup erase
  size-erase k v [] u h = cc
  size-erase k v ((j, w) ∷ m) u h =
      ground (arith, e.beq_iff j k, erase_absent k m, size-erase k v m u.1)

  pub size-erase_le : (k : K) (m : Map K V) → size (erase k m) ≤ size m
  unfolding size erase
  size-erase_le k [] = omega arith
  size-erase_le k ((j, w) ∷ m) = ground (arith, size-erase_le k m)
