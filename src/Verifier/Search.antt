-- ===== src/Verifier/Search.antt =====
-- src/verifier/verifier.cpp: the searches in the submission table find what the table holds.
use native.Mathlib.Nat.{mod-lt}
use monero_solo_stratum.Common.{
  ℕ, zero, suc, ◌+◌, ◌^◌, ◌≤◌, ◌<◌, ◌≡◌, ◌≢◌, refl, sym, ap, ◌∙◌, subst, ◌⊎◌, inl, inr, false, List,
  length, ◌==◌, ==_iff, arith, Bool-cases,
}
use monero_solo_stratum.Verifier.Table.{
  SubmissionSlot, SlotState, empty, occupied, tombstone, slot_at, first_index, next_index, mix64,
  find_loop, find_submission_slot_locked,
}
use monero_solo_stratum.Verifier.Probes.{place, Holds, first_index_lem, next_index_lem}

-- No slot among the first `steps` places of the number is empty.
abbrev pub IsPassable : List SubmissionSlot → ℕ → ℕ → Type 0
IsPassable slots h steps =
    (e : ℕ) → e < steps → (slot_at slots (place (length slots) h e)).state ≢ empty

-- A place that a search for the tag gets to.
pub record IsReached (slots : List SubmissionSlot) (user_tag index : ℕ) : Type 0 where
  pub steps : ℕ
  pub near : steps < length slots
  pub there : place (length slots) (mix64 user_tag) steps ≡ index
  pub passable : IsPassable slots (mix64 user_tag) steps

-- Every tag is where a search for it gets to, and stands once.
pub record IsTable (slots : List SubmissionSlot) : Type 0 where
  pub bits : ℕ
  pub sized : length slots ≡ 2 ^ bits
  pub reached :
      (index user_tag : ℕ)
      → index < length slots
      → Holds (slot_at slots index) user_tag
      → IsReached slots user_tag index
  pub unique :
      (i j user_tag : ℕ)
      → i < length slots
      → j < length slots
      → Holds (slot_at slots i) user_tag
      → Holds (slot_at slots j) user_tag
      → i ≡ j

pub occupied_ne_empty : (x : SlotState) → x ≡ occupied → x ≢ empty
occupied_ne_empty x e f = cc

pub occupied_ne_tombstone : (x : SlotState) → x ≡ occupied → x ≢ tombstone
occupied_ne_tombstone x e f = cc

pub le-cases : (a b : ℕ) → a ≤ b → (a ≡ b) ⊎ (a < b)
le-cases a b h = elim (Bool-cases (a == b)) [
  | inl e ↦ inl (ground arith)
  | inr e ↦ inr (ground arith)
]

-- What there can be at a slot for a search.
pub data View (slot : SubmissionSlot) (user_tag : ℕ) : Type 0 where
  hole : slot.state ≡ empty → View slot user_tag
  hit : Holds slot user_tag → View slot user_tag
  taken : slot.state ≡ occupied → slot.user_tag ≢ user_tag → View slot user_tag
  grave : slot.state ≡ tombstone → View slot user_tag

pub view : (slot : SubmissionSlot) (user_tag : ℕ) → View slot user_tag
view slot user_tag = go slot.state refl
  where
    go : (x : SlotState) → slot.state ≡ x → View slot user_tag
    go empty e = hole e
    go tombstone e = grave e
    go occupied e = elim (Bool-cases (slot.user_tag == user_tag)) [
      | inl same ↦ hit (e, (==_iff slot.user_tag user_tag).0 same)
      | inr other ↦ taken e (λ p. ground (arith, p))
    ]

-- One round of the search.
module _ (slots : List SubmissionSlot) (user_tag left index : ℕ) where
  find-hole :
      (slot_at slots index).state ≡ empty → find_loop slots user_tag (suc left) index ≡ length slots
  unfolding find_loop
  find-hole e = rw (e, find_loop) refl

  find-hit :
      Holds (slot_at slots index) user_tag → find_loop slots user_tag (suc left) index ≡ index
  unfolding find_loop
  find-hit (e, t) = rw (e, (==_iff (slot_at slots index).user_tag user_tag).1 t, find_loop) refl

  find-taken :
      (slot_at slots index).state ≡ occupied
      → (slot_at slots index).user_tag ≢ user_tag
      → find_loop slots user_tag (suc left) index
        ≡ find_loop slots user_tag left (next_index slots index)
  unfolding find_loop
  find-taken e t =
      let other : ((slot_at slots index).user_tag == user_tag) ≡ false = ground (arith, t) in
      rw (e, other, find_loop) refl

  find-grave :
      (slot_at slots index).state ≡ tombstone
      → find_loop slots user_tag (suc left) index
        ≡ find_loop slots user_tag left (next_index slots index)
  unfolding find_loop
  find-grave e = rw (e, find_loop) refl

-- Where the loop ends with an index, the slot there holds the tag.
pub find_loop-Holds :
    (slots : List SubmissionSlot) (user_tag left index : ℕ)
    → find_loop slots user_tag left index ≢ length slots
    → Holds (slot_at slots (find_loop slots user_tag left index)) user_tag
unfolding find_loop
find_loop-Holds slots user_tag zero index h = absurd (h refl)
find_loop-Holds slots user_tag (suc left) index h = elim (view (slot_at slots index) user_tag) [
  | hole e ↦ absurd (h (find-hole slots user_tag left index e))
  | hit held ↦
      subst (λ (i : ℕ). Holds (slot_at slots i) user_tag)
        (sym (find-hit slots user_tag left index held)) held
  | taken e t ↦
      go _ (find_loop-Holds slots user_tag left (next_index slots index))
        (find-taken slots user_tag left index e t)
  | grave e ↦
      go _ (find_loop-Holds slots user_tag left (next_index slots index))
        (find-grave slots user_tag left index e)
]
  where
    go :
        (later : ℕ)
        → (later ≢ length slots → Holds (slot_at slots later) user_tag)
        → find_loop slots user_tag (suc left) index ≡ later
        → Holds (slot_at slots (find_loop slots user_tag (suc left) index)) user_tag
    go later ih e =
        subst (λ (i : ℕ). Holds (slot_at slots i) user_tag) (sym e) (ih (λ p. h (e ∙ p)))

-- From a place that is not past the tag's slot, the loop ends at a slot that holds the tag.
module _ (slots : List SubmissionSlot) (user_tag bits steps : ℕ) (sized : length slots ≡ 2 ^ bits)
    (near : steps < length slots)
    (held : Holds (slot_at slots (place (length slots) (mix64 user_tag) steps)) user_tag)
    (passable : IsPassable slots (mix64 user_tag) steps) where
  abbrev at : ℕ → ℕ
  at = place (length slots) (mix64 user_tag)

  abbrev Finds : ℕ → Type 0
  Finds result = (result < length slots) × Holds (slot_at slots result) user_tag

  no_hole : (k : ℕ) → k ≤ steps → (slot_at slots (at k)).state ≢ empty
  no_hole k le e = elim (le-cases k steps le) [
    | inl same ↦
        occupied_ne_empty (slot_at slots (at steps)).state held.0
          (subst (λ (i : ℕ). (slot_at slots (at i)).state ≡ empty) same e)
    | inr lt ↦ passable k lt e
  ]

  before : (k : ℕ) → k ≤ steps → ¬ Holds (slot_at slots (at k)) user_tag → k < steps
  before k le miss = elim (le-cases k steps le) [
    | inl same ↦
        absurd (miss (subst (λ (i : ℕ). Holds (slot_at slots (at i)) user_tag) (sym same) held))
    | inr lt ↦ lt
  ]

  find_loop-Finds :
      (left k : ℕ)
      → k + left ≡ length slots
      → k ≤ steps
      → Finds (find_loop slots user_tag left (at k))
  find_loop-Finds zero k sum le = absurd (omega arith)
  find_loop-Finds (suc left) k sum le = elim (view (slot_at slots (at k)) user_tag) [
    | hole e ↦ absurd (no_hole k le e)
    | hit h ↦
        subst Finds (sym (find-hit slots user_tag left (at k) h))
          (mod-lt (mix64 user_tag + k) (omega arith), h)
    | taken e t ↦
        go (find_loop-Finds left (suc k) (omega arith)) (find-taken slots user_tag left (at k) e t)
          (λ p. t (p.1))
    | grave e ↦
        go (find_loop-Finds left (suc k) (omega arith)) (find-grave slots user_tag left (at k) e)
          (λ p. occupied_ne_tombstone (slot_at slots (at k)).state p.0 e)
  ]
    where
      go :
          (suc k ≤ steps → Finds (find_loop slots user_tag left (at (suc k))))
          → find_loop slots user_tag (suc left) (at k)
            ≡ find_loop slots user_tag left (next_index slots (at k))
          → ¬ Holds (slot_at slots (at k)) user_tag
          → Finds (find_loop slots user_tag (suc left) (at k))
      go ih e miss =
          let lt = before k le miss in
          subst Finds
            (sym (
              e
              ∙ ap (find_loop slots user_tag left)
                  (next_index_lem slots bits sized (mix64 user_tag) k)))
            (ih (omega arith))

-- A search for a tag ends at the slot that holds it, and with the size of the table where there is
-- none.
pub find-present :
    (slots : List SubmissionSlot) (user_tag index : ℕ)
    → IsTable slots
    → index < length slots
    → Holds (slot_at slots index) user_tag
    → find_submission_slot_locked slots user_tag ≡ index
unfolding find_submission_slot_locked
find-present slots user_tag index t lt held =
    let r = t.reached index user_tag lt held in
    let (small, found) =
      find_loop-Finds slots user_tag t.bits r.steps t.sized r.near
        (subst (λ (i : ℕ). Holds (slot_at slots i) user_tag) (sym r.there) held) r.passable
        (length slots) 0 (omega arith) (omega arith) in
    ap (find_loop slots user_tag (length slots)) (first_index_lem slots t.bits t.sized user_tag)
    ∙ t.unique _ index user_tag small lt found held

pub find-Holds :
    (slots : List SubmissionSlot) (user_tag : ℕ)
    → find_submission_slot_locked slots user_tag ≢ length slots
    → Holds (slot_at slots (find_submission_slot_locked slots user_tag)) user_tag
unfolding find_submission_slot_locked
find-Holds slots user_tag h =
    find_loop-Holds slots user_tag (length slots) (first_index slots user_tag) h
