-- ===== src/Stratum/Difficulty.antt =====
-- src/stratum/stratum.cpp: the difficulty that a NiceHash miner is assigned, and its four-byte target.
use native.Mathlib.Nat.{mul-div-le, le-div_iff_mul-le, div-le_self}
use monero_solo_stratum.Common.{
  ℕ, ◌/◌, ◌%◌, ◌≤◌, ◌≡◌, sym, ap, ◌∙◌, inl, inr, true, Option, none, some, List, arith,
  Option-cases,
}
use monero_solo_stratum.Common.Text.{codes}
use monero_solo_stratum.Common.Word.{u32_mod}
use monero_solo_stratum.Stratum.Targets.{
  u32_max, compact_target, compact_target_hex, at_least, is_nicehash_agent, login_difficulty,
  wire_target,
}

-- Division by a quotient and back.
module _ (n d : ℕ) (pos : 1 ≤ d) (fits : d ≤ n) where
  quotient_pos : 1 ≤ n / d
  quotient_pos = (le-div_iff_mul-le {k = d} {x = 1} {y = n} pos).1 (omega arith)

  quotient_above : d ≤ n / (n / d)
  quotient_above = (le-div_iff_mul-le {k = n / d} {x = d} {y = n} quotient_pos).1 (mul-div-le n d)

  quotient_back : n / (n / (n / d)) ≡ n / d
  quotient_back =
      let q = n / (n / d) in
      let q_pos : 1 ≤ q = omega (arith, quotient_above, pos) in
      let down : n / q ≤ n / d =
        (le-div_iff_mul-le {k = d} {x = n / q} {y = n} pos).1
          (grind (arith, quotient_above, mul-div-le n q)) in
      let up : n / d ≤ n / q =
        (le-div_iff_mul-le {k = q} {x = n / d} {y = n} q_pos).1 (mul-div-le n (n / d)) in
      omega arith

reached_floor : (floor : ℕ) (requested : Option ℕ) → floor ≤ at_least floor requested
reached_floor floor none = omega arith
reached_floor floor (some r) = omega arith

small_quotient : (d : ℕ) → u32_max / d % u32_mod ≡ u32_max / d
small_quotient d = omega (arith, div-le_self u32_max d)

compact_target_of : (d : ℕ) → 1 ≤ d → d ≤ u32_max → compact_target d ≡ some (u32_max / d)
unfolding compact_target
compact_target_of d pos fits =
    let t_pos = quotient_pos u32_max d pos fits in ground (arith, small_quotient d, t_pos)

compact_target-some : (d t : ℕ) → compact_target d ≡ some t → 1 ≤ d × d ≤ u32_max × t ≡ u32_max / d
unfolding compact_target
compact_target-some d t h = ground (arith, small_quotient d)

login_rejected :
    (floor : ℕ) (requested : Option ℕ) (agent : List ℕ)
    → is_nicehash_agent agent ≡ true
    → compact_target (at_least floor requested) ≡ none
    → login_difficulty floor requested agent ≡ none
unfolding login_difficulty
login_rejected floor requested agent nicehash e = rw (nicehash, e)

login_assigned :
    (floor : ℕ) (requested : Option ℕ) (agent : List ℕ) (t : ℕ)
    → is_nicehash_agent agent ≡ true
    → compact_target (at_least floor requested) ≡ some t
    → login_difficulty floor requested agent ≡ some (u32_max / t)
unfolding login_difficulty
login_assigned floor requested agent t nicehash e = rw (nicehash, e)

wire_compact :
    (job_target agent : List ℕ) (q t : ℕ)
    → is_nicehash_agent agent ≡ true
    → compact_target q ≡ some t
    → wire_target job_target agent q
      ≡ record { value = compact_target_hex t; encoding = codes "le32" }
unfolding wire_target
wire_compact job_target agent q t nicehash e = rw (nicehash, e)

-- An assigned difficulty and the target that the wire carries for it.
back_and_forth :
    (d q : ℕ)
    → 1 ≤ d
    → d ≤ u32_max
    → q ≡ u32_max / (u32_max / d)
    → d ≤ q × (compact_target q ≡ some (u32_max / d))
back_and_forth d q pos fits e =
    let above : d ≤ q = omega (arith, e, quotient_above u32_max d pos fits) in
    let below : q ≤ u32_max = omega (arith, e, div-le_self u32_max (u32_max / d)) in
    (
      above,
      compact_target_of q (omega (arith, above, pos)) below
          ∙ ap some (ap (λ (x : ℕ). u32_max / x) e ∙ quotient_back u32_max d pos fits),
    )

-- With a floor of at least 1, when the login of a NiceHash agent is given a difficulty: it is at
-- least what the floor and the miner ask for, and the four-byte target that the wire then carries
-- stands for exactly this difficulty, since 2^32 - 1 divided by the target gives it back.
pub login_difficulty-wire_target :
    (floor : ℕ) (requested : Option ℕ) (agent job_target : List ℕ) (q : ℕ)
    → 1 ≤ floor
    → is_nicehash_agent agent ≡ true
    → login_difficulty floor requested agent ≡ some q
    → at_least floor requested ≤ q
      × ((t : ℕ) × (wire_target job_target agent q
            ≡ record { value = compact_target_hex t; encoding = codes "le32" })
          × (q ≡ u32_max / t))
login_difficulty-wire_target floor requested agent job_target q pos nicehash h =
    let d = at_least floor requested in
    elim (Option-cases (compact_target d)) [
      | inl e ↦ absurd (cc (h, login_rejected floor requested agent nicehash e))
      | inr (t, e) ↦
          let compacted = compact_target-some d t e in
          let assigned : q ≡ u32_max / t =
            cc (h, login_assigned floor requested agent t nicehash e) in
          let exact =
            back_and_forth d q compacted.0 compacted.1
              (assigned ∙ ap (λ (x : ℕ). u32_max / x) compacted.2) in
          (
            exact.0,
            (
              t,
              wire_compact job_target agent q t nicehash (exact.1 ∙ ap some (sym compacted.2)),
              assigned,
            ),
          )
    ]
