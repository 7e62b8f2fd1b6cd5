-- ===== src/Entropy/Steps.antt =====
-- src/crypto/entropy.cpp: what the steps of `generate` keep.
use monero_solo_stratum.Common.{
  ℕ, zero, suc, ◌+◌, ◌-◌, ◌≡◌, ◌≤◌, ◌<◌, refl, sym, ◌∙◌, ap, subst, ◌⊎◌, inl, inr, Bool, true,
  false, Option, none, some, List, [], ◌∷◌, ◌++◌, leb, ltb, ◌==◌, if◌then◌else◌, length, arith,
  Bool-cases,
}
use monero_solo_stratum.Common.Outcome.{Outcome, ok, throw}
use monero_solo_stratum.Entropy.{
  EntropyFailure, EntropyConfig, EntropyManager, World, seconds, update_locked, reseed_locked,
  mandatory_reseed_locked, try_timed_reseed_locked, is_reseed_due, output_rounds, produce,
  generate_current, forked, counted, fork_reason, count_reason, time_reason, reseed_age_exceeded,
}

-- The parts of the state that updates of the key leave alone.
abbrev pub SamePolicy : EntropyManager → EntropyManager → Type 0
SamePolicy m n =
    (n.config ≡ m.config)
    × (n.last_successful_reseed ≡ m.last_successful_reseed)
    × (n.generate_calls ≡ m.generate_calls)
    × (n.creator_pid ≡ m.creator_pid)

ok_injective :
    (m n : EntropyManager) → Path (Outcome EntropyFailure EntropyManager) (ok m) (ok n) → m ≡ n
ok_injective m n e = ground arith

pub throw_not_ok :
    {A : Type 0} {x : EntropyFailure} {a : A} → Path (Outcome EntropyFailure A) (throw x) (ok a) → ⊥
throw_not_ok e = ground arith

if_either : (b : Bool) (x y : ℕ) → ((if b then x else y) ≡ y) ⊎ ((if b then x else y) ≡ x)
if_either true x y = inr refl
if_either false x y = inl refl

module _ (hmac_sha256 : List ℕ → List ℕ → List ℕ) where
  update_locked_lem :
      (d : List ℕ) (m : EntropyManager) → SamePolicy m (update_locked hmac_sha256 d m)
  unfolding update_locked
  update_locked_lem [] m = (refl, refl, refl, refl)
  update_locked_lem (x ∷ d) m = (refl, refl, refl, refl)

  reseed_locked_lem :
      (sample reason : List ℕ) (now pid : ℕ) (m : EntropyManager)
      → let n = reseed_locked hmac_sha256 sample reason now pid m in
        (n.config ≡ m.config) × (n.generate_calls ≡ 0) × (n.creator_pid ≡ pid)
  unfolding reseed_locked
  reseed_locked_lem sample reason now pid m =
      ((update_locked_lem (sample ++ reason) m).0, refl, refl)

  output_rounds_lem :
      (fuel bytes : ℕ) (m : EntropyManager) (output : List ℕ)
      → SamePolicy m (output_rounds hmac_sha256 fuel bytes m output).0
  unfolding output_rounds
  output_rounds_lem zero bytes m output = (refl, refl, refl, refl)
  output_rounds_lem (suc fuel) bytes m output = elim (Bool-cases (ltb (length output) bytes)) [
    | inr y ↦ rw (y, output_rounds) (refl, refl, refl, refl)
    | inl y ↦ rw (y, output_rounds) (output_rounds_lem fuel bytes _ _)
  ]

  produce_lem :
      (bytes : ℕ) (domain : List ℕ) (m : EntropyManager)
      → let n = (produce hmac_sha256 bytes domain m).0 in
        (n.config ≡ m.config)
        × (n.last_successful_reseed ≡ m.last_successful_reseed)
        × (n.generate_calls ≡ m.generate_calls + 1)
        × (n.creator_pid ≡ m.creator_pid)
  unfolding produce
  produce_lem bytes domain m =
      let m1 = update_locked hmac_sha256 domain m in
      let m2 = (output_rounds hmac_sha256 bytes bytes m1 []).0 in
      let (a, b, c, d) = update_locked_lem domain m in
      let (a', b', c', d') = output_rounds_lem bytes bytes m1 [] in
      let (a'', b'', c'', d'') = update_locked_lem domain m2 in
      (a'' ∙ a' ∙ a, b'' ∙ b' ∙ b, ap (λ (t : ℕ). t + 1) (c'' ∙ c' ∙ c), d'' ∙ d' ∙ d)

  -- The state belongs to the process, with calls left under the configuration.
  abbrev pub Ready : EntropyConfig → ℕ → EntropyManager → Type 0
  Ready c pid m = (m.config ≡ c) × (m.creator_pid ≡ pid) × (m.generate_calls < c.max_generate_calls)

  mandatory_ok :
      (sample : Option (List ℕ)) (reason : List ℕ) (now pid : ℕ) (m n : EntropyManager)
      → mandatory_reseed_locked hmac_sha256 sample reason now pid m ≡ ok n
      → (n.config ≡ m.config) × (n.generate_calls ≡ 0) × (n.creator_pid ≡ pid)
  unfolding mandatory_reseed_locked
  mandatory_ok none reason now pid m n e = absurd (ground arith)
  mandatory_ok (some sample) reason now pid m n e =
      subst
        (λ (x : EntropyManager).
          (x.config ≡ m.config) × (x.generate_calls ≡ 0) × (x.creator_pid ≡ pid))
        (ok_injective _ n e) (reseed_locked_lem sample reason now pid m)

  pub forked_ok :
      (w : World) (m n : EntropyManager)
      → forked hmac_sha256 w m ≡ ok n
      → (n.config ≡ m.config) × (n.creator_pid ≡ w.pid)
  unfolding forked
  forked_ok w m n e = elim (Bool-cases (w.pid == m.creator_pid)) [
    | inl y ↦
        let same : forked hmac_sha256 w m ≡ ok m = rw (y, forked) refl in
        let stays = ok_injective m n (sym same ∙ e) in rw (sym stays) (refl, ground arith)
    | inr y ↦
        let other : forked hmac_sha256 w m
            ≡ mandatory_reseed_locked hmac_sha256 w.fork_sample fork_reason w.fork_now w.pid m =
          rw (y, forked) refl in
        let (a, b, c) =
          mandatory_ok w.fork_sample fork_reason w.fork_now w.pid m n (sym other ∙ e) in
        (a, c)
  ]

  pub counted_ok :
      (w : World) (m n : EntropyManager)
      → counted hmac_sha256 w m ≡ ok n
      → m.creator_pid ≡ w.pid
      → 1 ≤ m.config.max_generate_calls
      → Ready m.config w.pid n
  unfolding counted
  counted_ok w m n e p pos = elim (Bool-cases (leb m.config.max_generate_calls m.generate_calls)) [
    | inr y ↦
        let same : counted hmac_sha256 w m ≡ ok m = rw (y, counted) refl in
        let stays = ok_injective m n (sym same ∙ e) in rw (sym stays) (refl, p, ground arith)
    | inl y ↦
        let other : counted hmac_sha256 w m
            ≡ mandatory_reseed_locked hmac_sha256 w.count_sample count_reason w.count_now w.pid m =
          rw (y, counted) refl in
        let (a, b, c) =
          mandatory_ok w.count_sample count_reason w.count_now w.pid m n (sym other ∙ e) in
        (a, c, omega (arith, b))
  ]

  timed-Ready :
      (sample : Option (List ℕ)) (now current : ℕ) (c : EntropyConfig) (pid : ℕ)
      (m : EntropyManager)
      → 1 ≤ c.max_generate_calls
      → Ready c pid m
      → Ready c pid (try_timed_reseed_locked hmac_sha256 sample now pid current m).0
  unfolding try_timed_reseed_locked
  timed-Ready none now current c pid m pos ready = ready
  timed-Ready (some sample) now current c pid m pos ready =
      let (a, b, d) = reseed_locked_lem sample time_reason now pid m in
      (a ∙ ready.0, d, omega (arith, b))

  if-Ready :
      (b : Bool) (c : EntropyConfig) (pid : ℕ) (x y : EntropyManager)
      → Ready c pid x
      → Ready c pid y
      → Ready c pid (if b then x else y)
  if-Ready true c pid x y h k = h
  if-Ready false c pid x y h k = k

  abbrev pub Fresh : EntropyConfig → World → EntropyManager → Type 0
  Fresh c w n =
      (n.config ≡ c)
      × (n.creator_pid ≡ w.pid)
      × (n.generate_calls ≤ c.max_generate_calls)
      × ((t : ℕ) × ((t ≡ w.current) ⊎ (t ≡ w.later))
          × (t - n.last_successful_reseed < seconds c.max_reseed_age_seconds))

  pub generate_current_ok :
      (bytes : ℕ) (domain : List ℕ) (w : World) (c : EntropyConfig) (m n : EntropyManager)
      (out : List ℕ)
      → 1 ≤ c.max_generate_calls
      → Ready c w.pid m
      → generate_current hmac_sha256 bytes domain w m ≡ (n, ok out)
      → Fresh c w n
  unfolding generate_current
  generate_current_ok bytes domain w c m n out pos ready e =
      let due = is_reseed_due w.current m in
      let m' : EntropyManager =
        if due
        then (try_timed_reseed_locked hmac_sha256 w.time_sample w.time_now w.pid w.current m).0
        else m in
      let current : ℕ = if due then w.later else w.current in
      let (rc, rp, rk) =
        if-Ready due c w.pid _ m
          (timed-Ready w.time_sample w.time_now w.current c w.pid m pos ready) ready in
      let (a, b, k, p) = produce_lem bytes domain m' in
      let old =
        leb (seconds m'.config.max_reseed_age_seconds) (current - m'.last_successful_reseed) in
      elim (Bool-cases old) [
        | inl y ↦
            let fails : generate_current hmac_sha256 bytes domain w m
                ≡ (m', throw reseed_age_exceeded) =
              rw (y, generate_current) refl in
            absurd (
              throw_not_ok (
                ap (λ (x : EntropyManager × Outcome EntropyFailure (List ℕ)). x.1) (sym fails ∙ e)))
        | inr y ↦
            let made = produce hmac_sha256 bytes domain m' in
            let runs : generate_current hmac_sha256 bytes domain w m ≡ (made.0, ok made.1) =
              rw (y, generate_current) refl in
            let same =
              ap (λ (x : EntropyManager × Outcome EntropyFailure (List ℕ)). x.0) (sym runs ∙ e) in
            subst (Fresh c w) same (
              a ∙ rc,
              p ∙ rp,
              omega (arith, k, rk),
              (
                current,
                if_either due w.later w.current,
                ground (arith, y, b, ap (λ (x : EntropyConfig). x.max_reseed_age_seconds) rc),
              ),
            )
      ]
