-- ===== src/Entropy/Freshness.antt =====
-- src/crypto/entropy.cpp: what holds whenever bytes are issued.
use monero_solo_stratum.Common.{
  ℕ, ◌≡◌, ◌≤◌, ◌<◌, refl, sym, ◌∙◌, ap, subst, List, [], ◌∷◌, length, arith,
}
use monero_solo_stratum.Common.Outcome.{Outcome, ok, throw}
use monero_solo_stratum.Entropy.{
  EntropyFailure, EntropyConfig, EntropyManager, World, generate_current, forked, counted, generate,
}
use monero_solo_stratum.Entropy.Steps.{
  Ready, Fresh, throw_not_ok, forked_ok, counted_ok, generate_current_ok,
}

module _ (hmac_sha256 : List ℕ → List ℕ → List ℕ) where
  -- A run of `generate` that issues bytes ends with `generate_current` on a state that is ready.
  abbrev pub Issues : ℕ → List ℕ → World → EntropyManager → EntropyManager → List ℕ → Type 0
  Issues bytes domain w m n out =
      (0 < length domain)
      × ((s : EntropyManager) × Ready hmac_sha256 m.config w.pid s
          × (generate_current hmac_sha256 bytes domain w s ≡ (n, ok out)))

  pub generate_ok :
      (bytes : ℕ) (domain : List ℕ) (w : World) (m n : EntropyManager) (out : List ℕ)
      → 1 ≤ m.config.max_generate_calls
      → generate hmac_sha256 bytes domain w m ≡ (n, ok out)
      → Issues bytes domain w m n out
  unfolding generate
  generate_ok bytes [] w m n out pos e =
      absurd (throw_not_ok (ap (λ (x : EntropyManager × Outcome EntropyFailure (List ℕ)). x.1) e))
  generate_ok bytes (x ∷ domain) w m n out pos e = issued (forked hmac_sha256 w m) refl
    where
      issued_counted :
          (m1 : EntropyManager) (o : Outcome EntropyFailure EntropyManager)
          → forked hmac_sha256 w m ≡ ok m1
          → counted hmac_sha256 w m1 ≡ o
          → Issues bytes (x ∷ domain) w m n out
      issued_counted m1 (throw y) f k =
          let fails : generate hmac_sha256 bytes (x ∷ domain) w m ≡ (m1, throw y) =
            rw (f, k, generate) refl in
          absurd (
            throw_not_ok
              (ap (λ (z : EntropyManager × Outcome EntropyFailure (List ℕ)). z.1) (sym fails ∙ e)))
      issued_counted m1 (ok m2) f k =
          let runs : generate hmac_sha256 bytes (x ∷ domain) w m
              ≡ generate_current hmac_sha256 bytes (x ∷ domain) w m2 =
            rw (f, k, generate) refl in
          let (a, p) = forked_ok hmac_sha256 w m m1 f in
          let (a', p', k') = counted_ok hmac_sha256 w m1 m2 k p (rw a pos) in
          let left = subst (λ (c : EntropyConfig). m2.generate_calls < c.max_generate_calls) a k' in
          (omega arith, (m2, (a' ∙ a, p', left), sym runs ∙ e))

      issued :
          (o : Outcome EntropyFailure EntropyManager)
          → forked hmac_sha256 w m ≡ o
          → Issues bytes (x ∷ domain) w m n out
      issued (throw y) f =
          let fails : generate hmac_sha256 bytes (x ∷ domain) w m ≡ (m, throw y) =
            rw (f, generate) refl in
          absurd (
            throw_not_ok
              (ap (λ (z : EntropyManager × Outcome EntropyFailure (List ℕ)). z.1) (sym fails ∙ e)))
      issued (ok m1) f = issued_counted m1 (counted hmac_sha256 w m1) f refl

  -- Whenever `generate` issues bytes, where the configuration allows a call at all: the domain was
  -- not empty; the state belongs to the calling process, so that a forked child has reseeded; at most
  -- the allowed number of calls came since the last reseed; and by the last reading of the clock that
  -- reseed was younger than the maximum age.
  pub generate-Fresh :
      (bytes : ℕ) (domain : List ℕ) (w : World) (m n : EntropyManager) (out : List ℕ)
      → 1 ≤ m.config.max_generate_calls
      → generate hmac_sha256 bytes domain w m ≡ (n, ok out)
      → (0 < length domain) × Fresh hmac_sha256 m.config w n
  generate-Fresh bytes domain w m n out pos e =
      let (nonempty, (s, ready, run)) = generate_ok bytes domain w m n out pos e in
      (nonempty, generate_current_ok hmac_sha256 bytes domain w m.config s n out pos ready run)
