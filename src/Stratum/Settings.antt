-- ===== src/Stratum/Settings.antt =====
-- src/stratum/stratum.cpp: what the constructor leaves of a configuration.
use monero_solo_stratum.Common.{
  ◌≤◌, ◌≡◌, refl, subst, Bool, true, false, not, ◌||◌, none, some, ltb, ◌==◌, if◌then◌else◌, length,
  arith,
}
use monero_solo_stratum.Stratum.Config.{StratumServerConfig, is_unusable, adjusted, make_config}

-- The numbers of a server that was constructed.
pub record IsUsable (c : StratumServerConfig) : Type 0 where
  pub listens : 1 ≤ length c.listen
  pub connections : 1 ≤ c.max_connections × 1 ≤ c.max_connections_per_ip
  pub line : 1024 ≤ c.max_line_bytes
  pub output : 4096 ≤ c.max_output_bytes_per_connection
  pub floor : 1 ≤ c.difficulty_floor
  pub workers : 1 ≤ c.submit_workers × c.submit_workers ≤ 256
  pub candidate_workers : 1 ≤ c.candidate_submit_workers × c.candidate_submit_workers ≤ 16
  pub reserve_fits : c.candidate_submit_reserve ≤ c.max_pending_submits
  pub own_pending :
      1 ≤ c.max_pending_submits_per_connection
      × c.max_pending_submits_per_connection ≤ c.max_pending_submits

guarded {ℓ} :
    {A : Type ℓ} (P : A → Type 0) (bad : Bool) (a b : A)
    → (if bad then none else some a) ≡ some b
    → (bad ≡ false → P a)
    → P b
guarded P true a b e h = absurd (ground arith)
guarded P false a b e h = subst P (same e) (h refl)
  where
    same : some a ≡ some b → a ≡ b
    same e = cc

-- No test of a disjunction holds.
none_holds :
    (a b c d e f g h i j : Bool)
    → (a || b || c || d || e || f || g || h || i || j) ≡ false
    → (a ≡ false)
      × (d ≡ false)
      × (e ≡ false)
      × (f ≡ false)
      × (g ≡ false)
      × (h ≡ false)
      × (i ≡ false)
      × (j ≡ false)
none_holds a b c d e f g h i j k = ground arith

adjusted-IsUsable :
    (jobs submits : Bool) (given : StratumServerConfig)
    → is_unusable jobs submits given ≡ false
    → IsUsable (adjusted given)
adjusted-IsUsable jobs submits given good =
    let (listen, all, per_ip, line, out, low, pending, own) =
      none_holds (length given.listen == 0) (not jobs) (not submits) (given.max_connections == 0)
        (given.max_connections_per_ip == 0) (ltb given.max_line_bytes 1024)
        (ltb given.max_output_bytes_per_connection 4096) (given.difficulty_floor == 0)
        (given.max_pending_submits == 0) (given.max_pending_submits_per_connection == 0) good in
    record {
      listens = ground (arith, listen);
      connections = (ground (arith, all), ground (arith, per_ip));
      line = ground (arith, line);
      output = ground (arith, out);
      floor = ground (arith, low);
      workers = (omega arith, omega arith);
      candidate_workers = (omega arith, omega arith);
      reserve_fits = omega arith;
      own_pending = (ground (arith, pending, own), omega arith);
    }

-- A configuration that the constructor accepts names an endpoint, and its bounds are those that the
-- server relies on.
pub make_config-IsUsable :
    (jobs submits : Bool) (given config : StratumServerConfig)
    → make_config jobs submits given ≡ some config
    → IsUsable config
unfolding make_config
make_config-IsUsable jobs submits given config made =
    guarded IsUsable (is_unusable jobs submits given) (adjusted given) config made
      (adjusted-IsUsable jobs submits given)
