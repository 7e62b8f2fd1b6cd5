-- ===== src/Verifier/Construction.antt =====
-- src/verifier/verifier.cpp: the checks of the configuration and the constructor.
use monero_solo_stratum.Common.{ℕ, ◌*◌, Bool, true, false, not, ◌||◌, [], ltb, ◌==◌, replicate}
use monero_solo_stratum.Common.Outcome.{Outcome, ok, throw_if, ◌>>=◌, ◌>>◌}
use monero_solo_stratum.Verifier.Table.{blank, submission_table_size}
use monero_solo_stratum.Verifier.State.{
  Status, is_success, Verifier, running, cancel_pending, Native,
}

pub data MemoryMode : Type 0 where
  light : MemoryMode
  fast : MemoryMode

pub data LargePages : Type 0 where
  disabled : LargePages
  try_enable : LargePages
  require : LargePages

pub data JitMode : Type 0 where
  no_jit : JitMode
  enabled : JitMode
  secure : JitMode

pub data AesMode : Type 0 where
  automatic : AesMode
  software : AesMode

pub record VerifierConfig : Type 0 where
  pub workers : ℕ
  pub seed_init_threads : ℕ
  pub pending_capacity : ℕ
  pub max_outstanding : ℕ
  pub max_input_size : ℕ
  pub max_seeds : ℕ
  pub max_buffered_input_bytes : ℕ
  pub memory_mode : MemoryMode
  pub large_pages : LargePages
  pub jit : JitMode
  pub aes : AesMode

-- The option flags of the native verifier.
pub record Options : Type 0 where
  pub disable_jit : Bool
  pub secure_jit : Bool
  pub disable_hard_aes : Bool

abbrev pub jit_options : JitMode → Bool × Bool
jit_options no_jit = (true, false)
jit_options enabled = (false, false)
jit_options secure = (false, true)

abbrev pub aes_option : AesMode → Bool
aes_option automatic = false
aes_option software = true

abbrev pub map_options : JitMode → AesMode → Options
map_options jit aes = record {
  disable_jit = (jit_options jit).0;
  secure_jit = (jit_options jit).1;
  disable_hard_aes = aes_option aes;
}

pub record NativeConfig : Type 0 where
  pub worker_count : ℕ
  pub seed_init_threads : ℕ
  pub pending_capacity : ℕ
  pub max_outstanding : ℕ
  pub max_input_size : ℕ
  pub max_seed_key_size : ℕ
  pub max_seeds : ℕ
  pub max_buffered_input_bytes : ℕ
  pub memory_mode : MemoryMode
  pub large_pages : LargePages
  pub options : Options

pub data VerifierError : Type 0 where
  invalid_config : VerifierError
  no_init : Status → VerifierError
  not_created : Status → VerifierError
  not_started : Status → Status → VerifierError

-- The calls that make a native verifier.
pub record NativeStart (X : Type 0) : Type 0 where
  pub config_init : Status
  pub create : NativeConfig → Status × X
  pub start : X → X × Status

abbrev pub is_out_of_range : VerifierConfig → Bool
is_out_of_range c =
    c.workers == 0
    || ltb 256 c.workers
    || c.seed_init_threads == 0
    || ltb 256 c.seed_init_threads
    || c.pending_capacity == 0
    || ltb 1000000 c.pending_capacity
    || ltb c.max_outstanding c.pending_capacity
    || ltb 1000000 c.max_outstanding
    || c.max_input_size == 0
    || ltb (64 * 1024 * 1024) c.max_input_size
    || ltb c.max_seeds 2
    || ltb 64 c.max_seeds
    || ltb c.max_buffered_input_bytes c.max_input_size
    || ltb (16 * 1024 * 1024 * 1024) c.max_buffered_input_bytes

abbrev pub native_config : VerifierConfig → NativeConfig
native_config c = record {
  worker_count = c.workers;
  seed_init_threads = c.seed_init_threads;
  pending_capacity = c.pending_capacity;
  max_outstanding = c.max_outstanding;
  max_input_size = c.max_input_size;
  max_seed_key_size = 32;
  max_seeds = c.max_seeds;
  max_buffered_input_bytes = c.max_buffered_input_bytes;
  memory_mode = c.memory_mode;
  large_pages = c.large_pages;
  options = map_options c.jit c.aes;
}

unfoldable pub map_config : Status → VerifierConfig → Outcome VerifierError NativeConfig
map_config init_status c = do
  throw_if (is_out_of_range c) invalid_config
  throw_if (not (is_success init_status)) (no_init init_status)
  ok (native_config c)

module _ {X : Type 0} ⦃n : Native X⦄ where
  -- A verifier on a native context that has started.
  abbrev pub new_verifier : VerifierConfig → X → Verifier X
  new_verifier c x = record {
    config = record { max_outstanding = c.max_outstanding; max_input_size = c.max_input_size };
    context = x;
    lifecycle = running;
    current_seed_id = 0;
    seeds = [];
    submissions = replicate (submission_table_size c.max_outstanding) blank;
    tracked_submissions = 0;
  }

  unfoldable pub make_verifier : NativeStart X → VerifierConfig → Outcome VerifierError (Verifier X)
  unfolding map_config
  make_verifier s c = do
    mapped ← map_config s.config_init c
    throw_if (not (is_success s.config_init)) (no_init s.config_init)
    let created = s.create mapped
    throw_if (not (is_success created.0)) (not_created created.0)
    let started = s.start created.1
    throw_if (not (is_success started.1))
        (not_started started.1 (n.shut_down cancel_pending started.0).1)
    ok (new_verifier c started.0)
