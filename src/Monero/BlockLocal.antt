-- ===== src/Monero/BlockLocal.antt =====
-- Every parser below `parse_block` looks only at what it consumes, and at how much follows.
use monero_solo_stratum.Common.{ℕ, zero, suc, List, [], ◌∷◌}
use monero_solo_stratum.Monero.Reader.{varint, bytes, skip}
use monero_solo_stratum.Monero.Local.{
  IsLocal, local_rules, bind-IsLocal, varint-IsLocal, pure-IsLocal, bytes-IsLocal, skip-IsLocal,
  fail_if-IsLocal, get_remaining-IsLocal,
}
use monero_solo_stratum.Monero.Parse.{get_remaining, fail_if}
use monero_solo_stratum.Monero.Block.{
  Input, parse_vector_bytes, parse_public_key_vector, parse_txout_to_script, skip_varints,
  parse_generation, parse_to_script_hash, parse_to_script, parse_to_key, parse_input_variant,
  parse_input, parse_output_variant, parse_output, parse_inputs, parse_outputs, skip_signatures,
  parse_rct, parse_prefix, parse_signatures, parse_miner_transaction, parse_hashes, parse_header,
}

parse_vector_bytes-IsLocal : IsLocal parse_vector_bytes
unfolding parse_vector_bytes
parse_vector_bytes-IsLocal = search local_rules

parse_public_key_vector-IsLocal : IsLocal parse_public_key_vector
unfolding parse_public_key_vector
parse_public_key_vector-IsLocal = search local_rules

parse_txout_to_script-IsLocal : IsLocal parse_txout_to_script
unfolding parse_txout_to_script
parse_txout_to_script-IsLocal =
    search (local_rules, parse_vector_bytes-IsLocal, parse_public_key_vector-IsLocal)

skip_varints-IsLocal : (n : ℕ) → IsLocal (skip_varints n)
unfolding skip_varints
skip_varints-IsLocal zero = search local_rules
skip_varints-IsLocal (suc n) =
    bind-IsLocal varint (λ _. skip_varints n) varint-IsLocal (λ _. skip_varints-IsLocal n)

ruleset field_rules =
    (local_rules, parse_vector_bytes-IsLocal, parse_txout_to_script-IsLocal, skip_varints-IsLocal)

parse_input_variant-IsLocal : (tag : ℕ) → IsLocal (parse_input_variant tag)
unfolding parse_input_variant parse_generation parse_to_script_hash parse_to_script parse_to_key
parse_input_variant-IsLocal tag = search field_rules depth 12

parse_input-IsLocal : IsLocal parse_input
unfolding parse_input
parse_input-IsLocal = search (local_rules, parse_input_variant-IsLocal)

parse_output_variant-IsLocal : (tag : ℕ) → IsLocal (parse_output_variant tag)
unfolding parse_output_variant
parse_output_variant-IsLocal tag = search field_rules depth 12

parse_output-IsLocal : IsLocal parse_output
unfolding parse_output
parse_output-IsLocal = search (local_rules, parse_output_variant-IsLocal)

parse_inputs-IsLocal : (n : ℕ) → IsLocal (parse_inputs n)
unfolding parse_inputs
parse_inputs-IsLocal zero = search local_rules
parse_inputs-IsLocal (suc n) =
    bind-IsLocal parse_input _ parse_input-IsLocal λ i.
      bind-IsLocal (parse_inputs n) _ (parse_inputs-IsLocal n) (λ rest. pure-IsLocal (i ∷ rest))

parse_outputs-IsLocal : (n : ℕ) → IsLocal (parse_outputs n)
unfolding parse_outputs
parse_outputs-IsLocal zero = search local_rules
parse_outputs-IsLocal (suc n) =
    bind-IsLocal parse_output _ parse_output-IsLocal (λ _. parse_outputs-IsLocal n)

skip_signatures-IsLocal : (inputs : List Input) → IsLocal (skip_signatures inputs)
unfolding skip_signatures
skip_signatures-IsLocal [] = search local_rules
skip_signatures-IsLocal (i ∷ rest) = bind-IsLocal get_remaining _ get_remaining-IsLocal λ left.
    bind-IsLocal (fail_if _ _) _ (fail_if-IsLocal _ _)
      λ _. bind-IsLocal (skip _) _ (skip-IsLocal _) (λ _. skip_signatures-IsLocal rest)

parse_rct-IsLocal : IsLocal parse_rct
unfolding parse_rct
parse_rct-IsLocal = search local_rules

pub parse_signatures-IsLocal :
    (version : ℕ) (inputs : List Input) → IsLocal (parse_signatures version inputs)
unfolding parse_signatures
parse_signatures-IsLocal version inputs =
    search (local_rules, skip_signatures-IsLocal, parse_rct-IsLocal)

pub parse_prefix-IsLocal : IsLocal parse_prefix
unfolding parse_prefix
parse_prefix-IsLocal = search (local_rules, parse_inputs-IsLocal, parse_outputs-IsLocal) depth 40

pub parse_miner_transaction-IsLocal : IsLocal parse_miner_transaction
unfolding parse_miner_transaction
parse_miner_transaction-IsLocal =
    search (local_rules, parse_prefix-IsLocal, parse_signatures-IsLocal) depth 20

pub parse_hashes-IsLocal : (n : ℕ) → IsLocal (parse_hashes n)
unfolding parse_hashes
parse_hashes-IsLocal zero = search local_rules
parse_hashes-IsLocal (suc n) =
    bind-IsLocal (bytes 32) _ (bytes-IsLocal 32) λ h.
      bind-IsLocal (parse_hashes n) _ (parse_hashes-IsLocal n) (λ rest. pure-IsLocal (h ∷ rest))

pub parse_header-IsLocal : IsLocal parse_header
unfolding parse_header
parse_header-IsLocal = search local_rules depth 20
