-- ===== src/Monero/Block.antt =====
-- src/monero/monero.cpp: `parse_block` and the parsers below it.
use monero_solo_stratum.Common.{
  ℕ, zero, suc, ◌*◌, ◌/◌, Bool, true, false, not, ◌||◌, List, [], ◌∷◌, ltb, ◌==◌, if◌then◌else◌,
}
use monero_solo_stratum.Common.Outcome.{Outcome, ok, throw}
use monero_solo_stratum.Monero.Reader.{
  MoneroParseError, Reader, Parser, open_reader, is_eof, byte, bytes, skip, varint, count,
  unsupported_input, unsupported_output, unsupported_version, invalid_input_count,
  not_one_generation_input, invalid_output_count, truncated_signatures, non_null_ringct,
  unsupported_block_version, trailing_bytes,
}
use monero_solo_stratum.Monero.Parse.{◌>>=◌, ◌>>◌, pure, fail, fail_if, get_position, get_remaining}

pub record ParsedMinerTransaction : Type 0 where
  pub begin_offset : ℕ
  pub end_offset : ℕ
  pub prefix_end_offset : ℕ
  pub unprunable_end_offset : ℕ
  pub extra_begin_offset : ℕ
  pub extra_size : ℕ
  pub version : ℕ
  pub height : ℕ
  pub input_count : ℕ
  pub output_count : ℕ
  pub is_coinbase : Bool

pub record ParsedBlock : Type 0 where
  pub blob : List ℕ
  pub major_version : ℕ
  pub minor_version : ℕ
  pub timestamp : ℕ
  pub previous_hash : List ℕ
  pub nonce_offset : ℕ
  pub miner_transaction : ParsedMinerTransaction
  pub transaction_hashes : List (List ℕ)

unfoldable pub parse_vector_bytes : Parser (Unit {0})
parse_vector_bytes = do size ← count 1; skip size

unfoldable pub parse_public_key_vector : Parser (Unit {0})
parse_public_key_vector = do n ← count 32; skip (n * 32)

unfoldable pub parse_txout_to_script : Parser (Unit {0})
parse_txout_to_script = do parse_public_key_vector; parse_vector_bytes

-- What `parse_input` leaves in its reference parameters, which start at 0, false and 0.
pub record Input : Type 0 where
  pub coinbase_height : ℕ
  pub coinbase : Bool
  pub signature_count : ℕ

abbrev plain_input : ℕ → Input
plain_input signatures = record {
  coinbase_height = 0;
  coinbase = false;
  signature_count = signatures;
}

-- `for (i = 0; i < offsets; ++i) (void)reader.varint();`
unfoldable pub skip_varints : ℕ → Parser (Unit {0})
skip_varints zero = pure tt
skip_varints (suc n) = do _ ← varint; skip_varints n

unfoldable pub parse_generation : Parser Input
parse_generation = do
  height ← varint
  pure (record { coinbase_height = height; coinbase = true; signature_count = 0 })

unfoldable pub parse_to_script_hash : Parser Input
parse_to_script_hash = do skip 32; _ ← varint; parse_vector_bytes; pure (plain_input 0)

unfoldable pub parse_to_script : Parser Input
parse_to_script = do
  skip 32
  _ ← varint
  parse_txout_to_script
  parse_vector_bytes
  pure (plain_input 0)

unfoldable pub parse_to_key : Parser Input
parse_to_key = do
  _ ← varint
  offsets ← count 1
  skip_varints offsets
  skip 32
  pure (plain_input offsets)

unfoldable pub parse_input_variant : ℕ → Parser Input
parse_input_variant tag =
    if tag == 0xff
    then parse_generation
    else if tag == 0x00
    then parse_to_script_hash
    else if tag == 0x01
    then parse_to_script
    else if tag == 0x02
    then parse_to_key
    else fail unsupported_input

unfoldable pub parse_input : Parser Input
parse_input = do tag ← byte; parse_input_variant tag

unfoldable pub parse_output_variant : ℕ → Parser (Unit {0})
parse_output_variant tag =
    if tag == 0x00
    then parse_txout_to_script
    else if tag == 0x01
    then skip 32
    else if tag == 0x02
    then skip 32
    else if tag == 0x03
    then skip 33
    else fail unsupported_output

unfoldable pub parse_output : Parser (Unit {0})
parse_output = do _ ← varint; tag ← byte; parse_output_variant tag

unfoldable pub parse_inputs : ℕ → Parser (List Input)
parse_inputs zero = pure []
parse_inputs (suc n) = do i ← parse_input; rest ← parse_inputs n; pure (i ∷ rest)

unfoldable pub parse_outputs : ℕ → Parser (Unit {0})
parse_outputs zero = pure tt
parse_outputs (suc n) = do parse_output; parse_outputs n

-- The first input decides `is_coinbase` and `height`.
abbrev pub first_coinbase : List Input → Bool
first_coinbase [] = false
first_coinbase (i ∷ rest) = i.coinbase

abbrev pub first_height : List Input → ℕ
first_height [] = 0
first_height (i ∷ rest) = i.coinbase_height

unfoldable pub skip_signatures : List Input → Parser (Unit {0})
skip_signatures [] = pure tt
skip_signatures (i ∷ rest) = do
  left ← get_remaining
  fail_if (ltb (left / 64) i.signature_count) truncated_signatures
  skip (i.signature_count * 64)
  skip_signatures rest

unfoldable pub parse_rct : Parser (Unit {0})
parse_rct = do rct_type ← byte; fail_if (not (rct_type == 0)) non_null_ringct

-- What stands before the extra field of the miner transaction, up to its first byte.
pub record Prefix : Type 0 where
  pub begin_offset : ℕ
  pub version : ℕ
  pub inputs : List Input
  pub input_count : ℕ
  pub output_count : ℕ
  pub extra_size : ℕ

unfoldable pub parse_prefix : Parser Prefix
parse_prefix = do
  begin ← get_position
  version ← varint
  fail_if (version == 0 || ltb 2 version) unsupported_version
  _ ← varint
  input_count ← varint
  left ← get_remaining
  fail_if (input_count == 0 || ltb left input_count) invalid_input_count
  inputs ← parse_inputs input_count
  fail_if (not (first_coinbase inputs) || not (input_count == 1)) not_one_generation_input
  output_count ← varint
  left' ← get_remaining
  fail_if (ltb left' output_count) invalid_output_count
  parse_outputs output_count
  extra_size ← count 1
  pure (record {
    begin_offset = begin;
    version = version;
    inputs = inputs;
    input_count = input_count;
    output_count = output_count;
    extra_size = extra_size;
  })

unfoldable pub parse_signatures : ℕ → List Input → Parser (Unit {0})
parse_signatures version inputs = if version == 1 then skip_signatures inputs else parse_rct

unfoldable pub parse_miner_transaction : Parser ParsedMinerTransaction
parse_miner_transaction = do
  p ← parse_prefix
  extra_begin ← get_position
  skip p.extra_size
  prefix_end ← get_position
  parse_signatures p.version p.inputs
  unprunable_end ← get_position
  pure (record {
    begin_offset = p.begin_offset;
    end_offset = unprunable_end;
    prefix_end_offset = prefix_end;
    unprunable_end_offset = unprunable_end;
    extra_begin_offset = extra_begin;
    extra_size = p.extra_size;
    version = p.version;
    height = first_height p.inputs;
    input_count = p.input_count;
    output_count = p.output_count;
    is_coinbase = first_coinbase p.inputs;
  })

unfoldable pub parse_hashes : ℕ → Parser (List (List ℕ))
parse_hashes zero = pure []
parse_hashes (suc n) = do h ← bytes 32; rest ← parse_hashes n; pure (h ∷ rest)

-- The header up to the nonce: the three varints and the previous hash.
pub record Header : Type 0 where
  pub major_version : ℕ
  pub minor_version : ℕ
  pub timestamp : ℕ
  pub previous_hash : List ℕ

unfoldable pub parse_header : Parser Header
parse_header = do
  major ← varint
  minor ← varint
  timestamp ← varint
  fail_if (major == 0 || ltb 255 major || ltb 255 minor) unsupported_block_version
  previous ← bytes 32
  pure (record {
    major_version = major;
    minor_version = minor;
    timestamp = timestamp;
    previous_hash = previous;
  })

unfoldable pub require_eof : Parser (Unit {0})
require_eof r = if is_eof r then ok (tt, r) else throw trailing_bytes

-- What follows the nonce.
unfoldable pub parse_transactions : Parser (ParsedMinerTransaction × List (List ℕ))
parse_transactions = do
  tx ← parse_miner_transaction
  tx_count ← count 32
  hashes ← parse_hashes tx_count
  require_eof
  pure (tx, hashes)

unfoldable pub parse_block_body : List ℕ → Parser ParsedBlock
parse_block_body blob = do
  h ← parse_header
  nonce_offset ← get_position
  skip 4
  rest ← parse_transactions
  pure (record {
    blob = blob;
    major_version = h.major_version;
    minor_version = h.minor_version;
    timestamp = h.timestamp;
    previous_hash = h.previous_hash;
    nonce_offset = nonce_offset;
    miner_transaction = rest.0;
    transaction_hashes = rest.1;
  })

abbrev pub result_of :
    Outcome MoneroParseError (ParsedBlock × Reader) → Outcome MoneroParseError ParsedBlock
result_of (ok (block, r)) = ok block
result_of (throw e) = throw e

unfoldable pub parse_block : List ℕ → Outcome MoneroParseError ParsedBlock
parse_block blob = result_of (parse_block_body blob (open_reader blob))
