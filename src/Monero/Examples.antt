-- ===== src/Monero/Examples.antt =====
-- The readers and writers of the Monero formats at concrete bytes.
use monero_solo_stratum.Common.{
  ◌≡◌, refl, List, [], ◌∷◌, ◌++◌, ℕ, All, replicate, true, ltb, ◌*◌, ◌^◌, arith,
}
use monero_solo_stratum.Common.Outcome.{ok}
use monero_solo_stratum.Monero.Reader.{Reader, encode_varint, varint, skip}
use monero_solo_stratum.Monero.Block
use monero_solo_stratum.Monero.Parse
use monero_solo_stratum.Monero.Reader.{count}
use monero_solo_stratum.Monero.VarintRead.{varint-encode_varint}
use monero_solo_stratum.Monero.VarintCanonical.{varint_canonical, IsByte}
use monero_solo_stratum.Monero.Block.{ParsedBlock, parse_block}
use monero_solo_stratum.Monero.Mutate.{insert_nonce, overwrite}
use monero_solo_stratum.Monero.Target.{meets_share_target, meets_network_target}
use monero_solo_stratum.Monero.NetworkTarget.{
  decimal_value, bytes_value, IsDifficulty, meets_network_target_exact,
}
use monero_solo_stratum.Monero.ShareTarget.{meets_share_target_exact}
use monero_solo_stratum.Monero.Nonce.{insert_nonce_parsed, with_blob}

abbrev three_hundred : Reader
three_hundred = record { unread = 172 ∷ 2 ∷ 9 ∷ []; position = 4 }

abbrev behind : Reader
behind = record { unread = 9 ∷ []; position = 6 }

reads_three_hundred : varint three_hundred ≡ ok (300, behind)
unfolding varint
reads_three_hundred = refl

varint_canonical_example : three_hundred.unread ≡ encode_varint 300 ++ behind.unread
varint_canonical_example =
    (varint_canonical 300 three_hundred behind (omega arith) reads_three_hundred).0

varint-encode_varint_example :
    varint (record { unread = encode_varint 300 ++ 9 ∷ []; position = 4 }) ≡ ok (300, behind)
unfolding encode_varint
varint-encode_varint_example = varint-encode_varint 300 4 (9 ∷ []) (omega arith)

-- A block of version 1 with one generation input at height 5 and an extra nonce of 16 bytes.
abbrev small_blob : List ℕ
small_blob =
    1
    ∷ 0
    ∷ 9
    ∷ (replicate 32 7
        ++ (1
            ∷ 2
            ∷ 3
            ∷ 4
            ∷ 2
            ∷ 60
            ∷ 1
            ∷ 255
            ∷ 5
            ∷ 0
            ∷ 18
            ∷ 2
            ∷ 16
            ∷ (replicate 16 8 ++ 0 ∷ 0 ∷ [])))

abbrev small_block : ParsedBlock
small_block = record {
  blob = small_blob;
  major_version = 1;
  minor_version = 0;
  timestamp = 9;
  previous_hash = replicate 32 7;
  nonce_offset = 35;
  miner_transaction = record {
    begin_offset = 39;
    end_offset = 65;
    prefix_end_offset = 64;
    unprunable_end_offset = 65;
    extra_begin_offset = 46;
    extra_size = 18;
    version = 2;
    height = 5;
    input_count = 1;
    output_count = 0;
    is_coinbase = true;
  };
  transaction_hashes = [];
}

small_block_parsed : parse_block small_blob ≡ ok small_block
unfolding parse_block Block.parse_block_body Block.parse_header Block.parse_transactions
    Block.parse_miner_transaction Block.parse_prefix Block.parse_inputs Block.parse_input
    Block.parse_input_variant Block.parse_generation Block.parse_outputs Block.parse_hashes
    Block.parse_rct Block.parse_signatures Block.parse_vector_bytes Block.require_eof Parse.◌>>=◌
    Parse.pure Parse.fail Parse.fail_if Parse.get_position Parse.get_remaining varint encode_varint
    count skip
small_block_parsed = refl

small_blob-IsByte : All IsByte small_blob
small_blob-IsByte = ground arith

insert_nonce_parsed_example :
    insert_nonce small_block (9 ∷ 9 ∷ 9 ∷ 9 ∷ [])
    ≡ ok (with_blob small_block (overwrite small_blob 35 (9 ∷ 9 ∷ 9 ∷ 9 ∷ [])))
insert_nonce_parsed_example =
    insert_nonce_parsed small_blob small_block (9 ∷ 9 ∷ 9 ∷ 9 ∷ []) small_blob-IsByte
      small_block_parsed refl

-- A hash below 2^200 and the text of the number 300.
abbrev small_hash : List ℕ
small_hash = replicate 25 3 ++ replicate 7 0

small_hash-IsByte : All IsByte small_hash
small_hash-IsByte = ground arith

abbrev three_hundred_text : List ℕ
three_hundred_text = 51 ∷ 48 ∷ 48 ∷ []

three_hundred_text-IsDifficulty : IsDifficulty three_hundred_text 300
unfolding decimal_value
three_hundred_text-IsDifficulty = ground arith

meets_network_target_exact_example :
    meets_network_target small_hash three_hundred_text
    ≡ ok (ltb (bytes_value small_hash * 300) (2 ^ 256))
meets_network_target_exact_example =
    meets_network_target_exact small_hash three_hundred_text 300 refl small_hash-IsByte
      three_hundred_text-IsDifficulty

meets_share_target_exact_example :
    meets_share_target small_hash 7 ≡ ltb (bytes_value small_hash) (7 * 2 ^ 192)
meets_share_target_exact_example = meets_share_target_exact small_hash 7 refl small_hash-IsByte
