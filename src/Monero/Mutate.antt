-- ===== src/Monero/Mutate.antt =====
-- src/monero/monero.cpp: `insert_nonce`, `mutate_reserved_bytes` and
-- `reserved_offset_is_exact_extra_nonce`.
use monero_solo_stratum.Common.{
  ℕ, zero, suc, ◌+◌, ◌-◌, ◌*◌, ◌/◌, Bool, true, false, not, ◌&&◌, ◌||◌, List, [], ◌∷◌, ◌++◌, ltb,
  ◌==◌, if◌then◌else◌, length, take, drop,
}
use monero_solo_stratum.Common.Outcome.{Outcome, ok, throw, ◌>>=◌}
use monero_solo_stratum.Monero.Reader.{
  MoneroParseError, Reader, open_reader, remaining, is_eof, varint, skip, nonce_outside,
  not_exact_extra_nonce,
}
use monero_solo_stratum.Monero.Block.{ParsedBlock, parse_block}

-- `std::copy(source.begin(), source.end(), target.begin() + offset)`
unfoldable pub overwrite : List ℕ → ℕ → List ℕ → List ℕ
overwrite target offset source =
    take offset target ++ (source ++ drop (offset + length source) target)

unfoldable pub insert_nonce : ParsedBlock → List ℕ → Outcome MoneroParseError ParsedBlock
unfolding overwrite
insert_nonce block nonce =
    if ltb (length block.blob) (block.nonce_offset + length nonce)
    then throw nonce_outside
    else parse_block (overwrite block.blob block.nonce_offset nonce)

-- The padding loop: only zero bytes up to the end, at most 255 of padding with the tag.
unfoldable pub is_padding : List ℕ → ℕ → Bool
is_padding [] padding_size = true
is_padding (b ∷ rest) padding_size =
    (b == 0) && not (ltb 255 (padding_size + 1)) && is_padding rest (padding_size + 1)

-- The offset that is looked for, and where the extra begins.
pub record Search : Type 0 where
  pub extra_begin_offset : ℕ
  pub reserved_offset : ℕ
  pub reserve_size : ℕ

-- Where the loop goes after a field: it returns false, stops at the end, or reads on.
pub data Next : Type 0 where
  rejected : Next
  go_on : Bool → Reader → Next

unfoldable pub sized_field : Bool → Reader → Outcome MoneroParseError Next
sized_field found r = do
  (size, r') ← varint r
  if ltb (remaining r') size
      then ok rejected
      else (do (_, r'') ← skip size r'; ok (go_on found r''))

unfoldable pub nonce_field : Search → Bool → Reader → Outcome MoneroParseError Next
nonce_field s found r = do
  (size, r') ← varint r
  let here = size == s.reserve_size && s.extra_begin_offset + r'.position == s.reserved_offset
  if ltb (remaining r') size
      then ok rejected
      else (do (_, r'') ← skip size r'; ok (go_on (found || here) r''))

unfoldable pub keys_field : Bool → Reader → Outcome MoneroParseError Next
keys_field found r = do
  (n, r') ← varint r
  if ltb (remaining r' / 32) n
      then ok rejected
      else (do (_, r'') ← skip (n * 32) r'; ok (go_on found r''))

unfoldable pub extra_field : Search → Bool → Reader → Outcome MoneroParseError Next
unfolding sized_field nonce_field keys_field is_padding
extra_field s found r = do
  (tag, r') ← varint r
  if tag == 0x00
      then ok (
          if is_padding r'.unread 1
          then go_on found (record { unread = []; position = r'.position + remaining r' })
          else rejected)
      else if tag == 0x01
      then (do (_, r'') ← skip 32 r'; ok (go_on found r''))
      else if tag == 0x02
      then nonce_field s found r'
      else if tag == 0x03 || tag == 0xde
      then sized_field found r'
      else if tag == 0x04
      then keys_field found r'
      else ok rejected

-- The `while (!extra.eof())` loop. A field takes at least its tag, so as much fuel as there are
-- bytes is enough.
unfoldable pub scan_extra : ℕ → Search → Bool → Reader → Outcome MoneroParseError Bool
unfolding extra_field
scan_extra zero s found r = ok found
scan_extra (suc fuel) s found r = elim (is_eof r) [
  | true ↦ ok found
  | false ↦ extra_field s found r >>= λ n. elim n [
    | rejected ↦ ok false
    | go_on found' r' ↦ scan_extra fuel s found' r'
  ]
]

-- `catch (const MoneroParseError &) { return false; }`
abbrev pub caught : Outcome MoneroParseError Bool → Bool
caught (ok found) = found
caught (throw e) = false

unfoldable pub reserved_offset_is_exact_extra_nonce : ParsedBlock → ℕ → ℕ → Bool
unfolding scan_extra
reserved_offset_is_exact_extra_nonce block reserved_offset reserve_size =
    let tx = block.miner_transaction in
    let size = length block.blob in
    let extra = take tx.extra_size (drop tx.extra_begin_offset block.blob) in
    let search : Search = record {
      extra_begin_offset = tx.extra_begin_offset;
      reserved_offset = reserved_offset;
      reserve_size = reserve_size;
    } in
    if not (reserve_size == 16)
    then false
    else if ltb size tx.extra_begin_offset
        || ltb (size - tx.extra_begin_offset) tx.extra_size
        || ltb size reserved_offset
        || ltb (size - reserved_offset) reserve_size
    then false
    else caught (scan_extra (length extra) search false (open_reader extra))

unfoldable pub mutate_reserved_bytes :
    ParsedBlock → ℕ → List ℕ → Outcome MoneroParseError ParsedBlock
unfolding overwrite reserved_offset_is_exact_extra_nonce
mutate_reserved_bytes block reserved_offset replacement =
    if not (length replacement == 16)
      || not (reserved_offset_is_exact_extra_nonce block reserved_offset (length replacement))
    then throw not_exact_extra_nonce
    else parse_block (overwrite block.blob reserved_offset replacement)
