-- ===== src/Monero/Nonce.antt =====
-- src/monero/monero.cpp: a block with another nonce parses to the same block but for its bytes.
use mathlib.Core.List.{append_assoc}
use monero_solo_stratum.Common.{
  ℕ, ◌+◌, ◌≤◌, ◌≡◌, refl, sym, ap, ◌∙◌, subst, List, ◌++◌, length, All, arith, length-append,
}
use monero_solo_stratum.Common.Outcome.{Outcome, ok, throw}
use monero_solo_stratum.Monero.Reader.{MoneroParseError, Reader, Parser, open_reader, bytes, skip}
use monero_solo_stratum.Monero.VarintCanonical.{IsByte}
use monero_solo_stratum.Monero.Parse.{◌>>=◌, pure, get_position}
use monero_solo_stratum.Monero.Block.{
  ParsedBlock, ParsedMinerTransaction, Header, parse_header, parse_transactions, parse_block_body,
  parse_block, result_of,
}
use monero_solo_stratum.Monero.Local.{
  bind_ok, bytes_read, bytes-Consumes, skip-bytes, take-append_left, drop-append_left,
}
use monero_solo_stratum.Monero.BlockLocal.{parse_header-IsLocal}
use monero_solo_stratum.Monero.Mutate.{overwrite, insert_nonce}

-- The parts of a sequence that succeeded.
pub bind_parts :
    {A B : Type 0} (p : Parser A) (f : A → Parser B) (r q : Reader) (b : B)
    → (p >>= f) r ≡ ok (b, q)
    → (a : A) × (m : Reader) × (p r ≡ ok (a, m)) × (f a m ≡ ok (b, q))
unfolding ◌>>=◌
bind_parts p f r q b e = bind_ok (p r) (λ (a, r'). f a r') b q e

pub bind_run :
    {A B : Type 0} (p : Parser A) (f : A → Parser B) (r m : Reader) (a : A)
    → p r ≡ ok (a, m)
    → (p >>= f) r ≡ f a m
unfolding ◌>>=◌
bind_run p f r m a e = rw e

abbrev pub block_of : List ℕ → Header → ℕ → ParsedMinerTransaction × List (List ℕ) → ParsedBlock
block_of blob h nonce_offset rest = record {
  blob = blob;
  major_version = h.major_version;
  minor_version = h.minor_version;
  timestamp = h.timestamp;
  previous_hash = h.previous_hash;
  nonce_offset = nonce_offset;
  miner_transaction = rest.0;
  transaction_hashes = rest.1;
}

abbrev pub with_blob : ParsedBlock → List ℕ → ParsedBlock
with_blob b blob = record {
  blob = blob;
  major_version = b.major_version;
  minor_version = b.minor_version;
  timestamp = b.timestamp;
  previous_hash = b.previous_hash;
  nonce_offset = b.nonce_offset;
  miner_transaction = b.miner_transaction;
  transaction_hashes = b.transaction_hashes;
}

-- The steps of a run of `parse_block_body`: the header ends at `m`, the nonce at `n`.
pub record Run (blob : List ℕ) (r : Reader) (b : ParsedBlock) (q : Reader) : Type 0 where
  pub header : Header
  pub m : Reader
  pub n : Reader
  pub rest : ParsedMinerTransaction × List (List ℕ)
  pub header_read : parse_header r ≡ ok (header, m)
  pub nonce_skipped : skip 4 m ≡ ok (tt, n)
  pub rest_read : parse_transactions n ≡ ok (rest, q)
  pub made : b ≡ block_of blob header m.position rest

pure_ok : {A : Type 0} (a b : A) (r q : Reader) → pure a r ≡ ok (b, q) → (b ≡ a) × (r ≡ q)
unfolding pure
pure_ok a b r q e = ground arith

pub parse_block_body-Run :
    (blob : List ℕ) (r q : Reader) (b : ParsedBlock)
    → parse_block_body blob r ≡ ok (b, q)
    → Run blob r b q
unfolding parse_block_body ◌>>=◌ get_position
parse_block_body-Run blob r q b e =
    let (h, m, eh, e1) = bind_parts parse_header _ r q b e in
    let (u, n, es, e2) = bind_parts (skip 4) _ m q b e1 in
    let (rest, z, er, e3) = bind_parts parse_transactions _ n q b e2 in
    let (eb, ez) = pure_ok (block_of blob h m.position rest) b z q e3 in
    record {
      header = h;
      m = m;
      n = n;
      rest = rest;
      header_read = eh;
      nonce_skipped = es;
      rest_read = er ∙ ap (λ (x : Reader). ok (rest, x)) ez;
      made = eb;
    }

pub run-parse_block_body :
    (blob : List ℕ) (r m n q : Reader) (h : Header) (rest : ParsedMinerTransaction × List (List ℕ))
    → parse_header r ≡ ok (h, m)
    → skip 4 m ≡ ok (tt, n)
    → parse_transactions n ≡ ok (rest, q)
    → parse_block_body blob r ≡ ok (block_of blob h m.position rest, q)
unfolding parse_block_body ◌>>=◌ get_position pure
run-parse_block_body blob r m n q h rest eh es er = rw (eh, es, er)

of_result :
    (m : Outcome MoneroParseError (ParsedBlock × Reader)) (b : ParsedBlock)
    → result_of m ≡ ok b
    → (q : Reader) × (m ≡ ok (b, q))
of_result (ok (c, q)) b e = (q, ground arith)
of_result (throw x) b e = absurd (ground arith)

pub parse_block_ok :
    (blob : List ℕ) (b : ParsedBlock)
    → parse_block blob ≡ ok b
    → (q : Reader) × Run blob (open_reader blob) b q
unfolding parse_block
parse_block_ok blob b e =
    let (q, eq) = of_result (parse_block_body blob (open_reader blob)) b e in
    (q, parse_block_body-Run blob (open_reader blob) q b eq)

skip_run :
    (n : ℕ) (xs ys : List ℕ) (position : ℕ)
    → length xs ≡ n
    → skip n (record { unread = xs ++ ys; position = position })
      ≡ ok (tt, record { unread = ys; position = position + n })
unfolding skip
skip_run n xs ys position e = rw (bytes_read n xs ys position e)

parse_block_run :
    (blob : List ℕ) (b : ParsedBlock) (q : Reader)
    → parse_block_body blob (open_reader blob) ≡ ok (b, q)
    → parse_block blob ≡ ok b
unfolding parse_block
parse_block_run blob b q e = rw e

overwrite_middle :
    (front old new back : List ℕ)
    → length old ≡ length new
    → overwrite (front ++ (old ++ back)) (length front) new ≡ front ++ (new ++ back)
unfolding overwrite
overwrite_middle front old new back e =
    rw
      (
        take-append_left front (old ++ back),
        sym e,
        sym (length-append front old),
        sym (append_assoc front old back),
        drop-append_left (front ++ old) back,
      )
      refl

-- A successful parse cuts the bytes in front of the nonce and behind it, and does not look at it.
abbrev Cut : List ℕ → ParsedBlock → Type 0
Cut blob b =
    (front : List ℕ) × (old : List ℕ) × (back : List ℕ) × (blob ≡ front ++ (old ++ back))
    × (b.blob ≡ blob)
    × (length front ≡ b.nonce_offset)
    × (length old ≡ 4)
    × ((new : List ℕ)
        → length new ≡ 4
        → parse_block (front ++ (new ++ back)) ≡ ok (with_blob b (front ++ (new ++ back))))

Run-Cut :
    (blob : List ℕ) (b : ParsedBlock) (q : Reader)
    → All IsByte blob
    → Run blob (open_reader blob) b q
    → Cut blob b
Run-Cut blob b q bytes run =
    let r = open_reader blob in
    let (front, eu, ep, again) =
      parse_header-IsLocal.run r run.m run.header bytes run.header_read in
    let (old, eo) = skip-bytes 4 run.m run.n tt run.nonce_skipped in
    let (en, len, epn, _) = bytes-Consumes 4 run.m run.n old eo in
    (
      front,
      old,
      run.n.unread,
      eu ∙ ap (λ (x : List ℕ). front ++ x) en,
      ap (λ (x : ParsedBlock). x.blob) run.made,
      omega (arith, ep, ap (λ (x : ParsedBlock). x.nonce_offset) run.made),
      len,
      λ new k.
          let there = new ++ run.n.unread in
          parse_block_run _ _ q (
            run-parse_block_body _ _ _ _ q run.header run.rest
              (again there (
                omega (
                  arith,
                  len,
                  k,
                  ap length en,
                  length-append new run.n.unread,
                  length-append old run.n.unread,
                )))
              (skip_run 4 new run.n.unread run.m.position k)
              (subst
                (λ p.
                  parse_transactions (record { unread = run.n.unread; position = p })
                  ≡ ok (run.rest, q))
                epn run.rest_read))
          ∙ ap (λ (x : ParsedBlock). ok (with_blob x (front ++ there))) (sym run.made),
    )

pub parse_block-Cut :
    (blob : List ℕ) (b : ParsedBlock) → All IsByte blob → parse_block blob ≡ ok b → Cut blob b
parse_block-Cut blob b bytes e =
    let (q, run) = parse_block_ok blob b e in Run-Cut blob b q bytes run

insert_nonce_fits :
    (b : ParsedBlock) (nonce : List ℕ)
    → b.nonce_offset + length nonce ≤ length b.blob
    → insert_nonce b nonce ≡ parse_block (overwrite b.blob b.nonce_offset nonce)
unfolding insert_nonce
insert_nonce_fits b nonce fits = ground arith

-- Inserting four bytes into a block that was parsed from a blob succeeds, and changes exactly the
-- bytes at the nonce offset: every other field of the result is that of the block.
pub insert_nonce_parsed :
    (blob : List ℕ) (b : ParsedBlock) (nonce : List ℕ)
    → All IsByte blob
    → parse_block blob ≡ ok b
    → length nonce ≡ 4
    → insert_nonce b nonce ≡ ok (with_blob b (overwrite blob b.nonce_offset nonce))
insert_nonce_parsed blob b nonce bytes e four =
    let (front, old, back, eb, same, el, len, again) = parse_block-Cut blob b bytes e in
    let written : overwrite blob b.nonce_offset nonce ≡ front ++ (nonce ++ back) =
      rw (eb, sym el) (overwrite_middle front old nonce back (omega arith)) in
    insert_nonce_fits b nonce (
      omega (
        arith,
        el,
        ap length same,
        ap length eb,
        length-append front (old ++ back),
        length-append old back,
      ))
    ∙ rw (same, written) (again nonce four)
