-- ===== src/Verify/Binding.antt =====
-- What the signed bytes bind.
use robinhood_chain_sequence.Prelude.{
  ℕ, ◌^◌, ◌<◌, ◌≡◌, refl, sym, ap, ◌∙◌, arith, Bool-cases, inl, inr, Option, some, none, List, [],
  ◌∷◌, ◌++◌, append-nil, ok, >>=-eq-ok, Outcome, AnyError, returns, Outcome-eq-ok, >>=-Outcome,
  length, ltb, ltb→lt,
}
use robinhood_chain_sequence.Prelude.Int.{ℤ, pos, negsuc}
use robinhood_chain_sequence.Bytes.{Bytes, from_bytes, to_bytes}
use robinhood_chain_sequence.Bytes.Numbers.{length-to_bytes, from_bytes-to_bytes}
use robinhood_chain_sequence.ParentChain.{Json, join}
use robinhood_chain_sequence.Frame.{Entry, or_zero}
use robinhood_chain_sequence.Verify.{
  feed_prefix, fixed, fixed_int, hex_part, base64_part, sender_part, request_part, base_fee_part,
  Preimage, flatten, preimage, signature_payload,
}

-- Two joined texts agree part by part, where the parts have the same widths.
append-split : (a b x y : Bytes) → length a ≡ length b → a ++ x ≡ b ++ y → (a ≡ b) × (x ≡ y)
append-split [] [] x y e h = (refl, h)
append-split [] (c ∷ b) x y e h = absurd (omega arith)
append-split (c ∷ a) [] x y e h = absurd (omega arith)
append-split (c ∷ a) (d ∷ b) x y e h =
    let same : c ≡ d = cc in
    let rest : a ++ x ≡ b ++ y = cc in
    let (p, q) = append-split a b x y (omega arith) rest in (cc, q)

join-split :
    (a b : Bytes) (xs ys : List Bytes)
    → length a ≡ length b
    → join (a ∷ xs) ≡ join (b ∷ ys)
    → (a ≡ b) × (join xs ≡ join ys)
unfolding join
join-split a b xs ys e h = append-split a b (join xs) (join ys) e h

-- A number that was written in `n` bytes.
fixed-ok :
    (value n : ℕ) (b : Bytes) → fixed value n ≡ ok b → (value < 256 ^ n) × (b ≡ to_bytes value n)
unfolding fixed
fixed-ok value n b h = elim (Bool-cases (ltb value (256 ^ n))) [
  | inl fits ↦ (ltb→lt value (256 ^ n) fits, ground (arith, fits))
  | inr large ↦ absurd (ground (arith, large))
]

length-fixed : (value n : ℕ) (b : Bytes) → fixed value n ≡ ok b → length b ≡ n
length-fixed value n b h = ap length (fixed-ok value n b h).1 ∙ length-to_bytes value n

length-fixed_int : (v : Option ℤ) (n : ℕ) (b : Bytes) → fixed_int v n ≡ ok b → length b ≡ n
unfolding fixed_int
length-fixed_int none n b h = length-fixed 0 n b h
length-fixed_int (some (pos v)) n b h = length-fixed v n b h
length-fixed_int (some (negsuc v)) n b h = absurd (ground arith)

fixed-from_bytes : (value : ℕ) (b : Bytes) → fixed value 8 ≡ ok b → value ≡ from_bytes b
fixed-from_bytes value b h =
    let (fits, e) = fixed-ok value 8 b h in sym (ap from_bytes e ∙ from_bytes-to_bytes value 8 fits)

-- The parts whose widths never change.
record Widths (p : Preimage) : Type 0 where
  chain : length p.chain ≡ 8
  seq : length p.seq ≡ 8
  delayed : length p.delayed ≡ 8
  kind : length p.kind ≡ 1
  block_number : length p.block_number ≡ 8
  timestamp : length p.timestamp ≡ 8

module _ (to_int : Json → Option ℤ) (chain_id : ℕ) (e : Entry) where
  record Parts (p : Preimage) : Type 0 where
    widths : Widths p
    chain_read : fixed chain_id 8 ≡ ok p.chain
    seq_read : fixed_int e.sequence_number 8 ≡ ok p.seq

  preimage-Outcome : Outcome AnyError Parts (preimage to_int chain_id e)
  unfolding preimage
  preimage-Outcome = >>=-Outcome (fixed chain_id 8) _ (λ chain h1.
      >>=-Outcome (fixed_int e.sequence_number 8) _ (λ seq h2.
        >>=-Outcome (hex_part e.block_hash) _ (λ hash h3.
          >>=-Outcome (base64_part e.block_metadata) _ (λ meta h4.
            >>=-Outcome (fixed (or_zero e.delayed_messages_read) 8) _ (λ delayed h5.
              >>=-Outcome (fixed_int e.header.kind 1) _ (λ kind h6.
                >>=-Outcome (sender_part e.header.sender) _ (λ sender h7.
                  >>=-Outcome (fixed (or_zero e.header.block_number) 8) _ (λ number h8.
                    >>=-Outcome (fixed (or_zero e.header.timestamp) 8) _ (λ timestamp h9.
                      >>=-Outcome (request_part e.header.request_id) _ (λ request h10.
                        >>=-Outcome (base_fee_part to_int e.header.base_fee_l1) _ (λ fee h11.
                          >>=-Outcome (base64_part e.l2_msg) _ (λ l2 h12. returns _ (record {
                            widths = record {
                              chain = length-fixed chain_id 8 chain h1;
                              seq = length-fixed_int e.sequence_number 8 seq h2;
                              delayed = length-fixed (or_zero e.delayed_messages_read) 8 delayed h5;
                              kind = length-fixed_int e.header.kind 1 kind h6;
                              block_number =
                                  length-fixed (or_zero e.header.block_number) 8 number h8;
                              timestamp = length-fixed (or_zero e.header.timestamp) 8 timestamp h9;
                            };
                            chain_read = h1;
                            seq_read = h2;
                          })))))))))))))

module _ (to_int : Json → Option ℤ) (chain_id : ℕ) (e : Entry) where
  preimage-Parts : (p : Preimage) → preimage to_int chain_id e ≡ ok p → Parts to_int chain_id e p
  preimage-Parts p h =
      Outcome-eq-ok (preimage to_int chain_id e) p (preimage-Outcome to_int chain_id e) h

  -- The signed bytes are the parts, one after another.
  signature_payload-ok :
      (payload : Bytes)
      → signature_payload to_int chain_id e ≡ ok payload
      → (p : Preimage) × (preimage to_int chain_id e ≡ ok p) × (flatten p ≡ payload)
  unfolding signature_payload
  signature_payload-ok payload h =
      let (p, read, flat) = >>=-eq-ok (preimage to_int chain_id e) (λ p. ok (flatten p)) h in
      (p, read, cc)

  signature_payload_lem :
      (p : Preimage)
      → preimage to_int chain_id e ≡ ok p
      → signature_payload to_int chain_id e ≡ ok (flatten p)
  unfolding signature_payload
  signature_payload_lem p read = rw read

-- The parts whose widths depend on the entry are as wide in both.
pub record SameWidths (p q : Preimage) : Type 0 where
  pub block_hash : length p.block_hash ≡ length q.block_hash
  pub metadata : length p.metadata ≡ length q.metadata
  pub sender : length p.sender ≡ length q.sender
  pub request_id : length p.request_id ≡ length q.request_id
  pub base_fee : length p.base_fee ≡ length q.base_fee

join_one : (b : Bytes) → join (b ∷ []) ≡ b
unfolding join
join_one b = append-nil b

module _ {p q : Preimage} (wp : Widths p) (wq : Widths q) (same : flatten p ≡ flatten q) where
  heads : (p.chain ≡ q.chain) × (p.seq ≡ q.seq)
  unfolding flatten
  heads =
      let (e0, r0) = join-split feed_prefix feed_prefix _ _ refl same in
      let (e1, r1) = join-split p.chain q.chain _ _ (wp.chain ∙ sym wq.chain) r0 in
      let (e2, r2) = join-split p.seq q.seq _ _ (wp.seq ∙ sym wq.seq) r1 in (e1, e2)

  flatten_injective : SameWidths p q → p ≡ q
  unfolding flatten
  flatten_injective w =
      let (e0, r0) = join-split feed_prefix feed_prefix _ _ refl same in
      let (e1, r1) = join-split p.chain q.chain _ _ (wp.chain ∙ sym wq.chain) r0 in
      let (e2, r2) = join-split p.seq q.seq _ _ (wp.seq ∙ sym wq.seq) r1 in
      let (e3, r3) = join-split p.block_hash q.block_hash _ _ w.block_hash r2 in
      let (e4, r4) = join-split p.metadata q.metadata _ _ w.metadata r3 in
      let (e5, r5) = join-split p.delayed q.delayed _ _ (wp.delayed ∙ sym wq.delayed) r4 in
      let (e6, r6) = join-split p.kind q.kind _ _ (wp.kind ∙ sym wq.kind) r5 in
      let (e7, r7) = join-split p.sender q.sender _ _ w.sender r6 in
      let (e8, r8) =
        join-split p.block_number q.block_number _ _ (wp.block_number ∙ sym wq.block_number) r7 in
      let (e9, r9) = join-split p.timestamp q.timestamp _ _ (wp.timestamp ∙ sym wq.timestamp) r8 in
      let (e10, r10) = join-split p.request_id q.request_id _ _ w.request_id r9 in
      let (e11, r11) = join-split p.base_fee q.base_fee _ _ w.base_fee r10 in
      let e12 : p.l2_msg ≡ q.l2_msg = sym (join_one p.l2_msg) ∙ r11 ∙ join_one q.l2_msg in
      λ i. record {
        chain = e1 i;
        seq = e2 i;
        block_hash = e3 i;
        metadata = e4 i;
        delayed = e5 i;
        kind = e6 i;
        sender = e7 i;
        block_number = e8 i;
        timestamp = e9 i;
        request_id = e10 i;
        base_fee = e11 i;
        l2_msg = e12 i;
      }

-- int(entry.get("sequenceNumber") or 0)
abbrev pub signed_seq : Option ℤ → ℕ
signed_seq (some (pos n)) = n
signed_seq _ = 0

fixed_int-signed_seq :
    (v : Option ℤ) (b : Bytes) → fixed_int v 8 ≡ ok b → signed_seq v ≡ from_bytes b
unfolding fixed_int
fixed_int-signed_seq none b h = fixed-from_bytes 0 b h
fixed_int-signed_seq (some (pos n)) b h = fixed-from_bytes n b h
fixed_int-signed_seq (some (negsuc n)) b h = absurd (ground arith)

module _ (to_int : Json → Option ℤ) (chain_id chain_id' : ℕ) (e e' : Entry) (payload : Bytes) where
  -- Entries with the same signed bytes were signed for the same chain id, and with the same
  -- sequence number, where an absent one counts as 0.
  signature_payload-chain_id :
      signature_payload to_int chain_id e ≡ ok payload
      → signature_payload to_int chain_id' e' ≡ ok payload
      → (chain_id ≡ chain_id') × (signed_seq e.sequence_number ≡ signed_seq e'.sequence_number)
  signature_payload-chain_id h h' =
      let (p, read, flat) = signature_payload-ok to_int chain_id e payload h in
      let (q, read', flat') = signature_payload-ok to_int chain_id' e' payload h' in
      let a = preimage-Parts to_int chain_id e p read in
      let b = preimage-Parts to_int chain_id' e' q read' in
      let (chains, seqs) = heads a.widths b.widths (flat ∙ sym flat') in
      (
        fixed-from_bytes chain_id p.chain a.chain_read
            ∙ ap from_bytes chains
            ∙ sym (fixed-from_bytes chain_id' q.chain b.chain_read),
        fixed_int-signed_seq e.sequence_number p.seq a.seq_read
            ∙ ap from_bytes seqs
            ∙ sym (fixed_int-signed_seq e'.sequence_number q.seq b.seq_read),
      )

  -- Entries with the same signed bytes agree in every signed part, where the parts of variable width
  -- (the block hash, the metadata, the sender, the request's id and the base fee) are as wide in
  -- both.
  pub signature_payload-preimage :
      (p q : Preimage)
      → preimage to_int chain_id e ≡ ok p
      → preimage to_int chain_id' e' ≡ ok q
      → SameWidths p q
      → signature_payload to_int chain_id e ≡ ok payload
      → signature_payload to_int chain_id' e' ≡ ok payload
      → p ≡ q
  signature_payload-preimage p q read read' w h h' =
      flatten_injective (preimage-Parts to_int chain_id e p read).widths
        (preimage-Parts to_int chain_id' e' q read').widths
        (cc (
          signature_payload_lem to_int chain_id e p read,
          signature_payload_lem to_int chain_id' e' q read',
        ))
        w
