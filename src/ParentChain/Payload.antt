-- ===== src/ParentChain/Payload.antt =====
-- A SubmitRetryable message, from its payload to the calldata of the transaction.
use robinhood_chain_sequence.Prelude.{
  ℕ, zero, suc, ◌+◌, ◌-◌, ◌*◌, ◌^◌, ◌≤◌, ◌<◌, ◌≡◌, sym, ap, ◌∙◌, arith, List, [], length,
  length-append, Bool, true, false, rejected, take-append, append-nil, drop, take, slice, get_or,
  ok, err, >>=-eq-ok, ltb, leb, ◌==◌, ◌&&◌, length-slice, length-replicate, length-take,
  if◌then◌else◌,
}
use robinhood_chain_sequence.Prelude.Int.{pos, negsuc}
use robinhood_chain_sequence.Bytes.{Bytes, from_bytes, zeros, ljust}
use robinhood_chain_sequence.Tx.{Tx, calldata}
use robinhood_chain_sequence.L2.{max_l2_message_size}
use robinhood_chain_sequence.ParentChain.{
  Json, Header, null, empty, other, num, str, Retryable, retryable_of, retryable_calldata,
  retryable_fields, parent_chain_tx, arb_submit_retryable_tx, arb_retryable_tx, read_retryable,
  l1_base_fee, submit_retryable, words, words_from,
}
use robinhood_chain_sequence.ParentChain.Calldata.{
  IsMessage, Arguments, args-Arguments, drop-retryable_calldata,
}

words-ok :
    (payload : Bytes) (count : ℕ) (w : List Bytes)
    → words payload count ≡ ok w
    → (32 * count ≤ length payload) × (words_from 0 count payload ≡ w)
unfolding words
words-ok payload count w h = (ground arith, ground arith)

word-width :
    (payload : Bytes) (i count k : ℕ)
    → k < count
    → i + 32 * count ≤ length payload
    → length (get_or (words_from i count payload) k []) ≡ 32
unfolding words_from
word-width payload i zero k h room = absurd (omega arith)
word-width payload i (suc count) zero h room =
    length-slice i (i + 32) payload (omega arith) ∙ omega arith
word-width payload i (suc count) (suc k) h room =
    word-width payload (i + 32) count k (omega arith) (omega arith)

length-ljust : (bs : Bytes) (n : ℕ) → length bs ≤ n → length (ljust bs n) ≡ n
unfolding ljust
length-ljust bs n h =
    let fill : length (zeros (n - length bs)) ≡ n - length bs =
      length-replicate {A = ℕ} (n - length bs) 0 in
    omega (arith, length-append bs (zeros (n - length bs)), fill)

length-slice-le : (s n : ℕ) (bs : Bytes) → length (slice s (s + n) bs) ≤ n
unfolding slice
length-slice-le s n bs = omega (arith, length-take (s + n - s) (drop s bs))

-- What the tests of a message let through.
tests-passed :
    (a b c : Bool) (x r : Retryable)
    → (if a then err rejected else if b then err rejected else if c then err rejected else ok x)
      ≡ ok r
    → x ≡ r
tests-passed true b c x r h = absurd (ground arith)
tests-passed false true c x r h = absurd (ground arith)
tests-passed false false true x r h = absurd (ground arith)
tests-passed false false false x r h = cc

read_retryable-IsMessage :
    (payload : Bytes) (r : Retryable) → read_retryable payload ≡ ok r → IsMessage r
unfolding read_retryable
read_retryable-IsMessage payload r h =
    let (w, split, h') = >>=-eq-ok (words payload 9) _ h in
    let (room, e) = words-ok payload 9 w split in
    let width : (k : ℕ) → k < 9 → length (get_or w k []) ≡ 32 = λ k small.
      ap (λ v. length (get_or v k [])) (sym e) ∙ word-width payload 0 9 k small (omega arith) in
    let size : ℕ = from_bytes (get_or w 8 []) in
    let tail : Bytes = slice 288 (288 + size) payload in
    let read =
      tests-passed (leb (2 ^ 64) (from_bytes (get_or w 6 []))) (ltb max_l2_message_size size)
        (ltb 0 size && length tail == 0) (retryable_of w (ljust tail size)) r h' in
    rw (← read) (record {
      retry_to = width 0 (omega arith);
      call_value = width 1 (omega arith);
      deposit = width 2 (omega arith);
      max_submission_fee = width 3 (omega arith);
      fee_refund = width 4 (omega arith);
      beneficiary = width 5 (omega arith);
      gas_limit = width 6 (omega arith);
      max_fee = width 7 (omega arith);
      data_length = width 8 (omega arith);
      counted = sym (length-ljust tail size (length-slice-le 288 size payload));
    })

l1_base_fee-lt : (j : Json) (fee : ℕ) → l1_base_fee j ≡ ok fee → fee < 256 ^ 32
unfolding l1_base_fee
l1_base_fee-lt null fee h = ground arith
l1_base_fee-lt other fee h = ground arith
l1_base_fee-lt empty fee h = ground arith
l1_base_fee-lt (str t) fee h = ground arith
l1_base_fee-lt (num (pos n)) fee h = ground arith
l1_base_fee-lt (num (negsuc n)) fee h = ground arith

slice_whole : (bs : Bytes) → slice 0 (length bs) bs ≡ bs
unfolding slice
slice_whole bs =
    ap (λ c. take (length bs - 0) c) (sym (append-nil bs))
    ∙ take-append bs [] (length bs - 0) (omega arith)

calldata-parent_chain_tx :
    (t : ℕ) (fields : List Bytes) (to : Bytes) (value gas : ℕ) (bs sender : Bytes)
    → calldata (parent_chain_tx t fields to value gas bs sender) ≡ bs
unfolding calldata parent_chain_tx
calldata-parent_chain_tx t fields to value gas bs sender = slice_whole bs

-- The transaction that `_submit_retryable` builds carries calldata whose arguments the ABI readers
-- read back: the request's id, the base fee, the message's words, the low 20 bytes of its three
-- addresses, and the retry data, padded to the length that the message states. The request's id has
-- 32 bytes.
pub submit_retryable-Arguments :
    (payload request_id poster : Bytes) (header : Header) (chain_id : ℕ) (tx : Tx)
    → length request_id ≡ 32
    → submit_retryable payload request_id poster header chain_id ≡ ok tx
    → (r : Retryable) × (fee : ℕ) × (read_retryable payload ≡ ok r)
      × (l1_base_fee header.base_fee_l1 ≡ ok fee)
      × (length r.retry_data ≡ from_bytes r.data_length)
      × Arguments r request_id fee (drop 4 (calldata tx))
unfolding submit_retryable
submit_retryable-Arguments payload request_id poster header chain_id tx width h =
    let (r, read, h') = >>=-eq-ok (read_retryable payload) _ h in
    let (fee, base, h'') = >>=-eq-ok (l1_base_fee header.base_fee_l1) _ h' in
    let m = read_retryable-IsMessage payload r read in
    let built : parent_chain_tx arb_submit_retryable_tx
          (retryable_fields r request_id poster fee chain_id) arb_retryable_tx 0
          (from_bytes r.gas_limit) (retryable_calldata r request_id fee) poster
        ≡ tx =
      cc in
    let shown : calldata tx ≡ retryable_calldata r request_id fee =
      ap calldata (sym built) ∙ calldata-parent_chain_tx _ _ _ _ _ _ _ in
    (
      r,
      fee,
      read,
      base,
      sym m.counted,
      rw (shown, drop-retryable_calldata r request_id fee)
          (args-Arguments r request_id fee m width (l1_base_fee-lt header.base_fee_l1 fee base)),
    )
