-- ===== src/ParentChain/Envelope.antt =====
-- The envelopes of the transactions that are built from the parent chain, against RLP lists of the
-- fields that arbos names.
use robinhood_chain_sequence.Prelude.{
  ℕ, Bool, true, false, rejected, ◌≡◌, sym, ap, ◌∙◌, arith, List, [], ◌∷◌, length, ok, err,
  >>=-eq-ok, if◌then◌else◌, ltb, take, slice,
}
use robinhood_chain_sequence.Bytes.{Bytes, from_bytes, any}
use robinhood_chain_sequence.Rlp.{rlp_list, rlp_bytes, rlp_uint}
use robinhood_chain_sequence.Rlp.Uint.{minimal, rlp_uint-minimal}
use robinhood_chain_sequence.Rlp.Fields.{Field, string, encode_all, list_of}
use robinhood_chain_sequence.Tx.{Tx}
use robinhood_chain_sequence.ParentChain.{
  Header, Retryable, join, low_20, retryable_fields, read_retryable, l1_base_fee, submit_retryable,
  eth_deposit, parent_chain_tx, arb_submit_retryable_tx, arb_retryable_tx, retryable_calldata,
}

-- Each field as the string of its bytes.
abbrev strings : List Bytes → List Field
strings [] = []
strings (b ∷ bs) = string b ∷ strings bs

-- The fields of an ArbitrumDepositTx, in order: chain id, request id, sender, recipient, value.
abbrev pub deposit_fields : ℕ → Bytes → Bytes → Bytes → ℕ → List Field
deposit_fields chain_id request_id poster to value =
    strings (minimal chain_id ∷ request_id ∷ poster ∷ to ∷ minimal value ∷ [])

-- The fields of an ArbitrumSubmitRetryableTx, in order. No recipient is the empty string.
abbrev pub submit_fields : Retryable → ℕ → Bytes → Bytes → ℕ → List Field
submit_fields r chain_id request_id poster fee = strings (
    minimal chain_id
    ∷ request_id
    ∷ poster
    ∷ minimal fee
    ∷ minimal (from_bytes r.deposit)
    ∷ minimal (from_bytes r.max_fee)
    ∷ minimal (from_bytes r.gas_limit)
    ∷ (if any (low_20 r.retry_to) then low_20 r.retry_to else [])
    ∷ minimal (from_bytes r.call_value)
    ∷ low_20 r.beneficiary
    ∷ minimal (from_bytes r.max_submission_fee)
    ∷ low_20 r.fee_refund
    ∷ r.retry_data
    ∷ [])

raw-parent_chain_tx :
    (t : ℕ) (parts : List Bytes) (fs : List Field) (to : Bytes) (value gas : ℕ) (bs sender : Bytes)
    → join parts ≡ encode_all fs
    → (parent_chain_tx t parts to value gas bs sender).raw ≡ t ∷ list_of fs
unfolding parent_chain_tx
raw-parent_chain_tx t parts fs to value gas bs sender e = ap (λ c. t ∷ rlp_list c) e

join-deposit :
    (chain_id : ℕ) (request_id poster to : Bytes) (value : ℕ)
    → join (
        rlp_uint chain_id
        ∷ rlp_bytes request_id
        ∷ rlp_bytes poster
        ∷ rlp_bytes to
        ∷ rlp_uint value
        ∷ [])
      ≡ encode_all (deposit_fields chain_id request_id poster to value)
unfolding join
join-deposit chain_id request_id poster to value = simp rlp_uint-minimal

join-retryable_fields :
    (r : Retryable) (request_id poster : Bytes) (fee chain_id : ℕ)
    → join (retryable_fields r request_id poster fee chain_id)
      ≡ encode_all (submit_fields r chain_id request_id poster fee)
unfolding join retryable_fields
join-retryable_fields r request_id poster fee chain_id = simp rlp_uint-minimal

unless_refused :
    (refused : Bool) (x tx : Tx) → (if refused then err rejected else ok x) ≡ ok tx → x ≡ tx
unless_refused true x tx h = absurd (ground arith)
unless_refused false x tx h = cc

-- The envelope of a deposit is the type 0x64 and the RLP list of the chain id, the request's id, the
-- poster, the recipient and the value, each as the fewest bytes that hold it.
eth_deposit-list_of :
    (payload request_id poster : Bytes) (chain_id : ℕ) (tx : Tx)
    → eth_deposit payload request_id poster chain_id ≡ ok tx
    → tx.raw
      ≡ 0x64
        ∷ list_of (
            deposit_fields chain_id request_id poster
              (take 20 payload)
              (from_bytes (slice 20 52 payload)))
unfolding eth_deposit
eth_deposit-list_of payload request_id poster chain_id tx h =
    let to : Bytes = take 20 payload in
    let value : ℕ = from_bytes (slice 20 52 payload) in
    ap (λ (t : Tx). t.raw) (sym (unless_refused (ltb (length payload) 52) _ tx h))
    ∙ raw-parent_chain_tx _ _ (deposit_fields chain_id request_id poster to value) _ _ _ _ _
        (join-deposit chain_id request_id poster to value)

-- The envelope of a submitted retryable is the type 0x69 and the RLP list of the 13 fields that its
-- message and header say, each number as the fewest bytes that hold it.
pub submit_retryable-list_of :
    (payload request_id poster : Bytes) (header : Header) (chain_id : ℕ) (tx : Tx)
    → submit_retryable payload request_id poster header chain_id ≡ ok tx
    → (r : Retryable) × (fee : ℕ) × (read_retryable payload ≡ ok r)
      × (l1_base_fee header.base_fee_l1 ≡ ok fee)
      × (tx.raw ≡ 0x69 ∷ list_of (submit_fields r chain_id request_id poster fee))
unfolding submit_retryable
submit_retryable-list_of payload request_id poster header chain_id tx h =
    let (r, read, h') = >>=-eq-ok (read_retryable payload) _ h in
    let (fee, base, h'') = >>=-eq-ok (l1_base_fee header.base_fee_l1) _ h' in
    let built : parent_chain_tx arb_submit_retryable_tx
          (retryable_fields r request_id poster fee chain_id) arb_retryable_tx 0
          (from_bytes r.gas_limit) (retryable_calldata r request_id fee) poster
        ≡ tx =
      cc in
    (
      r,
      fee,
      read,
      base,
      ap (λ (t : Tx). t.raw) (sym built)
          ∙ raw-parent_chain_tx _ _ (submit_fields r chain_id request_id poster fee) _ _ _ _ _
              (join-retryable_fields r request_id poster fee chain_id),
    )
