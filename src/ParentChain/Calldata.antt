-- ===== src/ParentChain/Calldata.antt =====
-- The calldata that `_submit_retryable` writes, read by the ABI readers.
use robinhood_chain_sequence.Prelude.{
  ℕ, ◌+◌, ◌-◌, ◌*◌, ◌%◌, ◌^◌, ◌<◌, ◌≡◌, refl, sym, ap, ◌∙◌, arith, List, [], ◌∷◌, ◌++◌, length,
  length-append, append_assoc, drop, take, ok, length-drop,
}
use robinhood_chain_sequence.Bytes.{Bytes, from_bytes, to_bytes, zeros}
use robinhood_chain_sequence.Bytes.Numbers.{length-to_bytes}
use robinhood_chain_sequence.Abi.{word, uint, address, dynamic}
use robinhood_chain_sequence.Abi.Readers.{Holds, word_lem, uint_lem, address_lem, dynamic_lem}
use robinhood_chain_sequence.ParentChain.{Retryable, join, low_20, retryable_calldata}

abbrev total : List Bytes → ℕ
total [] = 0
total (p ∷ ps) = length p + total ps

length-join : (ps : List Bytes) → length (join ps) ≡ total ps
unfolding join
length-join [] = refl
length-join (p ∷ ps) = omega (arith, length-append p (join ps), length-join ps)

join-append : (ps qs : List Bytes) → join (ps ++ qs) ≡ join ps ++ join qs
unfolding join
join-append [] qs = refl
join-append (p ∷ ps) qs =
    ap (λ r. p ++ r) (join-append ps qs) ∙ sym (append_assoc p (join ps) (join qs))

-- One part of a joined list, and two that follow each other.
join-Holds :
    (ps qs : List Bytes) (p : Bytes) (at : ℕ) → total ps ≡ at → Holds (join (ps ++ p ∷ qs)) at p
join-Holds ps qs p at e = record {
  before = join ps;
  after = join qs;
  whole = join-append ps (p ∷ qs) ∙ (unfold join in refl);
  place = length-join ps ∙ e;
}

join-Holds_two :
    (ps qs : List Bytes) (p q : Bytes) (at : ℕ)
    → total ps ≡ at
    → Holds (join (ps ++ p ∷ q ∷ qs)) at (p ++ q)
join-Holds_two ps qs p q at e = record {
  before = join ps;
  after = join qs;
  whole =
      join-append ps (p ∷ q ∷ qs)
      ∙ (unfold join in ap (λ r. join ps ++ r) (sym (append_assoc p q (join qs))));
  place = length-join ps ∙ e;
}

-- The words of a message are 32 bytes each, and its last word counts the retry data.
pub record IsMessage (r : Retryable) : Type 0 where
  pub retry_to : length r.retry_to ≡ 32
  pub call_value : length r.call_value ≡ 32
  pub deposit : length r.deposit ≡ 32
  pub max_submission_fee : length r.max_submission_fee ≡ 32
  pub fee_refund : length r.fee_refund ≡ 32
  pub beneficiary : length r.beneficiary ≡ 32
  pub gas_limit : length r.gas_limit ≡ 32
  pub max_fee : length r.max_fee ≡ 32
  pub data_length : length r.data_length ≡ 32
  pub counted : from_bytes r.data_length ≡ length r.retry_data

-- The arguments of `submitRetryable` in `d`.
pub record Arguments (r : Retryable) (request_id : Bytes) (fee : ℕ) (d : Bytes) : Type 0 where
  pub request_id_read : word d 0 ≡ ok request_id
  pub fee_read : uint d 1 ≡ ok fee
  pub deposit_read : word d 2 ≡ ok r.deposit
  pub call_value_read : word d 3 ≡ ok r.call_value
  pub max_fee_read : word d 4 ≡ ok r.max_fee
  pub gas_limit_read : word d 5 ≡ ok r.gas_limit
  pub max_submission_fee_read : word d 6 ≡ ok r.max_submission_fee
  pub fee_refund_read : address d 7 ≡ ok (low_20 r.fee_refund)
  pub beneficiary_read : address d 8 ≡ ok (low_20 r.beneficiary)
  pub retry_to_read : address d 9 ≡ ok (low_20 r.retry_to)
  pub retry_data_read : dynamic d 10 ≡ ok r.retry_data

module _ (r : Retryable) (request_id : Bytes) (fee : ℕ) where
  abbrev padding : Bytes
  padding = zeros ((32 - from_bytes r.data_length % 32) % 32)

  abbrev static : List Bytes
  static =
      request_id
      ∷ to_bytes fee 32
      ∷ r.deposit
      ∷ r.call_value
      ∷ r.max_fee
      ∷ r.gas_limit
      ∷ r.max_submission_fee
      ∷ []

  abbrev addresses : List Bytes
  addresses =
      zeros 12
      ∷ low_20 r.fee_refund
      ∷ zeros 12
      ∷ low_20 r.beneficiary
      ∷ zeros 12
      ∷ low_20 r.retry_to
      ∷ []

  abbrev behind : List Bytes
  behind = to_bytes (32 * 11) 32 ∷ r.data_length ∷ r.retry_data ∷ padding ∷ []

  abbrev args : Bytes
  args = join (static ++ addresses ++ behind)

  pub drop-retryable_calldata : drop 4 (retryable_calldata r request_id fee) ≡ args
  unfolding retryable_calldata join
  drop-retryable_calldata = refl

  length-low_20 : (w : Bytes) → length w ≡ 32 → length (low_20 w) ≡ 20
  length-low_20 w h = omega (arith, length-drop 12 w)

  -- A word of the static part.
  word-static :
      (n : ℕ) (qs : List Bytes) (w : Bytes)
      → join (take n static ++ w ∷ qs) ≡ args
      → total (take n static) ≡ n * 32
      → length w ≡ 32
      → word args n ≡ ok w
  word-static n qs w e at width =
      ap (λ d. word d n) (sym e)
      ∙ word_lem (join (take n static ++ w ∷ qs)) n w width
          (join-Holds (take n static) qs w (n * 32) at)

  module _ (m : IsMessage r) (id_width : length request_id ≡ 32) (small : fee < 256 ^ 32) where
    fee_width : length (to_bytes fee 32) ≡ 32
    fee_width = length-to_bytes fee 32

    total-static : total static ≡ 7 * 32
    total-static = omega (arith, fee_width)

    -- The widths of the parts behind the static words.
    tail_widths :
        (length (to_bytes fee 32) ≡ 32)
        × (length (low_20 r.fee_refund) ≡ 20)
        × (length (low_20 r.beneficiary) ≡ 20)
        × (length (low_20 r.retry_to) ≡ 20)
        × (length (to_bytes 352 32) ≡ 32)
    tail_widths = (
      fee_width,
      length-low_20 r.fee_refund m.fee_refund,
      length-low_20 r.beneficiary m.beneficiary,
      length-low_20 r.retry_to m.retry_to,
      length-to_bytes 352 32,
    )

    pub args-Arguments : Arguments r request_id fee args
    args-Arguments = record {
      request_id_read = word-static 0 _ request_id refl (omega arith) id_width;
      fee_read =
          uint_lem args 1 fee small
            (join-Holds (take 1 static) _ (to_bytes fee 32) 32 (omega arith));
      deposit_read = word-static 2 _ r.deposit refl (omega (arith, fee_width)) m.deposit;
      call_value_read = word-static 3 _ r.call_value refl (omega (arith, fee_width)) m.call_value;
      max_fee_read = word-static 4 _ r.max_fee refl (omega (arith, fee_width)) m.max_fee;
      gas_limit_read = word-static 5 _ r.gas_limit refl (omega (arith, fee_width)) m.gas_limit;
      max_submission_fee_read =
          word-static 6 _ r.max_submission_fee refl (omega (arith, fee_width)) m.max_submission_fee;
      fee_refund_read =
          address_lem args 7 (low_20 r.fee_refund) (length-low_20 r.fee_refund m.fee_refund) (
            join-Holds_two static _ (zeros 12) (low_20 r.fee_refund) (7 * 32)
              (omega (arith, total-static)));
      beneficiary_read =
          address_lem args 8 (low_20 r.beneficiary) (length-low_20 r.beneficiary m.beneficiary) (
            join-Holds_two (static ++ take 2 addresses) _ (zeros 12) (low_20 r.beneficiary) (8 * 32)
              (omega (arith, tail_widths)));
      retry_to_read = address_lem args 9 (low_20 r.retry_to) (length-low_20 r.retry_to m.retry_to) (
          join-Holds_two (static ++ take 4 addresses) _ (zeros 12) (low_20 r.retry_to) (9 * 32)
            (omega (arith, tail_widths)));
      retry_data_read =
          dynamic_lem args 10 352 r.data_length r.retry_data (omega arith) (omega arith)
            m.data_length m.counted
            (join-Holds (static ++ addresses) _ (to_bytes 352 32) (10 * 32)
              (omega (arith, tail_widths)))
            (join-Holds_two (static ++ addresses ++ take 1 behind) _ r.data_length r.retry_data 352
              (omega (arith, tail_widths)));
    }
