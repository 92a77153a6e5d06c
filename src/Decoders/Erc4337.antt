-- ===== src/Decoders/Erc4337.antt =====
-- decoders/erc4337.py: bundles, and the account calls inside them.
use robinhood_chain_sequence.Prelude.{
  ◌+◌, List, [], ◌∷◌, ◌&&◌, none, some, ok, err, malformed, ◌>>=◌, collect, drop, length, ◌==◌,
  if◌then◌else◌,
}
use robinhood_chain_sequence.Bytes.{Bytes}
use robinhood_chain_sequence.Intents.{Decoder, inner}
use robinhood_chain_sequence.Abi.{address, uint, dynamic, tuple_array, static_array, bytes_array}

unfoldable pub handle_ops : Decoder
handle_ops again call depth = do
  ops ← tuple_array (drop 4 call.calldata) 0
  collect
      (λ op. do
        wallet ← address op 0
        bs ← dynamic op 3
        ok (again (inner call (some wallet) 0 bs (some wallet)) (depth + 1)))
      ops

unfoldable pub execute : Decoder
execute again call depth = do
  let d = drop 4 call.calldata
  to ← address d 0
  value ← uint d 1
  bs ← dynamic d 2
  ok (again (inner call (some to) value bs none) (depth + 1))

unfoldable pub execute_batch : Decoder
execute_batch again call depth = do
  calls ← tuple_array (drop 4 call.calldata) 0
  collect
      (λ c. do
        to ← address c 0
        value ← uint c 1
        bs ← dynamic c 2
        ok (again (inner call (some to) value bs none) (depth + 1)))
      calls

-- zip(targets, values, datas)
unfoldable pub zip_calls : List Bytes → List Bytes → List Bytes → List (Bytes × Bytes × Bytes)
zip_calls (t ∷ ts) (v ∷ vs) (d ∷ ds) = (t, v, d) ∷ zip_calls ts vs ds
zip_calls _ _ _ = []

unfoldable pub execute_batch_parallel : Decoder
unfolding zip_calls
execute_batch_parallel again call depth = do
  let d = drop 4 call.calldata
  targets ← static_array d 0 1
  values ← static_array d 1 1
  datas ← bytes_array d 2
  if length targets == length values && length values == length datas
      then collect
          (λ (t, v, bs). do
            to ← address t 0
            value ← uint v 0
            ok (again (inner call (some to) value bs none) (depth + 1)))
          (zip_calls targets values datas)
      else err malformed

-- zip(targets, datas)
unfoldable pub zip_pairs : List Bytes → List Bytes → List (Bytes × Bytes)
zip_pairs (t ∷ ts) (d ∷ ds) = (t, d) ∷ zip_pairs ts ds
zip_pairs _ _ = []

unfoldable pub execute_batch_no_values : Decoder
unfolding zip_pairs
execute_batch_no_values again call depth = do
  let d = drop 4 call.calldata
  targets ← static_array d 0 1
  datas ← bytes_array d 1
  if length targets == length datas
      then collect
          (λ (t, bs). do to ← address t 0; ok (again (inner call (some to) 0 bs none) (depth + 1)))
          (zip_pairs targets datas)
      else err malformed
