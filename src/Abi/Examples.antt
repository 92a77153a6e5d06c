-- ===== src/Abi/Examples.antt =====
-- Runs of the theorems on ABI arguments.
use robinhood_chain_sequence.Prelude.{◌≡◌, refl, arith, [], ◌∷◌, ◌++◌, ok, replicate}
use robinhood_chain_sequence.Bytes.{Bytes, from_bytes, to_bytes}
use robinhood_chain_sequence.Abi.{dynamic}
use robinhood_chain_sequence.Abi.Readers.{Holds, dynamic_lem}

-- f(address, bytes), with three bytes.
abbrev arguments : Bytes
arguments =
    replicate 12 0
    ++ replicate 20 0xaa
    ++ to_bytes 64 32
    ++ (replicate 31 0 ++ 3 ∷ [])
    ++ 1 ∷ 2 ∷ 3 ∷ replicate 29 0

offset-Holds : Holds arguments 32 (to_bytes 64 32)
unfolding to_bytes
offset-Holds = record {
  before = replicate 12 0 ++ replicate 20 0xaa;
  after = (replicate 31 0 ++ 3 ∷ []) ++ 1 ∷ 2 ∷ 3 ∷ replicate 29 0;
  whole = refl;
  place = refl;
}

blob-Holds : Holds arguments 64 ((replicate 31 0 ++ 3 ∷ []) ++ 1 ∷ 2 ∷ 3 ∷ [])
unfolding to_bytes
blob-Holds = record {
  before = replicate 12 0 ++ replicate 20 0xaa ++ to_bytes 64 32;
  after = replicate 29 0;
  whole = refl;
  place = refl;
}

dynamic_lem_example : dynamic arguments 1 ≡ ok (1 ∷ 2 ∷ 3 ∷ [])
dynamic_lem_example =
    dynamic_lem arguments 1 64 (replicate 31 0 ++ 3 ∷ []) (1 ∷ 2 ∷ 3 ∷ []) (omega arith)
      (omega arith) refl (unfold from_bytes in refl) offset-Holds blob-Holds
