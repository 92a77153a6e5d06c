-- ===== src/Decoders/Signatures.antt =====
-- decoders/: the signatures that each decoder is registered under.
use robinhood_chain_sequence.Prelude.{true, false, none, some, List, [], ◌∷◌, ◌++◌}
use robinhood_chain_sequence.Hex.{Text, text}
use robinhood_chain_sequence.Intents.{Decoder}
use robinhood_chain_sequence.Decoders.Erc20
use robinhood_chain_sequence.Decoders.Erc4337
use robinhood_chain_sequence.Decoders.Routers.{steps_swap}
use robinhood_chain_sequence.Decoders.Relay.{fill, sell}
use robinhood_chain_sequence.Decoders.Uniswap.{single, path_call, v2, v2_layout, multicall}

-- The structs that signatures name.
abbrev pub user_op : Text
user_op = text "(address,uint256,bytes,bytes,bytes32,uint256,bytes32,bytes,bytes)"

abbrev relay_calls : Text
relay_calls = text "(address,bool,uint256,bytes)[]"

abbrev permit : Text
permit = text "((address,uint256)[],uint256,uint256)"

abbrev single02 : Text
single02 = text "(address,address,uint24,address,uint256,uint256,uint160)"

abbrev single01 : Text
single01 = text "(address,address,uint24,address,uint256,uint256,uint256,uint160)"

abbrev path02 : Text
path02 = text "(bytes,address,uint256,uint256)"

abbrev path01 : Text
path01 = text "(bytes,address,uint256,uint256,uint256)"

abbrev step2 : Text
step2 = text "(uint8,address,address,address,uint24,int24,address,bytes,address,bytes32)"

abbrev step1 : Text
step1 = text "(uint8,address,address,address,uint24,int24,address,bytes)"

-- A use of `decodes`: a decoder and the signatures that it is registered under.
pub record Registration : Type 0 where
  pub signatures : List Text
  pub decoder : Decoder

abbrev pub under : List Text → Decoder → Registration
under signatures decoder = record { signatures = signatures; decoder = decoder }

abbrev pub erc20 : List Registration
erc20 =
    under (text "transfer(address,uint256)" ∷ []) Erc20.transfer
    ∷ under (text "transferFrom(address,address,uint256)" ∷ []) Erc20.transfer_from
    ∷ under (text "approve(address,uint256)" ∷ []) Erc20.approve
    ∷ under (text "approve(address,address,uint160,uint48)" ∷ []) Erc20.permit2_approve
    ∷ []

abbrev pub erc4337 : List Registration
erc4337 =
    under ((text "handleOps(" ++ user_op ++ text "[],address)") ∷ []) Erc4337.handle_ops
    ∷ under (text "execute(address,uint256,bytes)" ∷ []) Erc4337.execute
    ∷ under (text "executeBatch((address,uint256,bytes)[])" ∷ []) Erc4337.execute_batch
    ∷ under (text "executeBatch(address[],uint256[],bytes[])" ∷ []) Erc4337.execute_batch_parallel
    ∷ under (text "executeBatch(address[],bytes[])" ∷ []) Erc4337.execute_batch_no_values
    ∷ []

abbrev pub relay : List Registration
relay =
    under
      ((text "permit2TransferAndMulticall(address,"
          ++ permit
          ++ text ","
          ++ relay_calls
          ++ text ",address,address,bytes,bytes)")
        ∷ [])
      fill
    ∷ under
        ((text "transferAndMulticall(address[],uint256[],"
            ++ relay_calls
            ++ text ",address,address,bytes)")
          ∷ [])
        sell
    ∷ []

abbrev pub steps_router : List Registration
steps_router =
    under
      ((text "swap(" ++ step2 ++ text "[],address,uint256,uint256,uint256)")
        ∷ (text "swap(" ++ step1 ++ text "[],address,uint256,uint256)")
        ∷ [])
      steps_swap
    ∷ []

-- The functions of the V3 routers, at the slots of the recipient and of the two amounts.
abbrev pub uniswap_v3 : List Registration
uniswap_v3 =
    under ((text "exactInputSingle(" ++ single02 ++ text ")") ∷ []) (single 3 4 5 true)
    ∷ under ((text "exactInputSingle(" ++ single01 ++ text ")") ∷ []) (single 3 5 6 true)
    ∷ under ((text "exactOutputSingle(" ++ single02 ++ text ")") ∷ []) (single 3 4 5 false)
    ∷ under ((text "exactOutputSingle(" ++ single01 ++ text ")") ∷ []) (single 3 5 6 false)
    ∷ under ((text "exactInput(" ++ path02 ++ text ")") ∷ []) (path_call 1 2 3 true)
    ∷ under ((text "exactInput(" ++ path01 ++ text ")") ∷ []) (path_call 1 3 4 true)
    ∷ under ((text "exactOutput(" ++ path02 ++ text ")") ∷ []) (path_call 1 2 3 false)
    ∷ under ((text "exactOutput(" ++ path01 ++ text ")") ∷ []) (path_call 1 3 4 false)
    ∷ []

-- _V2
abbrev pub uniswap_v2 : List Registration
uniswap_v2 =
    under (text "swapExactTokensForTokens(uint256,uint256,address[],address,uint256)" ∷ [])
      (v2 (v2_layout (some 0) 1 2 3 true false false))
    ∷ under
        (text
            "swapExactTokensForTokensSupportingFeeOnTransferTokens(uint256,uint256,address[],address,uint256)"
          ∷ [])
        (v2 (v2_layout (some 0) 1 2 3 true false false))
    ∷ under (text "swapExactTokensForETH(uint256,uint256,address[],address,uint256)" ∷ [])
        (v2 (v2_layout (some 0) 1 2 3 true false true))
    ∷ under
        (text
            "swapExactTokensForETHSupportingFeeOnTransferTokens(uint256,uint256,address[],address,uint256)"
          ∷ [])
        (v2 (v2_layout (some 0) 1 2 3 true false true))
    ∷ under (text "swapExactETHForTokens(uint256,address[],address,uint256)" ∷ [])
        (v2 (v2_layout none 0 1 2 true true false))
    ∷ under
        (text
            "swapExactETHForTokensSupportingFeeOnTransferTokens(uint256,address[],address,uint256)"
          ∷ [])
        (v2 (v2_layout none 0 1 2 true true false))
    ∷ under (text "swapTokensForExactTokens(uint256,uint256,address[],address,uint256)" ∷ [])
        (v2 (v2_layout (some 1) 0 2 3 false false false))
    ∷ under (text "swapTokensForExactETH(uint256,uint256,address[],address,uint256)" ∷ [])
        (v2 (v2_layout (some 1) 0 2 3 false false true))
    ∷ under (text "swapETHForExactTokens(uint256,address[],address,uint256)" ∷ [])
        (v2 (v2_layout none 0 1 2 false true false))
    ∷ []

abbrev pub multicalls : List Registration
multicalls =
    under (text "multicall(bytes[])" ∷ []) (multicall 0)
    ∷ under (text "multicall(uint256,bytes[])" ∷ text "multicall(bytes32,bytes[])" ∷ [])
        (multicall 1)
    ∷ []
