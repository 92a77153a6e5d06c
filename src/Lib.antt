-- ===== src/Lib.antt =====
-- Verification library of rhfeed, a decoder and consumer of the sequencer feed of an Arbitrum chain.
--
-- The program reads frames of JSON from a relay. `FeedConsumer` (src/rhfeed/consume.py) keeps a
-- connection open, connects again after a failure, and decides which entries are trusted, new and
-- live; a `Verifier` (src/rhfeed/verify.py) decides on trust by an entry's signature; `parse_frame`
-- (src/rhfeed/codec.py) decodes an entry, whose payload is an L2 message with signed transactions,
-- or a message of the parent chain; `decode_intents` (src/rhfeed/intents.py) reads what a
-- transaction's calldata asks for, through the decoders of src/rhfeed/decoders; the command line
-- (src/rhfeed/cli.py) filters transactions by them. The scripts of examples use these: one signals the
-- trades of wallets, one counts what a capture holds, and one executes the blocks of the feed on an
-- EVM and compares the outcome with the receipts of a node.
--
-- Files:
--   Prelude     shared names, Boolean tests, lists over the native numbers, results, integers
--   Bytes       int.from_bytes, int.to_bytes, bit_length and padding
--   Rlp         codec.py: _scan_list and the _rlp_* writers
--   Tx          codec.py: Tx, decode_transaction, _signed_tx, Tx._recover, Tx.sender_bytes; Tx/Texts:
--               checksum and the properties that are printed
--   L2          codec.py: _split_batch, _check_unsigned_tx, _parse_l2_message, decode_l2_message
--   Hex, Base64 codec.py: _unhex, sel, addr, is_filtered_call; Python's base64.b64decode
--   ParentChain codec.py: decode_parent_chain_message, _submit_retryable and what they call
--   Frame       codec.py: FeedMessage, parse_frame
--   Verify      verify.py: signature_payload, recover_signer, Verifier
--   Consumer    consume.py: the state of FeedConsumer, _is_current, _is_reorg, _remember, _reject,
--               _frame, live
--   Session     consume.py: messages, _check_chain, _find_chain_id, _monitor
--   Abi         abi.py
--   Intents     intents.py: Call, Intent, inner, decode_call, decode_intents; Intents/Dict: as_dict
--   Decoders    decoders/*.py; Decoders/Signatures and Decoders/Registry: decodes of intents.py and
--               the table that it fills; Decoders/Sound: the form of intents
--   Cli         cli.py: resolve_feed, Filter, the loop of watch
--   LocalExecution
--               examples/local_execution/execute.py: Trace is the loop of traced, Machine is execute,
--               traced and score, Counters and Blocks are run_blocks, Snapshot is snapshot_at and
--               evm_from_snapshot; Tree tells an execution by its tree of calls
--   Signals     examples/copy_trade_signals.py; Signals/Tally: examples/replay_capture.py, and load
--               of examples/bench.py
-- Below a component, each file is named for what it proves; Examples holds runs on small data.
--
-- Correspondence. Functions keep the source's names without the leading underscore. A byte string
-- is a list of numbers, and a text the list of its code points. An exception of the code
-- is a value of Result: value_error for ValueError, malformed for Malformed, rejected for
-- _Rejected, attribute_error for an attribute read of None. The mutable object of FeedConsumer is a
-- record that each operation takes and returns, with the list of what it yields. A session is a
-- step relation over what the network does: a handshake is kept or refused, a frame arrives, the
-- stream ends, or an exception is raised; the sleep before the next connection is part of the last.
-- The attribute _sender of a transaction is a slot that sender_bytes fills.
--
-- Fuel. The scanner's loop gets one round more than the buffer has bytes, since a round moves at
-- least one byte on. The splitter of batches has the same, with eight bytes for a round. The
-- recursive parser gets 17 less the depth, since a batch at depth 16 is refused. The dispatch of
-- decoders gets 10 less the depth, since nothing is decoded past depth 8.
--
-- Parameters. keccak and the recovery of a public key are third-party code: arguments of
-- sender_bytes, of signer_of and of the table of decoders, of which nothing is assumed but, where a
-- checksummed address is read back, that a digest has 32 bytes. int() of a base fee that is no
-- integer, and int() of the header that names a chain, are Python's: arguments too, the second one
-- for headers that name no negative number. `_frame` takes the verdict on entries as an argument,
-- which a session fills with the verifier's, and decode_call the table of decoders. The clock's
-- readings are arguments, natural numbers of one small unit. pyrevm is an argument of the local
-- execution: a Machine with what a call returns and what its tracer prints, of which nothing is
-- assumed; a Fork, with what the node says, of which only that code is bytes; and a Store, with the
-- laws that a slot holds what was written last, that an account is what was inserted last, and that
-- other writes leave either as it is.
--
-- Not modelled: JSON parsing; the websocket, cancellation and logging of consume.py; the parsing of
-- arguments and the printing of cli.py; labels.py, and the other texts that are only printed; the
-- recording, the retries and the report of execute.py; the clocks and what is printed of the scripts;
-- token_flow.py and receipt_check.py.
pub mod Prelude
pub mod Bytes
pub mod Rlp
pub mod Tx
pub mod L2
pub mod Hex
pub mod Base64
pub mod ParentChain
pub mod Frame
pub mod Verify
pub mod Consumer
pub mod Session
pub mod Abi
pub mod Intents
pub mod Decoders
pub mod Cli
pub mod LocalExecution
pub mod Signals
