-- ===== src/Session/Examples.antt =====
-- Runs of the theorems on a session.
use robinhood_chain_sequence.Prelude.{
  ℕ, ◌≡◌, refl, inr, arith, true, false, Option, none, some, List, [], ◌∷◌, ◌++◌, min, ◌*◌, ◌^◌,
}
use robinhood_chain_sequence.Prelude.Int.{ℤ, pos}
use robinhood_chain_sequence.Bytes.{Bytes, bytes_eq}
use robinhood_chain_sequence.Hex.{Text, text}
use robinhood_chain_sequence.ParentChain.{Json, Header, null}
use robinhood_chain_sequence.Frame.{Entry, FeedMessage, parse_frame, txs_of, message_of}
use robinhood_chain_sequence.Verify.{Verifier, mainnet_verifier}
use robinhood_chain_sequence.Consumer.{
  start, frame, run_steps, requested_seq, step, go_live, deliver,
}
use robinhood_chain_sequence.Session.{
  Settings, Session, opens, receives, fails, Run, here, next, begin, mainnet_feed, stamp, reading,
  on_open, on_failure, on_frame, known_chain_id,
}
use robinhood_chain_sequence.Session.Watermark.{Yields, Run-Yields, Run-requested_seq}
use robinhood_chain_sequence.Session.Backoff.{Run-Delays}
use robinhood_chain_sequence.Session.Chain.{Run-chain_id}
use robinhood_chain_sequence.Session.Monitor.{Look, polls, warnings, warnings-polls, is_stalled}

abbrev int_of : Text → Option ℕ
int_of t = some 4663

abbrev to_int : Json → Option ℤ
to_int j = none

abbrev keccak : Bytes → Bytes
keccak b = b

abbrev public_key : Bytes → Bytes → Option Bytes
public_key sig digest = none

abbrev settings : Option Verifier → Settings
settings verify = record {
  url = mainnet_feed;
  verify = verify;
  live_threshold = 5;
  max_backlog_seconds = 120;
  reconnect_delay = 1;
  max_reconnect_delay = 3;
  stall_warning = 30;
  reorg_window = 64;
}

abbrev header : Header
header = record {
  kind = some (pos 6);
  sender = null;
  timestamp = some 1000;
  block_number = some 7;
  request_id = null;
  base_fee_l1 = null;
}

abbrev entry : ℕ → Entry
entry seq = record {
  sequence_number = some (pos seq);
  block_hash = some (1 ∷ []);
  delayed_messages_read = some 1;
  header = header;
  l2_msg = none;
  block_metadata = none;
  signature = none;
}

-- One connection fails; the next one brings two messages.
abbrev before : Option Verifier → Session
before verify = begin (settings verify) none start

abbrev after_open : Option Verifier → Session
after_open verify =
    on_open int_of (settings verify) (text "4663" ∷ []) 1000 7
      (on_failure (settings verify) (before verify))

abbrev feed : List Entry
feed = entry 5 ∷ entry 6 ∷ []

abbrev after_feed : Session × List FeedMessage
after_feed =
    on_frame to_int keccak public_key (settings none) true (some feed) (λ i. 1001) 1001 8
      (after_open none)

opened :
    (verify : Option Verifier)
    → Run int_of to_int keccak public_key
        (settings verify)
        true
        (before verify)
        []
        (after_open verify)
unfolding on_open on_failure
opened verify =
    next (next here (fails (before verify) (λ e. cc)))
      (opens (on_failure (settings verify) (before verify)) (text "4663" ∷ []) 1000 7 refl)

abbrev message : ℕ → FeedMessage
message seq = stamp 1001 8 (record (message_of (entry seq) []) { live = true })

after_feed_lem : after_feed.1 ≡ message 5 ∷ message 6 ∷ []
unfolding on_frame frame parse_frame on_open txs_of run_steps step go_live deliver
after_feed_lem = refl

session :
    Run int_of to_int keccak public_key
      (settings none)
      true
      (before none)
      ([] ++ after_feed.1)
      after_feed.0
unfolding on_open
session = next (opened none) (receives (after_open none) (some feed) (λ i. 1001) 1001 8 refl)

two_messages :
    Run int_of to_int keccak public_key
      (settings none)
      true
      (before none)
      ((message 5 ∷ []) ++ message 6 ∷ [])
      after_feed.0
two_messages = rw (← after_feed_lem) session

Run-Yields_example : Yields start ((message 5 ∷ []) ++ message 6 ∷ []) after_feed.0.consumer
Run-Yields_example = Run-Yields int_of to_int keccak public_key (settings none) true two_messages

Run-requested_seq_example : requested_seq after_feed.0.consumer ≡ some (pos 6)
unfolding message_of
Run-requested_seq_example =
    Run-requested_seq int_of to_int keccak public_key (settings none) true (message 5 ∷ [])
      (message 6) two_messages (omega arith)

abbrev failed : Session
failed = on_failure (settings none) (on_failure (settings none) (before none))

failed_twice : Run int_of to_int keccak public_key (settings none) true (before none) [] failed
unfolding on_failure
failed_twice =
    next (next here (fails (before none) (λ e. cc)))
      (fails (on_failure (settings none) (before none)) (λ e. cc))

Run-Delays_example : failed.delay ≡ min (1 * 2 ^ failed.failures) 3
Run-Delays_example =
    Run-Delays int_of to_int keccak public_key (settings none) true (omega arith) none start
      failed_twice

is_reading : (after_open (some mainnet_verifier)).phase ≡ reading
unfolding on_open
is_reading = refl

mainnet_known : known_chain_id mainnet_feed ≡ some 4663
unfolding known_chain_id bytes_eq
mainnet_known = refl

Run-chain_id_example : (after_open (some mainnet_verifier)).chain_id ≡ some 4663
Run-chain_id_example =
    Run-chain_id int_of to_int keccak public_key (settings (some mainnet_verifier)) true
      mainnet_verifier refl (inr mainnet_known) start (opened (some mainnet_verifier)) is_reading

abbrev looks : List Look
looks =
    record { now = 20; last_frame_at = 8; is_live = true }
    ∷ record { now = 40; last_frame_at = 8; is_live = true }
    ∷ record { now = 50; last_frame_at = 8; is_live = true }
    ∷ []

warnings-polls_example : warnings (polls 30 false looks) ≡ 1
unfolding polls is_stalled
warnings-polls_example =
    warnings-polls 30 8 8 looks
      (refl, omega arith, (refl, omega arith, (refl, omega arith, omega arith)))
