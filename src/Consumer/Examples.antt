-- ===== src/Consumer/Examples.antt =====
-- Runs of the theorems on the feed consumer.
use robinhood_chain_sequence.Prelude.{
  ℕ, ◌≡◌, ◌||◌, ltb, if◌then◌else◌, refl, Bool, true, false, some, none, List, [], ◌∷◌, ◌++◌, take,
  drop, All, length, ok,
}
use robinhood_chain_sequence.Prelude.Int.{pos}
use robinhood_chain_sequence.Hex.{Text}
use robinhood_chain_sequence.ParentChain.{Header, null}
use robinhood_chain_sequence.Frame.{Entry, FeedMessage, message_of, parse_frame, txs_of}
use robinhood_chain_sequence.Consumer.{
  Consumer, Config, start, step, run_steps, frame, accepted_of, first_live, is_current,
}
use robinhood_chain_sequence.Consumer.Trust.{
  accepted_messages, trusted_run, SameView, run_steps-trusted,
}
use robinhood_chain_sequence.Consumer.Liveness.{IsBacklog, IsLive, run_steps-liveness}
use robinhood_chain_sequence.Consumer.Redelivery.{step-step}

abbrev header : Header
header = record {
  kind = some (pos 3);
  sender = null;
  timestamp = some 1000;
  block_number = some 7;
  request_id = null;
  base_fee_l1 = null;
}

abbrev entry : ℕ → Text → Entry
entry seq hash = record {
  sequence_number = some (pos seq);
  block_hash = some hash;
  delayed_messages_read = some 1;
  header = header;
  l2_msg = none;
  block_metadata = none;
  signature = none;
}

-- Two blocks, the first of them again, and the second with another hash.
abbrev feed : List Entry
feed = entry 5 (1 ∷ []) ∷ entry 6 (2 ∷ []) ∷ entry 5 (1 ∷ []) ∷ entry 6 (3 ∷ []) ∷ []

abbrev config : Config
config = record {
  live_threshold = 30;
  max_backlog_seconds = 60;
  reorg_window = 64;
  chain_id = none;
}

-- No entry fails verification.
abbrev accepts : Entry → Bool
accepts e = true

abbrev messages : List FeedMessage
messages =
    message_of (entry 5 (1 ∷ [])) []
    ∷ message_of (entry 9 (9 ∷ [])) []
    ∷ message_of (entry 6 (2 ∷ [])) []
    ∷ []

abbrev verdicts : List Bool
verdicts = true ∷ false ∷ true ∷ []

abbrev after_feed : Consumer × List FeedMessage
after_feed =
    run_steps 64 0 (accepted_of config accepts feed)
      (message_of (entry 5 (1 ∷ [])) []
        ∷ message_of (entry 6 (2 ∷ [])) []
        ∷ message_of (entry 5 (1 ∷ [])) []
        ∷ message_of (entry 6 (3 ∷ [])) []
        ∷ [])
      start

read_feed : frame config accepts 990 (λ i. 1001) true feed start ≡ ok after_feed
unfolding frame first_live parse_frame is_current txs_of
read_feed = refl

run_steps-trusted_example :
    ((run_steps 64 1 verdicts messages start).1
      ≡ (trusted_run 64 (accepted_messages 1 verdicts messages) start).1)
    × SameView
        (run_steps 64 1 verdicts messages start).0
        (trusted_run 64 (accepted_messages 1 verdicts messages) start).0
run_steps-trusted_example =
    run_steps-trusted 64 1 verdicts messages start start (record { highest = refl; window = refl })

step-step_example :
    (step 64 true true
      (message_of (entry 5 (1 ∷ [])) [])
      (step 64 true false (message_of (entry 5 (1 ∷ [])) []) start).0).1
    ≡ []
step-step_example = step-step 64 false true (message_of (entry 5 (1 ∷ [])) []) start

run_steps-liveness_example :
    ((run_steps 64 1 verdicts messages start).1
      ≡ (run_steps 64 1 (take 1 verdicts) (take 1 messages) start).1
        ++ (run_steps 64 0
            (drop 1 verdicts)
            (drop 1 messages)
            (run_steps 64 1 (take 1 verdicts) (take 1 messages) start).0).1)
    × All IsBacklog (run_steps 64 1 (take 1 verdicts) (take 1 messages) start).1
    × All IsLive
        (run_steps 64 0
          (drop 1 verdicts)
          (drop 1 messages)
          (run_steps 64 1 (take 1 verdicts) (take 1 messages) start).0).1
    × ((run_steps 64 1 verdicts messages start).0.is_live
        ≡ (start.is_live || ltb 1 (length messages)))
run_steps-liveness_example = run_steps-liveness 64 1 verdicts messages start refl

-- The first two entries are found to be old.
abbrev clock : ℕ → ℕ
clock i = if ltb i 2 then 1040 else 1001

abbrev after_backlog : Consumer × List FeedMessage
after_backlog =
    run_steps 64 2 (accepted_of config accepts feed)
      (message_of (entry 5 (1 ∷ [])) []
        ∷ message_of (entry 6 (2 ∷ [])) []
        ∷ message_of (entry 5 (1 ∷ [])) []
        ∷ message_of (entry 6 (3 ∷ [])) []
        ∷ [])
      start

read_backlog : frame config accepts 990 clock true feed start ≡ ok after_backlog
unfolding frame first_live parse_frame is_current txs_of
read_backlog = refl
