-- ===== src/Session.antt =====
-- consume.py, `FeedConsumer.messages`: connecting, reading frames, and connecting again after an
-- exception; `_check_chain`, `_find_chain_id` and `_monitor`.
pub mod Watermark
pub mod Backoff
pub mod Chain
pub mod Verified
pub mod Monitor
pub mod Examples
use robinhood_chain_sequence.Prelude.{
  ℕ, zero, suc, ◌+◌, ◌-◌, ◌*◌, ◌≡◌, ◌≢◌, min, Bool, true, false, Option, none, some, List, [], ◌∷◌,
  ◌++◌, map, not, Result, ok, err, leb, ◌==◌, if◌then◌else◌,
}
use robinhood_chain_sequence.Prelude.Int.{ℤ}
use robinhood_chain_sequence.Bytes.{Bytes, bytes_eq}
use robinhood_chain_sequence.Hex.{Text, text}
use robinhood_chain_sequence.ParentChain.{Json}
use robinhood_chain_sequence.Frame.{Entry, FeedMessage}
use robinhood_chain_sequence.Verify.{Verifier, accepts, mainnet_chain_id}
use robinhood_chain_sequence.Consumer.{Config, Consumer, frame}

-- MAINNET_FEED
abbrev pub mainnet_feed : Text
mainnet_feed = text "wss://feed.mainnet.chain.robinhood.com"

-- TESTNET_FEED
abbrev pub testnet_feed : Text
testnet_feed = text "wss://feed.testnet.chain.robinhood.com"

-- KNOWN_CHAIN_IDS
unfoldable pub known_chain_id : Text → Option ℕ
known_chain_id url =
    if bytes_eq url mainnet_feed
    then some mainnet_chain_id
    else if bytes_eq url testnet_feed
    then some 46630
    else none

-- The arguments of the constructor. The names of the settings that `_frame` reads are `Config`'s.
pub record Settings : Type 0 where
  pub url : Text
  pub verify : Option Verifier
  pub live_threshold : ℕ
  pub max_backlog_seconds : ℕ
  pub reconnect_delay : ℕ
  pub max_reconnect_delay : ℕ
  pub stall_warning : ℕ
  pub reorg_window : ℕ

-- Where the loop stands: outside of a connection, in one, or past a WrongChain.
pub data Phase : Type 0 where
  connecting reading stopped : Phase

-- The consumer's state, with that of `messages`. A `last_frame_at` of 0 says that no connection is
-- open.
pub record Session : Type 0 where
  pub consumer : Consumer
  pub chain_id : Option ℕ
  pub phase : Phase
  pub delay : ℕ
  pub failures : ℕ
  pub started : ℕ
  pub backlog_at_connect : ℕ
  pub last_frame_at : ℕ

-- Before the first connection.
abbrev pub begin : Settings → Option ℕ → Consumer → Session
begin settings chain_id c = record {
  consumer = c;
  chain_id = chain_id;
  phase = connecting;
  delay = settings.reconnect_delay;
  failures = 0;
  started = 0;
  backlog_at_connect = 0;
  last_frame_at = 0;
}

abbrev pub config_of : Settings → Option ℕ → Config
config_of settings chain_id = record {
  live_threshold = settings.live_threshold;
  max_backlog_seconds = settings.max_backlog_seconds;
  reorg_window = settings.reorg_window;
  chain_id = chain_id;
}

-- The first value that there is.
abbrev pub or_else : Option ℕ → Option ℕ → Option ℕ
or_else none o = o
or_else (some n) o = some n

-- verify.chain_id if verify is not None else None
abbrev pub chain_of : Option Verifier → Option ℕ
chain_of none = none
chain_of (some v) = some v.chain_id

-- `int(value, 0)` of a header that names no negative number.
module _ (int_of : Text → Option ℕ) where
  -- The first of the headers that is a number.
  unfoldable pub announced : List Text → Option ℕ
  announced [] = none
  announced (value ∷ values) = or_else (int_of value) (announced values)

  -- One of the headers is a number other than this.
  unfoldable pub announces_other : ℕ → List Text → Bool
  announces_other chain_id [] = false
  announces_other chain_id (value ∷ values) =
      let later = announces_other chain_id values in
      elim (int_of value) [ none ↦ later | some n ↦ if n == chain_id then later else true ]

  -- `_check_chain`: whether it raises.
  unfoldable pub check_chain : Option Verifier → List Text → Bool
  unfolding announces_other
  check_chain none values = false
  check_chain (some v) values = announces_other v.chain_id values

  -- `_find_chain_id`
  unfoldable pub find_chain_id : Settings → List Text → Option ℕ
  unfolding announced
  find_chain_id settings values =
      or_else (announced values) (or_else (known_chain_id settings.url) (chain_of settings.verify))

  -- A handshake: the headers that came with it, and the readings of the clocks.
  unfoldable pub on_open : Settings → List Text → ℕ → ℕ → Session → Session
  unfolding check_chain find_chain_id
  on_open settings values now mono s =
      if check_chain settings.verify values then record s { phase = stopped } else record s {
        chain_id = or_else s.chain_id (find_chain_id settings values);
        failures = 0;
        delay = settings.reconnect_delay;
        started = now;
        consumer = record s.consumer { is_live = false };
        backlog_at_connect = s.consumer.stats.backlog_messages;
        last_frame_at = mono;
        phase = reading;
      }

-- The handler of every exception but WrongChain, with the sleep.
unfoldable pub on_failure : Settings → Session → Session
on_failure settings s = record s {
  failures = s.failures + 1;
  consumer = record s.consumer {
    stats = record s.consumer.stats { reconnects = s.consumer.stats.reconnects + 1 };
  };
  last_frame_at = 0;
  delay = min (s.delay * 2) settings.max_reconnect_delay;
  phase = connecting;
}

-- The stream ended without an exception: the loop connects again at once.
unfoldable pub on_close : Session → Session
on_close s = record s { phase = connecting }

-- The readings of the clocks that `messages` writes into a message.
abbrev pub stamp : ℕ → ℕ → FeedMessage → FeedMessage
stamp received mono m = record m { received_at = received; received_monotonic = mono }

-- A frame has been counted and its arrival noted.
unfoldable pub arrived : ℕ → Session → Session
arrived mono s = record s {
  consumer = record s.consumer {
    stats = record s.consumer.stats { frames = s.consumer.stats.frames + 1 };
  };
  last_frame_at = mono;
}

-- What becomes of a frame that `_frame` was given: an exception, or messages.
unfoldable pub on_result :
    Settings → ℕ → ℕ → Session → Result (Consumer × List FeedMessage) → Session × List FeedMessage
unfolding on_failure
on_result settings received mono s (err raised) = (on_failure settings s, [])
on_result settings received mono s (ok (c, out)) =
    (record s { consumer = c }, map (stamp received mono) out)

module _ (to_int : Json → Option ℤ) (keccak : Bytes → Bytes)
    (public_key : Bytes → Bytes → Option Bytes) where
  -- self.verify is None or self.verify.accepts(e)
  unfoldable pub trusts : Option Verifier → Entry → Bool
  trusts none e = true
  trusts (some v) e = accepts to_int keccak public_key v e

  -- The body of the loop over the stream: `none` is a frame that is no JSON.
  unfoldable pub on_frame :
      Settings → Bool → Option (List Entry) → (ℕ → ℕ) → ℕ → ℕ → Session → Session × List FeedMessage
  unfolding arrived on_failure on_result trusts
  on_frame settings decode_backlog none clock received mono s =
      (on_failure settings (arrived mono s), [])
  on_frame settings decode_backlog (some entries) clock received mono s =
      on_result settings received mono (arrived mono s) (
        frame (config_of settings s.chain_id) (trusts settings.verify) s.started clock
          decode_backlog entries (arrived mono s).consumer)

-- What happens next is up to the network; each step says what it yields.
module _ (int_of : Text → Option ℕ) (to_int : Json → Option ℤ) (keccak : Bytes → Bytes)
    (public_key : Bytes → Bytes → Option Bytes) (settings : Settings) (decode_backlog : Bool) where
  pub data Step : Session → List FeedMessage → Session → Type 0 where
    opens :
        (s : Session) (values : List Text) (now mono : ℕ)
        → s.phase ≡ connecting
        → Step s [] (on_open int_of settings values now mono s)
    receives :
        (s : Session) (raw : Option (List Entry)) (clock : ℕ → ℕ) (received mono : ℕ)
        → s.phase ≡ reading
        → Step s
            (on_frame to_int keccak public_key settings decode_backlog raw clock received mono s).1
            (on_frame to_int keccak public_key settings decode_backlog raw clock received mono s).0
    fails : (s : Session) → s.phase ≢ stopped → Step s [] (on_failure settings s)
    closes : (s : Session) → s.phase ≡ reading → Step s [] (on_close s)

  -- The steps so far, and all that they yielded.
  pub data Run (s : Session) : List FeedMessage → Session → Type 0 where
    here : Run s [] s
    next :
        {t u : Session} {out more : List FeedMessage}
        → Run s out t
        → Step t more u
        → Run s (out ++ more) u
