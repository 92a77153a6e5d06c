-- ===== src/Consumer.antt =====
-- consume.py, `FeedConsumer`: the watermark, the reorg window, the counters and `_frame`, which turns
-- one frame into the messages that are yielded. Clocks are natural numbers of one small unit; the
-- readings that `_is_current` takes are an argument, one for each entry.
pub mod Step
pub mod Trust
pub mod Redelivery
pub mod Liveness
pub mod Frames
pub mod Origin
pub mod Verified
pub mod Live
pub mod Examples
use robinhood_chain_sequence.Prelude.{
  ℕ, zero, suc, ◌+◌, ◌-◌, ◌*◌, Bool, true, false, Option, none, some, List, [], ◌∷◌, ◌++◌, ◌&&◌,
  ◌||◌, not, Result, ok, err, ◌>>=◌, ltb, leb, ◌==◌, if◌then◌else◌, length, take, drop,
}
use robinhood_chain_sequence.Prelude.Int.{ℤ, pos, negsuc, lt_ℤ, le_ℤ, eq_ℤ, minus}
use robinhood_chain_sequence.Bytes.{bytes_eq}
use robinhood_chain_sequence.Hex.{Text}
use robinhood_chain_sequence.Frame.{Entry, FeedMessage, parse_frame, or_zero}

pub record Stats : Type 0 where
  pub frames : ℕ
  pub backlog_messages : ℕ
  pub live_messages : ℕ
  pub duplicate_messages : ℕ
  pub unverified_messages : ℕ
  pub reconnects : ℕ
  pub reorgs : ℕ

-- What the constructor of the consumer is given; the verifier is `accepts` below.
pub record Config : Type 0 where
  pub live_threshold : ℕ
  pub max_backlog_seconds : ℕ
  pub reorg_window : ℕ
  pub chain_id : Option ℕ

pub record Consumer : Type 0 where
  pub stats : Stats
  pub is_live : Bool
  pub highest_seq : ℤ
  pub warned_unverified : Bool
  pub hashes : List (ℤ × Text)

abbrev pub start : Consumer
start = record {
  stats = record {
    frames = 0;
    backlog_messages = 0;
    live_messages = 0;
    duplicate_messages = 0;
    unverified_messages = 0;
    reconnects = 0;
    reorgs = 0;
  };
  is_live = false;
  highest_seq = negsuc 0;
  warned_unverified = false;
  hashes = [];
}

-- The sequence number that a connection asks for: the last one seen, not the next (`_headers`).
unfoldable pub requested_seq : Consumer → Option ℤ
requested_seq c = if le_ℤ (pos 0) c.highest_seq then some c.highest_seq else none

-- self._hashes.get(seq)
unfoldable pub hash_at : ℤ → List (ℤ × Text) → Option Text
hash_at seq [] = none
hash_at seq ((s, h) ∷ rest) = if eq_ℤ s seq then some h else hash_at seq rest

-- self._hashes[seq] = h: the place of a key that is there is kept.
unfoldable pub put_hash : ℤ → Text → List (ℤ × Text) → List (ℤ × Text)
put_hash seq h [] = (seq, h) ∷ []
put_hash seq h ((s, g) ∷ rest) = if eq_ℤ s seq then (s, h) ∷ rest else (s, g) ∷ put_hash seq h rest

-- {s: h for s, h in ... if s > cutoff}
unfoldable pub keep_above : ℤ → List (ℤ × Text) → List (ℤ × Text)
keep_above cutoff [] = []
keep_above cutoff ((s, h) ∷ rest) =
    if lt_ℤ cutoff s then (s, h) ∷ keep_above cutoff rest else keep_above cutoff rest

-- bool(value), for a text or None
abbrev pub truthy : Option Text → Bool
truthy none = false
truthy (some t) = not (length t == 0)

abbrev differ : Option Text → Option Text → Bool
differ (some a) (some b) = not (bytes_eq a b)
differ _ _ = false

-- `_is_reorg`
unfoldable pub is_reorg : Consumer → FeedMessage → Bool
is_reorg c msg =
    let previous = hash_at msg.seq c.hashes in
    truthy previous && truthy msg.block_hash && differ previous msg.block_hash

-- `_remember` for a hash
unfoldable pub remember_hash : ℕ → ℤ → Text → Consumer → Consumer
remember_hash window seq h c =
    let hashes = put_hash seq h c.hashes in
    record c {
      hashes =
          if ltb (window * 2) (length hashes)
          then keep_above (minus c.highest_seq window) hashes
          else hashes;
    }

-- `_remember`
unfoldable pub remember : ℕ → FeedMessage → Consumer → Consumer
unfolding remember_hash
remember window msg c = elim msg.block_hash [
  | none ↦ c
  | some h ↦ if length h == 0 then c else remember_hash window msg.seq h c
]

-- `_reject`: counted, and logged once.
unfoldable pub reject : Consumer → Consumer
reject c = record c {
  stats = record c.stats { unverified_messages = c.stats.unverified_messages + 1 };
  warned_unverified = true;
}

-- The end of the loop's body: the watermark moves to the message, which is counted and yielded.
unfoldable pub deliver : ℕ → Bool → FeedMessage → Consumer → Consumer × List FeedMessage
unfolding remember
deliver window live msg c =
    let c' = remember window msg (record c { highest_seq = msg.seq }) in
    (
      record c' {
        stats =
            if live
            then record c'.stats { live_messages = c'.stats.live_messages + 1 }
            else record c'.stats { backlog_messages = c'.stats.backlog_messages + 1 };
      },
      record msg { live = live } ∷ [],
    )

-- One round of `_frame`'s loop: an entry's message, whether it was accepted, and whether it is live.
unfoldable pub step : ℕ → Bool → Bool → FeedMessage → Consumer → Consumer × List FeedMessage
step window accepted live msg c =
    if not accepted
    then (reject c, [])
    else if le_ℤ msg.seq c.highest_seq
    then (if is_reorg c msg
        then deliver window live (record msg { reorg = true })
            (record c {
              stats = record c.stats { reorgs = c.stats.reorgs + 1 };
              highest_seq = minus msg.seq 1;
            })
        else (
          record c {
            stats = record c.stats { duplicate_messages = c.stats.duplicate_messages + 1 };
          },
          [],
        ))
    else deliver window live msg c

-- `i == first_live and not was_live`: from there on the consumer is live.
unfoldable pub go_live : Bool → Consumer → Consumer
go_live now c = record c { is_live = c.is_live || now }

-- The loop over the messages; `until` counts the entries that are left before the first live one.
unfoldable pub run_steps :
    ℕ → ℕ → List Bool → List FeedMessage → Consumer → Consumer × List FeedMessage
run_steps window until (a ∷ accepted) (msg ∷ messages) c =
    let live = until == 0 in
    let (c', out) = step window a live msg (go_live live c) in
    let (c'', more) = run_steps window (until - 1) accepted messages c' in (c'', out ++ more)
run_steps window until _ _ c = (c, [])

module _ (config : Config) (accepts : Entry → Bool) where
  -- `_is_current`, at a reading of the clock; an absent timestamp is 0, and 0 is never current.
  unfoldable pub is_current : ℕ → ℕ → Entry → Bool
  is_current started now e =
      let timestamp = or_zero e.header.timestamp in
      (not (timestamp == 0) && leb now (timestamp + config.live_threshold))
      || ltb (started + config.max_backlog_seconds) now

  -- The index of the first entry that is accepted and current, or the number of entries.
  unfoldable pub first_live : ℕ → (ℕ → ℕ) → List Entry → ℕ
  unfolding is_current
  first_live started clock [] = 0
  first_live started clock (e ∷ entries) =
      let rest = suc (first_live started (λ i. clock (suc i)) entries) in
      if accepts e && is_current started (clock 0) e then 0 else rest

  -- [self.verify is None or self.verify.accepts(e) for e in entries]
  unfoldable pub accepted_of : List Entry → List Bool
  accepted_of [] = []
  accepted_of (e ∷ entries) = accepts e ∷ accepted_of entries

  -- `_frame`. An exception of the decoder leaves the consumer as it was.
  unfoldable pub frame :
      ℕ → (ℕ → ℕ) → Bool → List Entry → Consumer → Result (Consumer × List FeedMessage)
  unfolding first_live accepted_of
  frame started clock decode_backlog entries c =
      let first = if c.is_live then 0 else first_live started clock entries in
      parse_frame (take first entries) decode_backlog config.chain_id >>= λ backlog.
      parse_frame (drop first entries) true config.chain_id >>= λ current.
      ok (run_steps config.reorg_window first (accepted_of entries) (backlog ++ current) c)
