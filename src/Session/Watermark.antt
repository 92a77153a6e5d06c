-- ===== src/Session/Watermark.antt =====
-- What a whole session yields, over all of its connections.
use robinhood_chain_sequence.Prelude.{
  ℕ, suc, ◌+◌, ◌≡◌, refl, sym, ap, inl, inr, arith, Bool, Bool-cases, false, Option, none, some,
  List, [], ◌∷◌, ◌++◌, map, All, Result, ok, err, length, length-append,
}
use robinhood_chain_sequence.Prelude.Int.{ℤ, pos, ◌<ℤ◌, ◌≤ℤ◌}
use robinhood_chain_sequence.Bytes.{Bytes}
use robinhood_chain_sequence.Hex.{Text}
use robinhood_chain_sequence.ParentChain.{Json}
use robinhood_chain_sequence.Frame.{Entry, FeedMessage}
use robinhood_chain_sequence.Consumer.{Consumer, requested_seq}
use robinhood_chain_sequence.Consumer.Step.{Follows, Follows-append, delivered}
use robinhood_chain_sequence.Consumer.Frames.{frame-RunLaws}
use robinhood_chain_sequence.Session.{
  Settings, Session, Step, opens, receives, fails, closes, Run, here, next, stamp, arrived, on_open,
  on_failure, on_close, on_frame, on_result, config_of, trusts, check_chain,
}

-- As many messages are yielded as are counted for backlog or live, and each is in its place.
pub record Yields (c : Consumer) (out : List FeedMessage) (d : Consumer) : Type 0 where
  pub counts : delivered d ≡ delivered c + length out
  pub places : Follows c.highest_seq out d.highest_seq

abbrev stamp_all : ℕ → ℕ → List FeedMessage → List FeedMessage
stamp_all received mono = map (stamp received mono)

Follows-stamp :
    (received mono : ℕ) (h h' : ℤ) (ms : List FeedMessage)
    → Follows h ms h'
    → Follows h (stamp_all received mono ms) h'
Follows-stamp received mono h h' [] f = f
Follows-stamp received mono h h' (m ∷ ms) (p, f) = (p, Follows-stamp received mono m.seq h' ms f)

length-stamp :
    (received mono : ℕ) (ms : List FeedMessage) → length (stamp_all received mono ms) ≡ length ms
length-stamp received mono [] = refl
length-stamp received mono (m ∷ ms) = ap suc (length-stamp received mono ms)

-- A step that yields nothing, and leaves the watermark and what was delivered.
Yields-none :
    (c d : Consumer) → d.highest_seq ≡ c.highest_seq → delivered d ≡ delivered c → Yields c [] d
Yields-none c d h e = record { counts = omega arith; places = sym h }

on_result-Yields :
    (settings : Settings) (received mono : ℕ) (s : Session)
    (m : Result (Consumer × List FeedMessage))
    → ((r : Consumer × List FeedMessage) → m ≡ ok r → Yields s.consumer r.1 r.0)
    → Yields s.consumer
        (on_result settings received mono s m).1
        (on_result settings received mono s m).0.consumer
unfolding on_result on_failure
on_result-Yields settings received mono s (err raised) h = Yields-none s.consumer _ refl refl
on_result-Yields settings received mono s (ok (c, out)) h =
    let laws = h (c, out) refl in
    record {
      counts = omega (arith, laws.counts, length-stamp received mono out);
      places = Follows-stamp received mono s.consumer.highest_seq c.highest_seq out laws.places;
    }

-- Each message's sequence number is below those of all that come after it.
abbrev pub Ascending : List FeedMessage → Type 0
Ascending [] = Unit
Ascending (m ∷ ms) = All (λ n. m.seq <ℤ n.seq) ms × Ascending ms

abbrev pub NoReorg : FeedMessage → Type 0
NoReorg m = m.reorg ≡ false

Follows-above :
    (l h h' : ℤ) (ms : List FeedMessage)
    → l ≤ℤ h
    → All NoReorg ms
    → Follows h ms h'
    → All (λ n. l <ℤ n.seq) ms
Follows-above l h h' [] le fresh f = tt
Follows-above l h h' (m ∷ ms) le (f, fresh) (inl (same, above), rest) =
    (omega arith, Follows-above l m.seq h' ms (omega arith) fresh rest)
Follows-above l h h' (m ∷ ms) le (f, fresh) (inr (changed, below), rest) = absurd (cc)

Follows-Ascending :
    (h h' : ℤ) (ms : List FeedMessage) → All NoReorg ms → Follows h ms h' → Ascending ms
Follows-Ascending h h' [] fresh f = tt
Follows-Ascending h h' (m ∷ ms) (f, fresh) (p, rest) = (
  Follows-above m.seq m.seq h' ms (omega arith) fresh rest,
  Follows-Ascending m.seq h' ms fresh rest,
)

Follows-last :
    (h h' : ℤ) (ms : List FeedMessage) (m : FeedMessage) → Follows h (ms ++ m ∷ []) h' → m.seq ≡ h'
Follows-last h h' [] m (p, e) = e
Follows-last h h' (n ∷ ms) m (p, rest) = Follows-last n.seq h' ms m rest

module _ (int_of : Text → Option ℕ) (to_int : Json → Option ℤ) (keccak : Bytes → Bytes)
    (public_key : Bytes → Bytes → Option Bytes) (settings : Settings) (decode_backlog : Bool) where
  on_open-Yields :
      (s : Session) (values : List Text) (now mono : ℕ)
      → Yields s.consumer [] (on_open int_of settings values now mono s).consumer
  unfolding on_open
  on_open-Yields s values now mono = elim (Bool-cases (check_chain int_of settings.verify values)) [
    | inl other ↦ rw other (Yields-none s.consumer s.consumer refl refl)
    | inr same ↦ rw same (Yields-none s.consumer (record s.consumer { is_live = false }) refl refl)
  ]

  on_frame-Yields :
      (s : Session) (raw : Option (List Entry)) (clock : ℕ → ℕ) (received mono : ℕ)
      → Yields s.consumer
          (on_frame to_int keccak public_key settings decode_backlog raw clock received mono s).1
          (on_frame to_int keccak public_key settings decode_backlog raw clock received mono
            s).0.consumer
  unfolding on_frame on_failure arrived
  on_frame-Yields s none clock received mono = Yields-none s.consumer _ refl refl
  on_frame-Yields s (some entries) clock received mono =
      let passed = on_result-Yields settings received mono (arrived mono s) _ (λ r e.
        let laws =
          frame-RunLaws (config_of settings s.chain_id)
            (trusts to_int keccak public_key settings.verify) s.started clock decode_backlog entries
            (arrived mono s).consumer r e in
        record { counts = laws.yields; places = laws.places }) in
      record { counts = passed.counts; places = passed.places }

  Step-Yields :
      {s t : Session} {out : List FeedMessage}
      → Step int_of to_int keccak public_key settings decode_backlog s out t
      → Yields s.consumer out t.consumer
  Step-Yields (opens s values now mono h) = on_open-Yields s values now mono
  Step-Yields (receives s raw clock received mono h) = on_frame-Yields s raw clock received mono
  Step-Yields (fails s h) = unfold on_failure in Yields-none s.consumer _ refl refl
  Step-Yields (closes s h) = unfold on_close in Yields-none s.consumer _ refl refl

  -- Over all the connections of a session, failed ones and frames that raise included, as many messages
  -- are yielded as are counted for backlog or live. Each is past the watermark that the one before it
  -- left, or is marked as a reorg and is not past it; and the watermark is that of the last one.
  pub Run-Yields :
      {s t : Session} {out : List FeedMessage}
      → Run int_of to_int keccak public_key settings decode_backlog s out t
      → Yields s.consumer out t.consumer
  Run-Yields here = Yields-none _ _ refl refl
  Run-Yields (next {t = t} {u = u} {out = out} {more = more} r st) =
      let before = Run-Yields r in
      let last = Step-Yields st in
      record {
        counts = omega (arith, before.counts, last.counts, length-append out more);
        places =
            Follows-append _ t.consumer.highest_seq u.consumer.highest_seq out more before.places
              last.places;
      }

  -- Over all the connections of a session, no sequence number is yielded twice, and none after a greater
  -- one, where no message that was yielded is marked as a reorg.
  Run-Ascending :
      {s t : Session} {out : List FeedMessage}
      → Run int_of to_int keccak public_key settings decode_backlog s out t
      → All NoReorg out
      → Ascending out
  Run-Ascending {s = s} {t = t} {out = out} r fresh =
      Follows-Ascending s.consumer.highest_seq t.consumer.highest_seq out fresh
        (Run-Yields r).places

  -- Whatever happened on the earlier connections, the next one asks for the sequence number of the
  -- message that was yielded last, where that number is not negative.
  pub Run-requested_seq :
      {s t : Session} (out : List FeedMessage) (m : FeedMessage)
      → Run int_of to_int keccak public_key settings decode_backlog s (out ++ m ∷ []) t
      → pos 0 ≤ℤ m.seq
      → requested_seq t.consumer ≡ some m.seq
  unfolding requested_seq
  Run-requested_seq {s = s} {t = t} out m r h =
      let last =
        Follows-last s.consumer.highest_seq t.consumer.highest_seq out m (Run-Yields r).places in
      ground (arith, last)
