-- ===== src/Session/Backoff.antt =====
-- How long the loop waits before it connects again.
use robinhood_chain_sequence.Prelude.{
  ℕ, suc, ◌+◌, ◌*◌, ◌^◌, ◌≤◌, ◌≡◌, inl, inr, arith, min, Bool, Bool-cases, Option, none, some, List,
  Result, ok, err,
}
use robinhood_chain_sequence.Prelude.Int.{ℤ}
use robinhood_chain_sequence.Bytes.{Bytes}
use robinhood_chain_sequence.Hex.{Text}
use robinhood_chain_sequence.ParentChain.{Json}
use robinhood_chain_sequence.Frame.{Entry, FeedMessage}
use robinhood_chain_sequence.Consumer.{Consumer}
use robinhood_chain_sequence.Session.{
  Settings, Session, Step, opens, receives, fails, closes, Run, here, next, begin, on_open,
  on_failure, on_close, on_result, on_frame, check_chain, arrived,
}

-- After `failures` failures in a row the delay has doubled as often, up to the greatest one.
abbrev pub Delays : Settings → Session → Type 0
Delays settings s =
    s.delay ≡ min (settings.reconnect_delay * 2 ^ s.failures) settings.max_reconnect_delay

pow_double : (n : ℕ) → 2 ^ suc n ≡ 2 ^ n * 2
pow_double n = omega arith

min_double : (a m : ℕ) → min (min a m * 2) m ≡ min (a * 2) m
min_double a m = omega arith

on_failure-Delays :
    (settings : Settings) (s : Session)
    → Delays settings s
    → Delays settings (on_failure settings s)
unfolding on_failure
on_failure-Delays settings s h =
    let twice : settings.reconnect_delay * 2 ^ (s.failures + 1)
        ≡ settings.reconnect_delay * 2 ^ s.failures * 2 =
      grind (arith, pow_double s.failures) in
    rw (h, twice)
      (min_double (settings.reconnect_delay * 2 ^ s.failures) settings.max_reconnect_delay)

on_result-Delays :
    (settings : Settings) (received mono : ℕ) (s : Session)
    (m : Result (Consumer × List FeedMessage))
    → Delays settings s
    → Delays settings (on_result settings received mono s m).0
unfolding on_result
on_result-Delays settings received mono s (err raised) h = on_failure-Delays settings s h
on_result-Delays settings received mono s (ok (c, out)) h = h

module _ (int_of : Text → Option ℕ) (to_int : Json → Option ℤ) (keccak : Bytes → Bytes)
    (public_key : Bytes → Bytes → Option Bytes) (settings : Settings) (decode_backlog : Bool)
    (ordered : settings.reconnect_delay ≤ settings.max_reconnect_delay) where
  on_open-Delays :
      (s : Session) (values : List Text) (now mono : ℕ)
      → Delays settings s
      → Delays settings (on_open int_of settings values now mono s)
  unfolding on_open
  on_open-Delays s values now mono h =
      elim (Bool-cases (check_chain int_of settings.verify values)) [
        | inl other ↦ rw other h
        | inr same ↦ rw same (ground arith)
      ]

  on_frame-Delays :
      (s : Session) (raw : Option (List Entry)) (clock : ℕ → ℕ) (received mono : ℕ)
      → Delays settings s
      → Delays settings
          (on_frame to_int keccak public_key settings decode_backlog raw clock received mono s).0
  unfolding on_frame arrived
  on_frame-Delays s none clock received mono h = on_failure-Delays settings (arrived mono s) h
  on_frame-Delays s (some entries) clock received mono h =
      on_result-Delays settings received mono (arrived mono s) _ h

  Step-Delays :
      {s t : Session} {out : List FeedMessage}
      → Step int_of to_int keccak public_key settings decode_backlog s out t
      → Delays settings s
      → Delays settings t
  Step-Delays (opens s values now mono p) h = on_open-Delays s values now mono h
  Step-Delays (receives s raw clock received mono p) h = on_frame-Delays s raw clock received mono h
  Step-Delays (fails s p) h = on_failure-Delays settings s h
  Step-Delays (closes s p) h = unfold on_close in h

  Run-Step-Delays :
      {s t : Session} {out : List FeedMessage}
      → Run int_of to_int keccak public_key settings decode_backlog s out t
      → Delays settings s
      → Delays settings t
  Run-Step-Delays here h = h
  Run-Step-Delays (next r st) h = Step-Delays st (Run-Step-Delays r h)

  -- In every state of a session, the delay is the first one, doubled once for each failure since the
  -- last handshake that was kept, and the greatest delay at most; where the first is no greater than
  -- that.
  pub Run-Delays :
      {t : Session} {out : List FeedMessage} (chain_id : Option ℕ) (c : Consumer)
      → Run int_of to_int keccak public_key settings decode_backlog
          (begin settings chain_id c)
          out
          t
      → Delays settings t
  Run-Delays chain_id c r = Run-Step-Delays r (ground arith)
