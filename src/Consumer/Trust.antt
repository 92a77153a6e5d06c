-- ===== src/Consumer/Trust.antt =====
-- Messages that fail verification: they decide nothing.
use robinhood_chain_sequence.Prelude.{
  ℕ, ◌+◌, ◌-◌, ◌≡◌, refl, ap, ◌∙◌, arith, Bool, true, false, List, [], ◌∷◌, ◌++◌, ◌==◌, Bool-cases,
  inl, inr,
}
use mathlib.Core.Path.{ap₂}
use robinhood_chain_sequence.Prelude.Int.{le_ℤ, minus}
use robinhood_chain_sequence.Frame.{FeedMessage}
use robinhood_chain_sequence.Consumer.{
  Consumer, is_reorg, remember, reject, deliver, step, go_live, run_steps,
}

-- The accepted messages, each with the flag of its place in the frame.
abbrev pub accepted_messages : ℕ → List Bool → List FeedMessage → List (Bool × FeedMessage)
accepted_messages until (true ∷ accepted) (msg ∷ messages) =
    (until == 0, msg) ∷ accepted_messages (until - 1) accepted messages
accepted_messages until (false ∷ accepted) (msg ∷ messages) =
    accepted_messages (until - 1) accepted messages
accepted_messages until _ _ = []

-- The consumer that is fed those alone.
abbrev pub trusted_run : ℕ → List (Bool × FeedMessage) → Consumer → Consumer × List FeedMessage
trusted_run window [] c = (c, [])
trusted_run window ((live, msg) ∷ rest) c =
    let r = step window true live msg c in let s = trusted_run window rest r.0 in (s.0, r.1 ++ s.1)

-- What later messages are judged by, and what a reconnect asks for.
pub record SameView (c d : Consumer) : Type 0 where
  pub highest : c.highest_seq ≡ d.highest_seq
  pub window : c.hashes ≡ d.hashes

remember-SameView :
    (w : ℕ) (msg : FeedMessage) (c d : Consumer)
    → SameView c d
    → SameView (remember w msg c) (remember w msg d)
unfolding remember
remember-SameView w msg c d v = record {
  highest = ground (arith, v.highest);
  window = ground (arith, v.highest, v.window);
}

deliver-SameView :
    (w : ℕ) (live : Bool) (msg : FeedMessage) (c d : Consumer)
    → c.hashes ≡ d.hashes
    → ((deliver w live msg c).1 ≡ (deliver w live msg d).1)
      × SameView (deliver w live msg c).0 (deliver w live msg d).0
unfolding deliver
deliver-SameView w live msg c d h =
    let v =
      remember-SameView w msg (record c { highest_seq = msg.seq })
        (record d { highest_seq = msg.seq }) (record { highest = refl; window = h }) in
    (refl, record { highest = v.highest; window = v.window })

is_reorg-SameView :
    (c d : Consumer) (msg : FeedMessage) → SameView c d → is_reorg c msg ≡ is_reorg d msg
unfolding is_reorg
is_reorg-SameView c d msg v = rw v.window

step-SameView :
    (w : ℕ) (live : Bool) (msg : FeedMessage) (c d : Consumer)
    → SameView c d
    → ((step w true live msg c).1 ≡ (step w true live msg d).1)
      × SameView (step w true live msg c).0 (step w true live msg d).0
unfolding step
step-SameView w live msg c d v =
    let high : le_ℤ msg.seq c.highest_seq ≡ le_ℤ msg.seq d.highest_seq =
      ap (le_ℤ msg.seq) v.highest in
    let replaced = is_reorg-SameView c d msg v in
    elim (Bool-cases (le_ℤ msg.seq d.highest_seq)) [
      | inl old ↦ elim (Bool-cases (is_reorg d msg)) [
        | inl changed ↦
            rw (high ∙ old, old, replaced ∙ changed, changed)
              (deliver-SameView w live (record msg { reorg = true })
                (record c {
                  stats = record c.stats { reorgs = c.stats.reorgs + 1 };
                  highest_seq = minus msg.seq 1;
                })
                (record d {
                  stats = record d.stats { reorgs = d.stats.reorgs + 1 };
                  highest_seq = minus msg.seq 1;
                })
                v.window)
        | inr same ↦
            rw (high ∙ old, old, replaced ∙ same, same)
              (refl, record { highest = v.highest; window = v.window })
      ]
      | inr new ↦ rw (high ∙ new, new) (deliver-SameView w live msg c d v.window)
    ]

-- What the loop of `_frame` yields, and the watermark and the hashes that it leaves, are those of
-- a consumer that never saw the messages that failed verification. The two consumers start with
-- the same watermark and hashes.
pub run_steps-trusted :
    (w until : ℕ) (accepted : List Bool) (messages : List FeedMessage) (c d : Consumer)
    → SameView c d
    → ((run_steps w until accepted messages c).1
        ≡ (trusted_run w (accepted_messages until accepted messages) d).1)
      × SameView
          (run_steps w until accepted messages c).0
          (trusted_run w (accepted_messages until accepted messages) d).0
unfolding run_steps go_live step reject
run_steps-trusted w until [] messages c d v = (refl, v)
run_steps-trusted w until (true ∷ accepted) [] c d v = (refl, v)
run_steps-trusted w until (false ∷ accepted) [] c d v = (refl, v)
run_steps-trusted w until (true ∷ accepted) (msg ∷ messages) c d v =
    let live : Bool = until == 0 in
    let r = step w true live msg (go_live live c) in
    let s = step w true live msg d in
    let (same, v') =
      step-SameView w live msg (go_live live c) d
        (record { highest = v.highest; window = v.window }) in
    let (more, v'') = run_steps-trusted w (until - 1) accepted messages r.0 s.0 v' in
    (ap₂ (λ xs ys. xs ++ ys) same more, v'')
run_steps-trusted w until (false ∷ accepted) (msg ∷ messages) c d v =
    run_steps-trusted w (until - 1) accepted messages (reject (go_live (until == 0) c)) d
      (record { highest = v.highest; window = v.window })
