-- ===== src/Consumer/Step.antt =====
-- What the rounds of `_frame` do to the watermark and the counters, and what they yield.
use robinhood_chain_sequence.Prelude.{
  ℕ, ◌+◌, ◌-◌, ◌≡◌, ◌⊎◌, refl, ap, ◌∙◌, arith, Bool, true, false, List, [], ◌∷◌, ◌++◌, All, length,
  length-append, ◌==◌, Bool-cases, inl, inr,
}
use robinhood_chain_sequence.Prelude.Int.{ℤ, ◌<ℤ◌, ◌≤ℤ◌, minus, le_ℤ}
use robinhood_chain_sequence.Frame.{FeedMessage}
use robinhood_chain_sequence.Consumer.{
  Consumer, is_reorg, remember, reject, deliver, step, go_live, run_steps,
}

-- The entries that were counted in one way or another, and those that were yielded.
abbrev pub counted : Consumer → ℕ
counted c =
    c.stats.backlog_messages + c.stats.live_messages + c.stats.duplicate_messages
    + c.stats.unverified_messages

abbrev pub delivered : Consumer → ℕ
delivered c = c.stats.backlog_messages + c.stats.live_messages

-- `_remember` touches the window of hashes alone.
pub remember_keeps :
    (window : ℕ) (msg : FeedMessage) (c : Consumer)
    → ((remember window msg c).stats ≡ c.stats)
      × ((remember window msg c).highest_seq ≡ c.highest_seq)
      × ((remember window msg c).is_live ≡ c.is_live)
unfolding remember
remember_keeps window msg c = ground arith

pub deliver_lem :
    (window : ℕ) (live : Bool) (msg : FeedMessage) (c : Consumer)
    → ((deliver window live msg c).1 ≡ record msg { live = live } ∷ [])
      × ((deliver window live msg c).0.highest_seq ≡ msg.seq)
      × (delivered (deliver window live msg c).0 ≡ delivered c + 1)
      × (counted (deliver window live msg c).0 ≡ counted c + 1)
unfolding deliver
deliver_lem window true msg c =
    let (s, h, l) = remember_keeps window msg (record c { highest_seq = msg.seq }) in
    (refl, h, rw s (omega arith), rw s (omega arith))
deliver_lem window false msg c =
    let (s, h, l) = remember_keeps window msg (record c { highest_seq = msg.seq }) in
    (refl, h, rw s (omega arith), rw s (omega arith))

-- A message in its place behind the watermark `h`: the next one, or one that replaces a block.
abbrev pub Placed : ℤ → FeedMessage → Type 0
Placed h m = ((m.reorg ≡ false) × (h <ℤ m.seq)) ⊎ ((m.reorg ≡ true) × (m.seq ≤ℤ h))

-- Every message is in its place behind the one before it, and `h'` is the last of them.
abbrev pub Follows : ℤ → List FeedMessage → ℤ → Type 0
Follows h [] h' = h ≡ h'
Follows h (m ∷ ms) h' = Placed h m × Follows m.seq ms h'

pub Follows-append :
    (h h' h'' : ℤ) (ms ns : List FeedMessage)
    → Follows h ms h'
    → Follows h' ns h''
    → Follows h (ms ++ ns) h''
Follows-append h h' h'' [] ns e f = rw e f
Follows-append h h' h'' (m ∷ ms) ns (p, e) f = (p, Follows-append m.seq h' h'' ms ns e f)

-- One round counts its entry once, yields as many messages as it counts for delivered, and keeps
-- the watermark at the last message yielded.
pub record StepLaws (c : Consumer) (r : Consumer × List FeedMessage) : Type 0 where
  pub counts : counted r.0 ≡ counted c + 1
  pub yields : delivered r.0 ≡ delivered c + length r.1
  pub places : Follows c.highest_seq r.1 r.0.highest_seq

deliver-StepLaws :
    (window : ℕ) (live : Bool) (msg : FeedMessage) (c d : Consumer)
    → Placed c.highest_seq msg
    → counted d ≡ counted c
    → delivered d ≡ delivered c
    → StepLaws c (deliver window live msg d)
deliver-StepLaws window live msg c d placed hc hd =
    let (out, high, del, cnt) = deliver_lem window live msg d in
    record {
      counts = cnt ∙ ap (λ n. n + 1) hc;
      yields = rw out (del ∙ ap (λ n. n + 1) hd);
      places = rw (out, high) (placed, refl);
    }

pub step-StepLaws :
    (window : ℕ) (accepted live : Bool) (msg : FeedMessage) (c : Consumer)
    → msg.reorg ≡ false
    → StepLaws c (step window accepted live msg c)
unfolding step
step-StepLaws window false live msg c fresh =
    unfold reject in record { counts = omega arith; yields = omega arith; places = refl }
step-StepLaws window true live msg c fresh = elim (Bool-cases (le_ℤ msg.seq c.highest_seq)) [
  | inl old ↦ elim (Bool-cases (is_reorg c msg)) [
    | inl changed ↦
        rw (old, changed)
          (deliver-StepLaws window live (record msg { reorg = true }) c
            (record c {
              stats = record c.stats { reorgs = c.stats.reorgs + 1 };
              highest_seq = minus msg.seq 1;
            })
            (inr (refl, ground arith)) refl refl)
    | inr same ↦
        rw (old, same) (record { counts = omega arith; yields = omega arith; places = refl })
  ]
  | inr new ↦ rw new (deliver-StepLaws window live msg c c (inl (fresh, ground arith)) refl refl)
]

abbrev pub IsFresh : FeedMessage → Type 0
IsFresh msg = msg.reorg ≡ false

pub record RunLaws (c : Consumer) (n : ℕ) (r : Consumer × List FeedMessage) : Type 0 where
  pub counts : counted r.0 ≡ counted c + n
  pub yields : delivered r.0 ≡ delivered c + length r.1
  pub places : Follows c.highest_seq r.1 r.0.highest_seq

-- Every message of a frame is counted exactly once: as backlog, live, duplicate or unverified. As
-- many are yielded as are counted for backlog or live. Each one that is yielded is past the
-- watermark, or is marked as a reorg and is not past it; and the watermark ends at the last one.
pub run_steps-RunLaws :
    (window until : ℕ) (accepted : List Bool) (messages : List FeedMessage) (c : Consumer)
    → length accepted ≡ length messages
    → All IsFresh messages
    → RunLaws c (length messages) (run_steps window until accepted messages c)
unfolding run_steps go_live
run_steps-RunLaws window until [] [] c e fresh = record {
  counts = omega arith;
  yields = omega arith;
  places = refl;
}
run_steps-RunLaws window until [] (m ∷ ms) c e fresh = absurd (omega arith)
run_steps-RunLaws window until (a ∷ more) [] c e fresh = absurd (omega arith)
run_steps-RunLaws window until (a ∷ accepted) (msg ∷ messages) c e (f, fresh) =
    let live : Bool = until == 0 in
    let r = step window a live msg (go_live live c) in
    let one = step-StepLaws window a live msg (go_live live c) f in
    let rest = run_steps-RunLaws window (until - 1) accepted messages r.0 (omega arith) fresh in
    record {
      counts = omega (arith, one.counts, rest.counts);
      yields = omega (
        arith,
        one.yields,
        rest.yields,
        length-append r.1 (run_steps window (until - 1) accepted messages r.0).1,
      );
      places = Follows-append c.highest_seq r.0.highest_seq _ r.1 _ one.places rest.places;
    }
