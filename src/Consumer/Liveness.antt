-- ===== src/Consumer/Liveness.antt =====
-- The live flags: the backlog comes first, and the consumer is live from the first live entry on.
use robinhood_chain_sequence.Prelude.{
  ℕ, zero, suc, ◌+◌, ◌-◌, ◌≡◌, refl, sym, ap, ◌∙◌, arith, Bool, true, false, List, [], ◌∷◌, ◌++◌,
  append_assoc, take, drop, All, All-append, length, ltb, ◌==◌, ◌||◌, Bool-cases, inl, inr,
}
use robinhood_chain_sequence.Prelude.Int.{le_ℤ, minus}
use robinhood_chain_sequence.Frame.{FeedMessage}
use robinhood_chain_sequence.Consumer.{
  Consumer, is_reorg, reject, deliver, step, go_live, run_steps,
}
use robinhood_chain_sequence.Consumer.Step.{remember_keeps}

abbrev pub IsLive : FeedMessage → Type 0
IsLive m = m.live ≡ true

abbrev pub IsBacklog : FeedMessage → Type 0
IsBacklog m = m.live ≡ false

Flagged : Bool → FeedMessage → Type 0
Flagged live m = m.live ≡ live

deliver-Flagged :
    (w : ℕ) (live : Bool) (msg : FeedMessage) (c : Consumer)
    → All (Flagged live) (deliver w live msg c).1 × ((deliver w live msg c).0.is_live ≡ c.is_live)
unfolding deliver Flagged
deliver-Flagged w live msg c =
    ((refl, tt), (remember_keeps w msg (record c { highest_seq = msg.seq })).2)

-- A round yields messages with its flag, and leaves the consumer's.
step-Flagged :
    (w : ℕ) (a live : Bool) (msg : FeedMessage) (c : Consumer)
    → All (Flagged live) (step w a live msg c).1 × ((step w a live msg c).0.is_live ≡ c.is_live)
unfolding step
step-Flagged w false live msg c = unfold reject in (tt, refl)
step-Flagged w true live msg c = elim (Bool-cases (le_ℤ msg.seq c.highest_seq)) [
  | inl old ↦ elim (Bool-cases (is_reorg c msg)) [
    | inl changed ↦
        rw (old, changed)
          (deliver-Flagged w live (record msg { reorg = true })
            (record c {
              stats = record c.stats { reorgs = c.stats.reorgs + 1 };
              highest_seq = minus msg.seq 1;
            }))
    | inr same ↦ rw (old, same) (tt, refl)
  ]
  | inr new ↦ rw new (deliver-Flagged w live msg c)
]

All-Flagged :
    (live now : Bool) (xs : List FeedMessage)
    → live ≡ now
    → All (Flagged live) xs
    → All (Flagged now) xs
unfolding Flagged
All-Flagged live now [] e h = tt
All-Flagged live now (x ∷ xs) e (hx, h) = (hx ∙ e, All-Flagged live now xs e h)

-- From the first live entry on, everything that is yielded is live.
pub run_steps-IsLive :
    (w : ℕ) (accepted : List Bool) (messages : List FeedMessage) (c : Consumer)
    → All IsLive (run_steps w 0 accepted messages c).1
unfolding run_steps Flagged
run_steps-IsLive w [] messages c = tt
run_steps-IsLive w (a ∷ accepted) [] c = tt
run_steps-IsLive w (a ∷ accepted) (msg ∷ messages) c =
    All-append (Flagged true) (step w a true msg (go_live true c)).1 _
      (step-Flagged w a true msg (go_live true c)).0
      (run_steps-IsLive w accepted messages (step w a true msg (go_live true c)).0)

-- Before the first live entry, everything that is yielded is backlog.
run_steps-IsBacklog :
    (w until : ℕ) (accepted : List Bool) (messages : List FeedMessage) (c : Consumer)
    → All IsBacklog (run_steps w until (take until accepted) (take until messages) c).1
unfolding run_steps Flagged
run_steps-IsBacklog w zero accepted messages c = tt
run_steps-IsBacklog w (suc until) [] messages c = tt
run_steps-IsBacklog w (suc until) (a ∷ accepted) [] c = tt
run_steps-IsBacklog w (suc until) (a ∷ accepted) (msg ∷ messages) c =
    let live : Bool = suc until == 0 in
    let not_yet : live ≡ false = ground arith in
    let r = step w a live msg (go_live live c) in
    let one_less : suc until - 1 ≡ until = omega arith in
    All-append (Flagged false) r.1 _
      (All-Flagged live false r.1 not_yet (step-Flagged w a live msg (go_live live c)).0)
      (rw one_less (run_steps-IsBacklog w until accepted messages r.0))

-- The loop is the loop over the first `until` messages, and from there on that of a frame whose
-- first entry is live.
run_steps-take :
    (w until : ℕ) (accepted : List Bool) (messages : List FeedMessage) (c : Consumer)
    → length accepted ≡ length messages
    → (run_steps w until accepted messages c).1
      ≡ (run_steps w until (take until accepted) (take until messages) c).1
        ++ (run_steps w 0
            (drop until accepted)
            (drop until messages)
            (run_steps w until (take until accepted) (take until messages) c).0).1
unfolding run_steps
run_steps-take w zero accepted messages c e = refl
run_steps-take w (suc until) [] [] c e = refl
run_steps-take w (suc until) [] (m ∷ ms) c e = absurd (omega arith)
run_steps-take w (suc until) (a ∷ accepted) [] c e = absurd (omega arith)
run_steps-take w (suc until) (a ∷ accepted) (msg ∷ messages) c e =
    let live : Bool = suc until == 0 in
    let r = step w a live msg (go_live live c) in
    let one_less : suc until - 1 ≡ until = omega arith in
    rw one_less (
      ap (λ ms. r.1 ++ ms) (run_steps-take w until accepted messages r.0 (omega arith))
      ∙ sym (append_assoc r.1 _ _))

until_lem :
    (b : Bool) (until n : ℕ) → ((b || until == 0) || ltb (until - 1) n) ≡ (b || ltb until (suc n))
until_lem true until n = refl
until_lem false until n = ground arith

run_steps-is_live :
    (w until : ℕ) (accepted : List Bool) (messages : List FeedMessage) (c : Consumer)
    → length accepted ≡ length messages
    → (run_steps w until accepted messages c).0.is_live ≡ (c.is_live || ltb until (length messages))
unfolding run_steps go_live
run_steps-is_live w until [] [] c e = ground arith
run_steps-is_live w until [] (m ∷ ms) c e = absurd (omega arith)
run_steps-is_live w until (a ∷ accepted) [] c e = absurd (omega arith)
run_steps-is_live w until (a ∷ accepted) (msg ∷ messages) c e =
    let live : Bool = until == 0 in
    let c' = (step w a live msg (go_live live c)).0 in
    run_steps-is_live w (until - 1) accepted messages c' (omega arith)
    ∙ ap (λ b. b || ltb (until - 1) (length messages))
        (step-Flagged w a live msg (go_live live c)).1
    ∙ until_lem c.is_live until (length messages)

-- The entries of a frame before its first live one, of which there are `until`, are processed
-- first, and the others, with the state that these leave, after them: what the frame yields is what
-- the first yield, every one of which is flagged backlog, and then what the others yield, every one
-- of which is flagged live. Afterwards the consumer is live just when it was before or the frame had
-- a live entry. There is a verdict for every message.
pub run_steps-liveness :
    (w until : ℕ) (accepted : List Bool) (messages : List FeedMessage) (c : Consumer)
    → length accepted ≡ length messages
    → ((run_steps w until accepted messages c).1
        ≡ (run_steps w until (take until accepted) (take until messages) c).1
          ++ (run_steps w 0
              (drop until accepted)
              (drop until messages)
              (run_steps w until (take until accepted) (take until messages) c).0).1)
      × All IsBacklog (run_steps w until (take until accepted) (take until messages) c).1
      × All IsLive
          (run_steps w 0
            (drop until accepted)
            (drop until messages)
            (run_steps w until (take until accepted) (take until messages) c).0).1
      × ((run_steps w until accepted messages c).0.is_live
          ≡ (c.is_live || ltb until (length messages)))
run_steps-liveness w until accepted messages c e = (
  run_steps-take w until accepted messages c e,
  run_steps-IsBacklog w until accepted messages c,
  run_steps-IsLive w (drop until accepted) (drop until messages) _,
  run_steps-is_live w until accepted messages c e,
)
