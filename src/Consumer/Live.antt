-- ===== src/Consumer/Live.antt =====
-- consume.py, `live`: what it yields of a frame, of which it leaves the backlog undecoded.
use robinhood_chain_sequence.Prelude.{
  ℕ, zero, suc, ◌+◌, ◌-◌, ◌≡◌, ◌∙◌, refl, sym, ap, inl, inr, arith, Bool, Bool-cases, true, false,
  Option, List, [], ◌∷◌, ◌++◌, ok, >>=-eq-ok, length, take, drop, ◌==◌, if◌then◌else◌,
}
use robinhood_chain_sequence.Prelude.Int.{le_ℤ, minus}
use robinhood_chain_sequence.Frame.{Entry, FeedMessage, parse_frame}
use robinhood_chain_sequence.Frame.Backlog.{bare, all_bare, parse_frame-bare}
use robinhood_chain_sequence.Frame.Read.{parse_frame-Aligned, length-Aligned}
use robinhood_chain_sequence.Consumer.{
  Config, Consumer, is_reorg, remember, deliver, step, go_live, run_steps, accepted_of, first_live,
  frame,
}

-- if msg.live: yield msg
abbrev keep_one : Bool → FeedMessage → List FeedMessage → List FeedMessage
keep_one true m rest = m ∷ rest
keep_one false m rest = rest

-- The messages that `live` yields of those that `messages` does.
unfoldable pub keep_live : List FeedMessage → List FeedMessage
keep_live [] = []
keep_live (m ∷ ms) = keep_one m.live m (keep_live ms)

keep_one-append :
    (live : Bool) (m : FeedMessage) (xs ys : List FeedMessage)
    → keep_one live m (xs ++ ys) ≡ keep_one live m xs ++ ys
keep_one-append true m xs ys = refl
keep_one-append false m xs ys = refl

keep_live-append : (xs ys : List FeedMessage) → keep_live (xs ++ ys) ≡ keep_live xs ++ keep_live ys
unfolding keep_live
keep_live-append [] ys = refl
keep_live-append (m ∷ xs) ys =
    ap (keep_one m.live m) (keep_live-append xs ys)
    ∙ keep_one-append m.live m (keep_live xs) (keep_live ys)

keep_live-after :
    (xs ys : List FeedMessage) → keep_live xs ≡ [] → keep_live (xs ++ ys) ≡ keep_live ys
keep_live-after xs ys h = keep_live-append xs ys ∙ ap (λ x. x ++ keep_live ys) h

-- The first `n` messages without their transactions.
abbrev strip : ℕ → List FeedMessage → List FeedMessage
strip zero ms = ms
strip (suc n) [] = []
strip (suc n) (m ∷ ms) = bare m ∷ strip n ms

strip-append :
    (n : ℕ) (entries : List Entry) (backlog current : List FeedMessage)
    → length backlog ≡ length (take n entries)
    → length current ≡ length (drop n entries)
    → all_bare backlog ++ current ≡ strip n (backlog ++ current)
strip-append zero entries [] current hb hc = refl
strip-append zero entries (m ∷ backlog) current hb hc = absurd (omega arith)
strip-append (suc n) [] [] [] hb hc = refl
strip-append (suc n) [] [] (m ∷ current) hb hc = absurd (omega arith)
strip-append (suc n) [] (m ∷ backlog) current hb hc = absurd (omega arith)
strip-append (suc n) (e ∷ entries) [] current hb hc = absurd (omega arith)
strip-append (suc n) (e ∷ entries) (m ∷ backlog) current hb hc =
    ap (λ r. bare m ∷ r) (strip-append n entries backlog current (omega arith) hc)

-- The consumer is left the same, and nothing live is yielded, in either run.
record SameBacklog (r s : Consumer × List FeedMessage) : Type 0 where
  state : r.0 ≡ s.0
  left : keep_live r.1 ≡ []
  right : keep_live s.1 ≡ []

deliver-bare :
    (w : ℕ) (m : FeedMessage) (c : Consumer)
    → SameBacklog (deliver w false (bare m) c) (deliver w false m c)
unfolding deliver remember keep_live
deliver-bare w m c = record { state = refl; left = refl; right = refl }

step-bare :
    (w : ℕ) (a : Bool) (m : FeedMessage) (c : Consumer)
    → SameBacklog (step w a false (bare m) c) (step w a false m c)
unfolding step keep_live is_reorg
step-bare w false m c = record { state = refl; left = refl; right = refl }
step-bare w true m c = elim (Bool-cases (le_ℤ m.seq c.highest_seq)) [
  | inl old ↦ elim (Bool-cases (is_reorg c m)) [
    | inl changed ↦
        rw (old, changed)
          (deliver-bare w (record m { reorg = true })
            (record c {
              stats = record c.stats { reorgs = c.stats.reorgs + 1 };
              highest_seq = minus m.seq 1;
            }))
    | inr same ↦ rw (old, same) (record { state = refl; left = refl; right = refl })
  ]
  | inr new ↦ rw new (deliver-bare w m c)
]

record SameLive (r s : Consumer × List FeedMessage) : Type 0 where
  state : r.0 ≡ s.0
  live : keep_live r.1 ≡ keep_live s.1

run_steps-strip :
    (w until : ℕ) (accepted : List Bool) (ms : List FeedMessage) (c : Consumer)
    → SameLive (run_steps w until accepted (strip until ms) c) (run_steps w until accepted ms c)
unfolding run_steps
run_steps-strip w zero accepted ms c = record { state = refl; live = refl }
run_steps-strip w (suc until) [] ms c = record { state = refl; live = refl }
run_steps-strip w (suc until) (a ∷ accepted) [] c = record { state = refl; live = refl }
run_steps-strip w (suc until) (a ∷ accepted) (m ∷ ms) c =
    let later : (suc until == 0) ≡ false = ground arith in
    let fewer : suc until - 1 ≡ until = omega arith in
    let r = step w a false m (go_live false c) in
    let one = step-bare w a m (go_live false c) in
    let rest = run_steps-strip w until accepted ms r.0 in
    let backlog : run_steps w until accepted (strip until ms)
          (step w a false (bare m) (go_live false c)).0
        ≡ run_steps w until accepted (strip until ms) r.0 =
      ap (run_steps w until accepted (strip until ms)) one.state in
    rw (later, fewer)
      (record {
        state = ap (λ p. p.0) backlog ∙ rest.state;
        live =
            keep_live-after (step w a false (bare m) (go_live false c)).1 _ one.left
            ∙ ap (λ p. keep_live p.1) backlog
            ∙ rest.live
            ∙ sym (keep_live-after r.1 (run_steps w until accepted ms r.0).1 one.right);
      })

-- `live` leaves the backlog of a frame undecoded, and yields the same messages as if it had been
-- decoded, wherever that succeeds; the consumer is left in the same state.
frame-keep_live :
    (config : Config) (accepts : Entry → Bool) (started : ℕ) (clock : ℕ → ℕ) (entries : List Entry)
    (c : Consumer) (r : Consumer × List FeedMessage)
    → frame config accepts started clock true entries c ≡ ok r
    → (out : List FeedMessage) × (frame config accepts started clock false entries c
        ≡ ok (r.0, out))
      × (keep_live out ≡ keep_live r.1)
unfolding frame
frame-keep_live config accepts started clock entries c r h =
    let first : ℕ = if c.is_live then 0 else first_live config accepts started clock entries in
    let chain : Option ℕ = config.chain_id in
    let verdicts : List Bool = accepted_of config accepts entries in
    let (backlog, hb, h') = >>=-eq-ok (parse_frame (take first entries) true chain) _ h in
    let (current, hc, made) = >>=-eq-ok (parse_frame (drop first entries) true chain) _ h' in
    let stripped =
      strip-append first entries backlog current
        (length-Aligned chain (take first entries) backlog
          (parse_frame-Aligned true chain (take first entries) backlog hb))
        (length-Aligned chain (drop first entries) current
          (parse_frame-Aligned true chain (drop first entries) current hc)) in
    let whole : run_steps config.reorg_window first verdicts (backlog ++ current) c ≡ r = cc in
    let same = run_steps-strip config.reorg_window first verdicts (backlog ++ current) c in
    let bare_run : Consumer × List FeedMessage =
      run_steps config.reorg_window first verdicts (all_bare backlog ++ current) c in
    let moved : bare_run
        ≡ run_steps config.reorg_window first verdicts (strip first (backlog ++ current)) c =
      ap (λ ms. run_steps config.reorg_window first verdicts ms c) stripped in
    let state : bare_run.0 ≡ r.0 = ap (λ p. p.0) moved ∙ same.state ∙ ap (λ p. p.0) whole in
    (
      bare_run.1,
      rw (parse_frame-bare chain (take first entries) backlog hb, hc)
          (ap (λ d. ok (d, bare_run.1)) state),
      ap (λ p. keep_live p.1) moved ∙ same.live ∙ ap (λ p. keep_live p.1) whole,
    )
