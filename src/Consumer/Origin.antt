-- ===== src/Consumer/Origin.antt =====
-- Where the messages come from that `_frame` yields.
use robinhood_chain_sequence.Prelude.{
  ℕ, ◌+◌, ◌-◌, ◌≡◌, ◌⊎◌, refl, Bool, Bool-cases, inl, inr, true, false, List, [], ◌∷◌, ◌++◌, All,
  ◌==◌,
}
use robinhood_chain_sequence.Prelude.Int.{le_ℤ, minus}
use robinhood_chain_sequence.Frame.{FeedMessage}
use robinhood_chain_sequence.Consumer.{Consumer, is_reorg, deliver, step, go_live, run_steps}

-- What the decoder read of an entry, whatever the consumer then marked.
pub record Content (m n : FeedMessage) : Type 0 where
  pub seq : m.seq ≡ n.seq
  pub txs : m.txs ≡ n.txs
  pub block_hash : m.block_hash ≡ n.block_hash

-- `m` has the content of a message whose verdict is good.
abbrev pub FromAccepted : List Bool → List FeedMessage → FeedMessage → Type 0
FromAccepted (a ∷ accepted) (msg ∷ messages) m =
    ((a ≡ true) × Content m msg) ⊎ FromAccepted accepted messages m
FromAccepted _ _ m = ⊥

-- A round yields nothing but its own message, and that only when it was accepted.
abbrev Own : Bool → FeedMessage → FeedMessage → Type 0
Own a msg m = (a ≡ true) × Content m msg

deliver-Own :
    (w : ℕ) (live : Bool) (msg own : FeedMessage) (c : Consumer)
    → Content msg own
    → All (Own true own) (deliver w live msg c).1
unfolding deliver
deliver-Own w live msg own c same =
    ((refl, record { seq = same.seq; txs = same.txs; block_hash = same.block_hash }), tt)

step-Own :
    (w : ℕ) (a live : Bool) (msg : FeedMessage) (c : Consumer)
    → All (Own a msg) (step w a live msg c).1
unfolding step
step-Own w false live msg c = tt
step-Own w true live msg c = elim (Bool-cases (le_ℤ msg.seq c.highest_seq)) [
  | inl old ↦ elim (Bool-cases (is_reorg c msg)) [
    | inl changed ↦
        rw (old, changed)
          (deliver-Own w live (record msg { reorg = true }) msg
            (record c {
              stats = record c.stats { reorgs = c.stats.reorgs + 1 };
              highest_seq = minus msg.seq 1;
            })
            (record { seq = refl; txs = refl; block_hash = refl }))
    | inr same ↦ rw (old, same) tt
  ]
  | inr new ↦
      rw new (deliver-Own w live msg msg c (record { seq = refl; txs = refl; block_hash = refl }))
]

All-map_append :
    (P Q R : FeedMessage → Type 0) (xs ys : List FeedMessage)
    → ((m : FeedMessage) → P m → R m)
    → ((m : FeedMessage) → Q m → R m)
    → All P xs
    → All Q ys
    → All R (xs ++ ys)
All-map_append P Q R [] [] f g hx hy = tt
All-map_append P Q R [] (y ∷ ys) f g hx (h, hy) = (g y h, All-map_append P Q R [] ys f g hx hy)
All-map_append P Q R (x ∷ xs) ys f g (h, hx) hy = (f x h, All-map_append P Q R xs ys f g hx hy)

pub run_steps-FromAccepted :
    (w until : ℕ) (accepted : List Bool) (messages : List FeedMessage) (c : Consumer)
    → All (FromAccepted accepted messages) (run_steps w until accepted messages c).1
unfolding run_steps
run_steps-FromAccepted w until [] messages c = tt
run_steps-FromAccepted w until (a ∷ accepted) [] c = tt
run_steps-FromAccepted w until (a ∷ accepted) (msg ∷ messages) c =
    let live : Bool = until == 0 in
    let r = step w a live msg (go_live live c) in
    All-map_append (Own a msg) (FromAccepted accepted messages) _ r.1 _ (λ m own. inl own)
      (λ m later. inr later) (step-Own w a live msg (go_live live c))
      (run_steps-FromAccepted w (until - 1) accepted messages r.0)
