-- ===== src/Signals/Counts.antt =====
-- What the tallies of examples/replay_capture.py add up to.
use robinhood_chain_sequence.Prelude.{
  ℕ, ◌+◌, ◌≡◌, refl, sym, ◌∙◌, ap, arith, Bool, true, false, Bool-cases, inl, inr, Option, none,
  some, List, [], ◌∷◌, ◌++◌, map, if◌then◌else◌, length, length-append,
}
use robinhood_chain_sequence.Bytes.{Bytes, bytes_eq}
use robinhood_chain_sequence.Bytes.Equality.{bytes_eq_refl, bytes_eq→eq}
use robinhood_chain_sequence.Tx.{Tx, sender_bytes}
use robinhood_chain_sequence.Frame.{FeedMessage, from_parent_chain}
use robinhood_chain_sequence.Signals.Tally.{
  Counter, count, count_of, count_some, Tally, no_tally, tally_to, tally_tx, tally_txs,
  tally_messages, load,
}

-- The sum of all the counts.
abbrev pub sum : Counter → ℕ
sum [] = 0
sum ((k, n) ∷ counter) = n + sum counter

sum-count : (key : Bytes) (counter : Counter) → sum (count key counter) ≡ sum counter + 1
unfolding count
sum-count key [] = refl
sum-count key ((k, n) ∷ counter) = ground (arith, sum-count key counter)

-- 1 for the key that is counted, 0 for another.
abbrev one_if : Bool → ℕ
one_if true = 1
one_if false = 0

-- A byte string that is not one of two equal ones is not the other.
bytes_eq_apart :
    (k key other : Bytes)
    → bytes_eq k key ≡ false
    → bytes_eq k other ≡ true
    → bytes_eq key other ≡ false
bytes_eq_apart k key other apart same = elim (Bool-cases (bytes_eq key other)) [
  | inl equal ↦
      let k_is : k ≡ key = bytes_eq→eq k other same ∙ sym (bytes_eq→eq key other equal) in
      let wrong : bytes_eq k key ≡ true = rw k_is (bytes_eq_refl key) in absurd (cc)
  | inr unequal ↦ unequal
]

count_of-count :
    (key other : Bytes) (counter : Counter)
    → count_of other (count key counter) ≡ count_of other counter + one_if (bytes_eq key other)
unfolding count count_of
count_of-count key other [] = ground arith
count_of-count key other ((k, n) ∷ counter) = elim (Bool-cases (bytes_eq k key)) [
  | inl same ↦ rw (bytes_eq→eq k key same) (rw (bytes_eq_refl key) (ground arith))
  | inr apart ↦ elim (Bool-cases (bytes_eq k other)) [
    | inl this ↦
        let wrong : bytes_eq key other ≡ false = bytes_eq_apart k key other apart this in
        rw (apart, this, wrong) (omega arith)
    | inr that ↦ rw (apart, that) (count_of-count key other counter)
  ]
]

-- How many of the transactions are sent to an address.
abbrev pub is_to : Bytes → Option Bytes → ℕ
is_to a none = 0
is_to a (some to) = one_if (bytes_eq to a)

abbrev pub sent_to : Bytes → List Tx → ℕ
sent_to a [] = 0
sent_to a (tx ∷ txs) = is_to a tx.to_bytes + sent_to a txs

-- The transactions of the messages, and the messages that came from the parent chain.
abbrev pub all_txs : List FeedMessage → List Tx
all_txs [] = []
all_txs (msg ∷ msgs) = msg.txs ++ all_txs msgs

sent_to-append : (a : Bytes) (xs ys : List Tx) → sent_to a (xs ++ ys) ≡ sent_to a xs + sent_to a ys
sent_to-append a [] ys = omega arith
sent_to-append a (x ∷ xs) ys = omega (arith, sent_to-append a xs ys)

-- What a stretch of transactions adds to a tally.
record Adds (txs : List Tx) (t u : Tally) : Type 0 where
  counted : u.txs ≡ t.txs + length txs
  typed : sum u.types ≡ sum t.types + length txs
  called : u.deploys + sum u.recipients ≡ t.deploys + sum t.recipients + length txs
  by_address : (a : Bytes) → count_of a u.recipients ≡ count_of a t.recipients + sent_to a txs
  blocks_same : u.blocks ≡ t.blocks

tally_to-Adds :
    (to selector : Option Bytes) (t : Tally)
    → let u = tally_to to selector t in
      (u.txs ≡ t.txs)
      × (u.types ≡ t.types)
      × (u.blocks ≡ t.blocks)
      × (u.deploys + sum u.recipients ≡ t.deploys + sum t.recipients + 1)
      × ((a : Bytes) → count_of a u.recipients ≡ count_of a t.recipients + is_to a to)
unfolding tally_to
tally_to-Adds none selector t = (refl, refl, refl, omega arith, λ a. omega arith)
tally_to-Adds (some to) selector t = (
  refl,
  refl,
  refl,
  omega (arith, sum-count to t.recipients),
  λ a. count_of-count to a t.recipients,
)

length-map_raw : (txs : List Tx) → length (map (λ tx. tx.raw) txs) ≡ length txs
length-map_raw [] = refl
length-map_raw (tx ∷ txs) = omega (arith, length-map_raw txs)

length-load : (msgs : List FeedMessage) → length (load msgs) ≡ length (all_txs msgs)
unfolding load
length-load [] = refl
length-load (msg ∷ msgs) = omega (
  arith,
  length-append (map (λ tx. tx.raw) msg.txs) (load msgs),
  length-append msg.txs (all_txs msgs),
  length-map_raw msg.txs,
  length-load msgs,
)

module _ (keccak : Bytes → Bytes) (public_key : Bytes → Bytes → Option Bytes) where
  tally_txs-Adds : (txs : List Tx) (t : Tally) → Adds txs t (tally_txs keccak public_key t txs)
  unfolding tally_txs tally_tx
  tally_txs-Adds [] t = record {
    counted = omega arith;
    typed = omega arith;
    called = omega arith;
    by_address = λ a. omega arith;
    blocks_same = refl;
  }
  tally_txs-Adds (tx ∷ txs) t =
      let seen = record t {
        txs = t.txs + 1;
        types = count (tx.tx_type ∷ []) t.types;
        senders = count_some (sender_bytes keccak public_key tx).0 t.senders;
      } in
      let (counted, typed, blocks, called, by_address) =
        tally_to-Adds tx.to_bytes tx.selector seen in
      let rest = tally_txs-Adds txs (tally_to tx.to_bytes tx.selector seen) in
      record {
        counted = omega (arith, counted, rest.counted);
        typed = omega (arith, ap sum typed, sum-count (tx.tx_type ∷ []) t.types, rest.typed);
        called = omega (arith, called, rest.called);
        by_address = λ a. omega (arith, by_address a, rest.by_address a);
        blocks_same = rest.blocks_same ∙ blocks;
      }

  tally_messages-Adds :
      (msgs : List FeedMessage) (t : Tally)
      → let u = tally_messages keccak public_key t msgs in
        (u.txs ≡ t.txs + length (all_txs msgs))
        × (sum u.types ≡ sum t.types + length (all_txs msgs))
        × (u.deploys + sum u.recipients ≡ t.deploys + sum t.recipients + length (all_txs msgs))
        × ((a : Bytes)
            → count_of a u.recipients ≡ count_of a t.recipients + sent_to a (all_txs msgs))
        × (u.blocks ≡ t.blocks + length msgs)
  unfolding tally_messages
  tally_messages-Adds [] t = (omega arith, omega arith, omega arith, λ a. omega arith, omega arith)
  tally_messages-Adds (msg ∷ msgs) t =
      let begun = record t {
        blocks = t.blocks + 1;
        from_parent = t.from_parent + (if from_parent_chain msg then 1 else 0);
      } in
      let block = tally_txs-Adds msg.txs begun in
      let (counted, typed, called, by_address, blocks) =
        tally_messages-Adds msgs (tally_txs keccak public_key begun msg.txs) in
      let both = length-append msg.txs (all_txs msgs) in
      (
        omega (arith, block.counted, counted, both),
        omega (arith, block.typed, typed, both),
        omega (arith, block.called, called, both),
        λ a.
            omega
              (arith, block.by_address a, by_address a, sent_to-append a msg.txs (all_txs msgs)),
        omega (arith, block.blocks_same, blocks),
      )

  -- The profile of a capture counts every transaction once: over any messages, the transactions and
  -- the types add up to those of all messages, which are as many as the benchmark loads; each was a
  -- deployment or is counted under the contract it calls; every contract has the count of the
  -- transactions sent to it, a contract that none calls the count 0; and each message is a block.
  pub tally_messages_lem :
      (msgs : List FeedMessage)
      → let t = tally_messages keccak public_key no_tally msgs in
        (t.txs ≡ length (load msgs))
        × (sum t.types ≡ t.txs)
        × (t.deploys + sum t.recipients ≡ t.txs)
        × ((a : Bytes) → count_of a t.recipients ≡ sent_to a (all_txs msgs))
        × (t.blocks ≡ length msgs)
  unfolding count_of
  tally_messages_lem msgs =
      let (counted, typed, called, by_address, blocks) = tally_messages-Adds msgs no_tally in
      (
        omega (arith, counted, length-load msgs),
        omega (arith, counted, typed),
        omega (arith, counted, called),
        λ a. omega (arith, by_address a),
        omega (arith, blocks),
      )
