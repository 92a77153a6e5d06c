-- ===== src/Cli/Keep.antt =====
-- What the filters keep.
use robinhood_chain_sequence.Prelude.{
  ℕ, ◌+◌, ◌<◌, ◌≡◌, ◌∙◌, refl, ap, inl, inr, arith, Bool, Bool-cases, true, false, Option, none,
  some, List, [], ◌∷◌, ◌&&◌, ◌||◌, not, Result, ok, ◌>>=◌, >>=-eq-ok, Outcome, AnyError, returns,
  Outcome-eq-ok, >>=-Outcome, traverse, All, ◌==◌, if◌then◌else◌, length,
}
use robinhood_chain_sequence.Bytes.{Bytes}
use robinhood_chain_sequence.Hex.{Text, addr, sel}
use robinhood_chain_sequence.Tx.{Tx, sender_bytes}
use robinhood_chain_sequence.Frame.{FeedMessage}
use robinhood_chain_sequence.Intents.{Decoder, Intent, decode_intents}
use robinhood_chain_sequence.Cli.{
  Args, Filter, set_of, make_filter, is_filled, active, contains, excludes, is_empty, is_none,
  any_unclaimed, is_mine, keep_if, actors_intents, followed_intents, keep_intents, keep, kept,
  watch,
}

-- Whose intent it is: the actor that the calldata claims, or else the sender.
abbrev pub owner : Option Bytes → Option Bytes → Option Bytes
owner sender none = sender
owner sender (some actor) = some actor

-- The intents of the followed wallets.
abbrev pub owned : List Bytes → Option Bytes → List Intent → List Intent
owned actors sender = keep_if (λ i. contains actors (owner sender i.actor))

keep_if-same :
    (p q : Intent → Bool) (intents : List Intent)
    → All (λ i. p i ≡ q i) intents
    → keep_if p intents ≡ keep_if q intents
keep_if-same p q [] h = refl
keep_if-same p q (i ∷ intents) (e, h) = rw (e, keep_if-same p q intents h) refl

is_mine-owner :
    (actors : List Bytes) (sender actor : Option Bytes) (u : Bool)
    → (is_none actor ≡ true → u ≡ true)
    → is_mine actors (u && contains actors sender) actor ≡ contains actors (owner sender actor)
unfolding is_mine
is_mine-owner actors sender none u h = rw (h refl) refl
is_mine-owner actors sender (some actor) u h = refl

-- An intent that claims no actor is one for which the sender was asked.
claimed :
    (actors : List Bytes) (sender : Option Bytes) (u : Bool) (intents : List Intent)
    → (any_unclaimed intents ≡ true → u ≡ true)
    → All
        (λ i.
          is_mine actors (u && contains actors sender) i.actor
          ≡ contains actors (owner sender i.actor))
        intents
unfolding any_unclaimed
claimed actors sender u [] h = tt
claimed actors sender u (i ∷ intents) h = (
  is_mine-owner actors sender i.actor u (λ e. h (ground (arith, e))),
  claimed actors sender u intents (λ e. h (ground (arith, e))),
)

-- The followed wallets' intents, where there are any or where nothing was decoded of a call that a
-- followed wallet sent.
abbrev pub of_actor : Option (List Bytes) → Option Bytes → List Intent → Option (List Intent)
of_actor none sender intents = some intents
of_actor (some actors) sender intents =
    let mine = owned actors sender intents in
    if not (is_empty mine) || (is_empty intents && contains actors sender) then some mine else none

-- Asking for the sender only where some intent names no actor changes nothing: the intents that are
-- kept are those whose owner, the actor that is named or else the sender, is followed.
actors_intents-owned :
    (actors : List Bytes) (sender : Option Bytes) (intents : List Intent)
    → actors_intents actors sender intents ≡ of_actor (some actors) sender intents
unfolding actors_intents
actors_intents-owned actors sender [] = refl
actors_intents-owned actors sender (i ∷ intents) =
    let same =
      keep_if-same
        (λ j. is_mine actors (any_unclaimed (i ∷ intents) && contains actors sender) j.actor)
        (λ j. contains actors (owner sender j.actor)) (i ∷ intents)
        (claimed actors sender (any_unclaimed (i ∷ intents)) (i ∷ intents) (λ e. e)) in
    rw same refl

followed_intents_lem :
    (actors : Option (List Bytes)) (sender : Option Bytes) (intents : List Intent)
    → followed_intents actors sender intents ≡ of_actor actors sender intents
unfolding followed_intents
followed_intents_lem none sender intents = refl
followed_intents_lem (some actors) sender intents = actors_intents-owned actors sender intents

keep_intents_lem :
    (f : Filter) (sender : Option Bytes) (o : Option (List Intent))
    → keep_intents f sender o ≡ (if excludes f.sender sender then none else o)
unfolding keep_intents
keep_intents_lem f sender none = ground arith
keep_intents_lem f sender (some intents) = refl

nested_if :
    (a b c : Bool) (o : Option (List Intent))
    → (if a then none else if b then none else if c then none else o)
      ≡ (if a || b || c then none else o)
nested_if a b c o = ground arith

set_of_given :
    (read : Text → Result Bytes) (values : List Text) (o : Option (List Bytes))
    → set_of read values ≡ ok o
    → is_filled o ≡ false
    → o ≡ none
unfolding set_of
set_of_given read [] o h blank = cc
set_of_given read (value ∷ values) o h blank =
    let (set, all, h1) = >>=-eq-ok (traverse read (value ∷ values)) (λ set. ok (some set)) h in
    let (first, r1, h2) =
      >>=-eq-ok (read value) (λ y. traverse read values >>= λ ys. ok (y ∷ ys)) all in
    let (rest, r2, h3) = >>=-eq-ok (traverse read values) (λ ys. ok (first ∷ ys)) h2 in
    let there : o ≡ some (first ∷ rest) = cc in
    let filled : is_filled (some (first ∷ rest)) ≡ true = ground arith in
    absurd (cc (ap is_filled there))

or_false :
    (a b c d : Bool)
    → a || b || c || d ≡ false
    → (a ≡ false) × (b ≡ false) × (c ≡ false) × (d ≡ false)
or_false a b c d h = ground arith

-- Only an option that was not given leaves its filter without a value.
abbrev Unset : Filter → Type 0
Unset f =
    active f ≡ false → (f.to ≡ none) × (f.selector ≡ none) × (f.sender ≡ none) × (f.actor ≡ none)

make_filter-Outcome : (args : Args) → Outcome AnyError Unset (make_filter args)
unfolding make_filter active
make_filter-Outcome args = >>=-Outcome (set_of addr args.to) _ (λ to h1.
    >>=-Outcome (set_of sel args.selector) _ (λ selector h2.
      >>=-Outcome (set_of addr args.sender) _ (λ sender h3.
        >>=-Outcome (set_of addr args.actor) _ (λ actor h4. returns _ (λ idle.
          let (b1, b2, b3, b4) =
            or_false (is_filled to) (is_filled selector) (is_filled sender) (is_filled actor)
              idle in
          (
            set_of_given addr args.to to h1 b1,
            set_of_given sel args.selector selector h2 b2,
            set_of_given addr args.sender sender h3 b3,
            set_of_given addr args.actor actor h4 b4,
          ))))))

-- The transactions in the messages that are shown.
abbrev pub total : List (FeedMessage × List (Tx × List Intent)) → ℕ
total [] = 0
total ((msg, txs) ∷ rest) = length txs + total rest

abbrev pub HasMatch : FeedMessage × List (Tx × List Intent) → Type 0
HasMatch (msg, txs) = 0 < length txs

module _ (keccak : Bytes → Bytes) (public_key : Bytes → Bytes → Option Bytes)
    (find : Bytes → Option Decoder) where
  abbrev sender_of : Tx → Option Bytes
  sender_of tx = (sender_bytes keccak public_key tx).0

  -- A transaction is kept when no filter excludes it, whatever the order in which they are applied:
  -- its address, its selector and its sender are among those asked for, where any are. It is kept
  -- with the intents of the followed actors, or with all of them where none are followed.
  pub keep_lem :
      (f : Filter) (tx : Tx)
      → keep keccak public_key find f tx ≡ (
          if excludes f.to tx.to_bytes
            || excludes f.selector tx.selector
            || excludes f.sender (sender_of tx)
          then none
          else of_actor f.actor (sender_of tx) (decode_intents find tx))
  unfolding keep
  keep_lem f tx =
      let sender : Option Bytes = sender_of tx in
      let decoded : List Intent = decode_intents find tx in
      let last = keep_intents_lem f sender (of_actor f.actor sender decoded) in
      let chosen = followed_intents_lem f.actor sender decoded in
      rw (chosen, last)
        (nested_if (excludes f.to tx.to_bytes) (excludes f.selector tx.selector)
          (excludes f.sender sender) (of_actor f.actor sender decoded))

  -- With no filter on the command line, every transaction is kept with all of its intents.
  keep-make_filter :
      (args : Args) (f : Filter) (tx : Tx)
      → make_filter args ≡ ok f
      → active f ≡ false
      → keep keccak public_key find f tx ≡ some (decode_intents find tx)
  unfolding excludes
  keep-make_filter args f tx made idle =
      let (e1, e2, e3, e4) =
        Outcome-eq-ok (make_filter args) f (make_filter-Outcome args) made idle in
      keep_lem f tx ∙ rw (e1, e2, e3, e4) refl

  -- The count that `watch` ends with is that of the transactions in the messages that it showed.
  watch-total :
      (f : Filter) (messages : List FeedMessage)
      → (watch keccak public_key find f messages).0
        ≡ total (watch keccak public_key find f messages).1
  unfolding watch
  watch-total f [] = refl
  watch-total f (msg ∷ messages) =
      let rest = watch-total f messages in
      elim (Bool-cases (length (kept keccak public_key find f msg.txs) == 0 && active f)) [
        | inl skipped ↦ rw skipped rest
        | inr shown ↦ rw shown (omega (arith, rest))
      ]

  matches :
      (f : Filter) (messages : List FeedMessage)
      → active f ≡ true
      → All HasMatch (watch keccak public_key find f messages).1
  unfolding watch
  matches f [] filtered = tt
  matches f (msg ∷ messages) filtered =
      let rest = matches f messages filtered in
      elim (Bool-cases (length (kept keccak public_key find f msg.txs) == 0)) [
        | inl none_kept ↦ rw (none_kept, filtered) rest
        | inr some_kept ↦ rw some_kept (ground arith, rest)
      ]

  -- The count that `watch` ends with is that of the transactions in the messages that it showed, and
  -- under a filter each of those has one at least.
  watch_lem :
      (f : Filter) (messages : List FeedMessage)
      → active f ≡ true
      → ((watch keccak public_key find f messages).0
          ≡ total (watch keccak public_key find f messages).1)
        × All HasMatch (watch keccak public_key find f messages).1
  watch_lem f messages filtered = (watch-total f messages, matches f messages filtered)
