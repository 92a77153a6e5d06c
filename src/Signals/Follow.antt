-- ===== src/Signals/Follow.antt =====
-- The signals of examples/copy_trade_signals.py against the filter of cli.py, `rhfeed watch --actor`.
use robinhood_chain_sequence.Prelude.{
  ◌≡◌, refl, sym, ap, ◌∙◌, arith, Bool, true, false, Option, none, some, List, [], ◌∷◌, ◌&&◌, ◌||◌,
  not, All, if◌then◌else◌,
}
use robinhood_chain_sequence.Bytes.{Bytes}
use robinhood_chain_sequence.Tx.{Tx, sender_bytes}
use robinhood_chain_sequence.Intents.{Decoder, Intent, decode_intents}
use robinhood_chain_sequence.Cli.{
  Filter, contains, excludes, is_empty, is_none, any_unclaimed, is_mine, keep_if, actors_intents,
  followed_intents, keep_intents, keep,
}
use robinhood_chain_sequence.Signals.{is_trade, wallet_of, is_followed, followed}

keep_if-same :
    (p q : Intent → Bool) (is : List Intent) → All (λ i. p i ≡ q i) is → keep_if p is ≡ keep_if q is
keep_if-same p q [] h = refl
keep_if-same p q (i ∷ is) (e, h) = rw (e, keep_if-same p q is h) refl

keep_if-keep_if :
    (p q : Intent → Bool) (is : List Intent)
    → keep_if p (keep_if q is) ≡ keep_if (λ i. p i && q i) is
keep_if-keep_if p q [] = refl
keep_if-keep_if p q (i ∷ is) = ground (arith, keep_if-keep_if p q is)

-- The wallet of an intent is followed, by both tests, if an intent without an actor is looked up.
is_mine-wallet_of :
    (follow : List Bytes) (sender : Option Bytes) (looked : Bool) (actor : Option Bytes)
    → (is_none actor ≡ true → looked ≡ contains follow sender)
    → is_mine follow looked actor ≡ contains follow (wallet_of actor sender)
unfolding is_mine wallet_of
is_mine-wallet_of follow sender looked none h = h refl
is_mine-wallet_of follow sender looked (some actor) h = refl

is_mine-wallets :
    (follow : List Bytes) (sender : Option Bytes) (looked : Bool) (is : List Intent)
    → (any_unclaimed is ≡ true → looked ≡ contains follow sender)
    → All (λ i. (is_trade i.kind && is_mine follow looked i.actor) ≡ is_followed follow sender i) is
unfolding any_unclaimed is_followed
is_mine-wallets follow sender looked [] h = tt
is_mine-wallets follow sender looked (i ∷ is) h = (
  ap (λ b. is_trade i.kind && b)
      (is_mine-wallet_of follow sender looked i.actor (λ unclaimed. h (ground (arith, unclaimed)))),
  is_mine-wallets follow sender looked is (λ later. h (ground (arith, later))),
)

-- The intents that are shown, of a transaction that is shown or not.
abbrev pub shown : Option (List Intent) → List Intent
shown none = []
shown (some is) = is

shown_if :
    (mine : List Intent) (otherwise : Bool)
    → shown (if not (is_empty mine) || otherwise then some mine else none) ≡ mine
shown_if [] true = refl
shown_if [] false = refl
shown_if (i ∷ mine) otherwise = refl

-- What `_actors_intents` shows: the intents of the wallets, whether the list is shown or empty.
shown-actors_intents :
    (follow : List Bytes) (sender : Option Bytes) (is : List Intent)
    → keep_if (λ i. is_trade i.kind) (shown (actors_intents follow sender is))
      ≡ keep_if (is_followed follow sender) is
unfolding actors_intents
shown-actors_intents follow sender is =
    let unclaimed = is_empty is || any_unclaimed is in
    let looked = unclaimed && contains follow sender in
    let mine = keep_if (λ i. is_mine follow looked i.actor) is in
    let agree : any_unclaimed is ≡ true → looked ≡ contains follow sender =
      λ h. ground (arith, h) in
    let kept = shown_if mine (is_empty is && looked) in
    ap (keep_if (λ i. is_trade i.kind)) kept
    ∙ keep_if-keep_if (λ i. is_trade i.kind) (λ i. is_mine follow looked i.actor) is
    ∙ keep_if-same _ _ is (is_mine-wallets follow sender looked is agree)

-- A filter for wallets and nothing else.
abbrev pub by_actor : List Bytes → Filter
by_actor follow = record { to = none; selector = none; sender = none; actor = some follow }

keep_intents-by_actor :
    (follow : List Bytes) (sender : Option Bytes) (found : Option (List Intent))
    → keep_intents (by_actor follow) sender found ≡ found
unfolding keep_intents excludes
keep_intents-by_actor follow sender none = refl
keep_intents-by_actor follow sender (some is) = refl

module _ (keccak : Bytes → Bytes) (public_key : Bytes → Bytes → Option Bytes)
    (find : Bytes → Option Decoder) (watch_contracts follow : List Bytes) where
  -- `copy_trade_signals.py` follows the same wallets as `rhfeed watch --actor`: of any transaction, the
  -- intents that it signals are the trades among the intents that a filter on the same wallets shows,
  -- in the same order - where the filter looks once for a signer who is followed, and the script at
  -- every intent that names no actor.
  pub followed-keep :
      (tx : Tx)
      → followed keccak public_key find watch_contracts follow tx
        ≡ keep_if (λ i. is_trade i.kind) (shown (keep keccak public_key find (by_actor follow) tx))
  unfolding followed keep followed_intents excludes
  followed-keep tx =
      let sender = (sender_bytes keccak public_key tx).0 in
      let found = actors_intents follow sender (decode_intents find tx) in
      sym (
        ap (λ o. keep_if (λ i. is_trade i.kind) (shown o))
          (keep_intents-by_actor follow sender found)
        ∙ shown-actors_intents follow sender (decode_intents find tx))
