-- ===== src/Cli.antt =====
-- cli.py: `Filter`, and which messages `watch` shows of those that the feed yields. What it prints is
-- not modelled.
pub mod Keep
pub mod Examples
use robinhood_chain_sequence.Prelude.{
  ℕ, ◌+◌, Bool, true, false, Option, none, some, List, [], ◌∷◌, ◌&&◌, ◌||◌, not, Result, ok, err,
  ◌>>=◌, traverse, ◌==◌, if◌then◌else◌, length,
}
use robinhood_chain_sequence.Bytes.{Bytes, bytes_eq}
use robinhood_chain_sequence.Hex.{Text, text, addr, sel}
use robinhood_chain_sequence.Tx.{Tx, sender_bytes}
use robinhood_chain_sequence.Frame.{FeedMessage}
use robinhood_chain_sequence.Verify.{member}
use robinhood_chain_sequence.Intents.{Decoder, Intent, decode_intents}
use robinhood_chain_sequence.Session.{mainnet_feed, testnet_feed}

-- DEFAULT_RELAY
abbrev pub default_relay : Text
default_relay = text "ws://127.0.0.1:9642"

-- FEEDS.get(value, value)
unfoldable pub resolve_feed : Text → Text
resolve_feed value =
    if bytes_eq value (text "mainnet")
    then mainnet_feed
    else if bytes_eq value (text "testnet")
    then testnet_feed
    else if bytes_eq value (text "relay")
    then default_relay
    else value

-- Where `watch` refuses to start: --verify against the testnet.
unfoldable pub refuses : Text → Bool → Bool
unfolding resolve_feed
refuses feed verify = verify && bytes_eq (resolve_feed feed) testnet_feed

-- The options of the command line; one that is not given is empty.
pub record Args : Type 0 where
  pub to : List Text
  pub selector : List Text
  pub sender : List Text
  pub actor : List Text

pub record Filter : Type 0 where
  pub to : Option (List Bytes)
  pub selector : Option (List Bytes)
  pub sender : Option (List Bytes)
  pub actor : Option (List Bytes)

-- {read(a) for a in values} if values else None
unfoldable pub set_of : (Text → Result Bytes) → List Text → Result (Option (List Bytes))
set_of read [] = ok none
set_of read (value ∷ values) = traverse read (value ∷ values) >>= λ set. ok (some set)

-- Filter.__init__
unfoldable pub make_filter : Args → Result Filter
unfolding set_of
make_filter args = do
  to ← set_of addr args.to
  selector ← set_of sel args.selector
  sender ← set_of addr args.sender
  actor ← set_of addr args.actor
  ok (record { to = to; selector = selector; sender = sender; actor = actor })

abbrev pub is_some : Option (List Bytes) → Bool
is_some none = false
is_some (some set) = true

-- bool(self.x)
abbrev pub is_filled : Option (List Bytes) → Bool
is_filled none = false
is_filled (some set) = not (length set == 0)

unfoldable pub wants_sender : Filter → Bool
wants_sender f = is_some f.sender || is_some f.actor

unfoldable pub active : Filter → Bool
active f = is_filled f.to || is_filled f.selector || is_filled f.sender || is_filled f.actor

-- value in set; None is in no set of these.
unfoldable pub contains : List Bytes → Option Bytes → Bool
unfolding member
contains set none = false
contains set (some value) = member value set

-- self.x is not None and value not in self.x
unfoldable pub excludes : Option (List Bytes) → Option Bytes → Bool
unfolding contains
excludes none value = false
excludes (some set) value = not (contains set value)

abbrev pub is_empty : List Intent → Bool
is_empty [] = true
is_empty (i ∷ intents) = false

abbrev pub is_none : Option Bytes → Bool
is_none none = true
is_none (some actor) = false

-- any(i.actor is None for i in intents)
unfoldable pub any_unclaimed : List Intent → Bool
any_unclaimed [] = false
any_unclaimed (i ∷ intents) = is_none i.actor || any_unclaimed intents

-- `followed if i.actor is None else i.actor in self.actor`
unfoldable pub is_mine : List Bytes → Bool → Option Bytes → Bool
unfolding contains
is_mine actors followed none = followed
is_mine actors followed (some actor) = contains actors (some actor)

-- The intents that pass a test, in their order.
abbrev pub keep_if : (Intent → Bool) → List Intent → List Intent
keep_if test [] = []
keep_if test (i ∷ intents) = let rest = keep_if test intents in if test i then i ∷ rest else rest

-- `_actors_intents`, for what `tx.sender_bytes` gives.
unfoldable pub actors_intents : List Bytes → Option Bytes → List Intent → Option (List Intent)
unfolding any_unclaimed contains is_mine
actors_intents actors sender intents =
    let unclaimed = is_empty intents || any_unclaimed intents in
    let followed = unclaimed && contains actors sender in
    let mine = keep_if (λ i. is_mine actors followed i.actor) intents in
    if not (is_empty mine) || (is_empty intents && followed) then some mine else none

-- `if self.actor is not None`
unfoldable pub followed_intents :
    Option (List Bytes) → Option Bytes → List Intent → Option (List Intent)
unfolding actors_intents
followed_intents none sender intents = some intents
followed_intents (some actors) sender intents = actors_intents actors sender intents

-- `keep` behind the decoding of the calldata.
unfoldable pub keep_intents : Filter → Option Bytes → Option (List Intent) → Option (List Intent)
unfolding excludes
keep_intents f sender none = none
keep_intents f sender (some intents) = if excludes f.sender sender then none else some intents

module _ (keccak : Bytes → Bytes) (public_key : Bytes → Bytes → Option Bytes)
    (find : Bytes → Option Decoder) where
  unfoldable pub keep : Filter → Tx → Option (List Intent)
  unfolding followed_intents keep_intents
  keep f tx =
      if excludes f.to tx.to_bytes
      then none
      else if excludes f.selector tx.selector
      then none
      else let sender = (sender_bytes keccak public_key tx).0 in
        keep_intents f sender (followed_intents f.actor sender (decode_intents find tx))

  -- [(t, i) for t, i in kept if i is not None]
  unfoldable pub kept : Filter → List Tx → List (Tx × List Intent)
  unfolding keep
  kept f [] = []
  kept f (tx ∷ txs) =
      let rest = kept f txs in
      elim (keep f tx) [ none ↦ rest | some intents ↦ (tx, intents) ∷ rest ]

  -- The loop of `watch`: how many transactions were shown, and the messages that were.
  unfoldable pub watch :
      Filter → List FeedMessage → ℕ × List (FeedMessage × List (Tx × List Intent))
  watch f [] = (0, [])
  watch f (msg ∷ messages) =
      let txs = kept f msg.txs in
      let (shown, rest) = watch f messages in
      if length txs == 0 && active f then (shown, rest) else (length txs + shown, (msg, txs) ∷ rest)
