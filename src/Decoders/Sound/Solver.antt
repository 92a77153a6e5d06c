-- ===== src/Decoders/Sound/Solver.antt =====
-- decoders/relay.py: the promise of Decoders/Sound.
use robinhood_chain_sequence.Prelude.{
  ℕ, ◌+◌, ◌*◌, ◌/◌, refl, sym, arith, Bool, true, false, Option, none, some, List, [], ◌∷◌, ◌++◌,
  ◌||◌, ok, Outcome, Outcome-bind, returns, All, All-append, Bool-cases, inl, inr, length,
  length-slice, take, drop, ◌==◌, ==_iff, if◌then◌else◌, append-nil,
}
use robinhood_chain_sequence.Bytes.{Bytes, bytes_eq}
use robinhood_chain_sequence.Intents.{Call, Intent, IntentKind, swap, inner}
use robinhood_chain_sequence.Abi.Malformed.{
  IsMalformed, Sized, Outcome-if, uint-Malformed, address-Malformed, dynamic-Malformed,
  tuple_at-Malformed, tuple_array-Malformed, static_array-Malformed,
}
use robinhood_chain_sequence.Decoders.Relay.{
  executor_sweep, executor_deposit, or_address, first_address, first_token, walk, trailing_word,
  swap_out, fill_permitted, fill, sell_tokens, sell,
}
use robinhood_chain_sequence.Decoders.Sound.{IsCall, Sound, IsSound, Keeps, leaf, All-inner}

or_address-Sized : (a b : Option Bytes) → Sized 20 a → Sized 20 b → Sized 20 (or_address a b)
or_address-Sized none b ha hb = hb
or_address-Sized (some a) b ha hb = ha

first_address-Malformed : (ts : List Bytes) → Outcome IsMalformed (Sized 20) (first_address ts)
unfolding first_address
first_address-Malformed [] = returns none tt
first_address-Malformed (t ∷ ts) =
    Outcome-bind _ _ (address-Malformed t 0) (λ a size. returns (some a) size)

first_token-Malformed : (d : Bytes) → Outcome IsMalformed (Sized 20) (first_token d)
unfolding first_token
first_token-Malformed d =
    Outcome-bind _ _ (static_array-Malformed _ 0 1) (λ ts _. first_address-Malformed ts)

trailing_word-Malformed :
    (d : Bytes) (slot : ℕ) → Outcome IsMalformed (Sized 32) (trailing_word d slot)
unfolding trailing_word
trailing_word-Malformed d slot = Outcome-bind _ _ (uint-Malformed d slot) (λ off _.
    Outcome-bind _ _ (uint-Malformed (drop off d) 0) (λ n _. returns _ (
      let end = off + 32 + (n + 31) / 32 * 32 in
      elim (Bool-cases (length d == end + 32)) [
        | inl whole ↦
            let ends = (==_iff (length d) (end + 32)).0 whole in
            rw whole (omega (arith, length-slice end (end + 32) d (omega (arith, ends))))
        | inr other ↦ rw other tt
      ])))

-- What the walk gives: sound intents, and a token of 20 bytes.
abbrev Walked : Call → List Intent × Option Bytes → Type 0
Walked call (found, named) = All (Sound call) found × Sized 20 named

-- An executor's call gives no intents of its own.
All-if :
    (call : Call) (b : Bool) (found inside : List Intent)
    → All (Sound call) found
    → All (Sound call) inside
    → All (Sound call) (if b then found else found ++ inside)
All-if call true found inside sound kept = sound
All-if call false found inside sound kept = All-append (Sound call) found inside sound kept

-- One round of `swap_out`.
abbrev chosen :
    IntentKind → Option Bytes → Option ℕ → Option Bytes × Option ℕ → Option Bytes × Option ℕ
chosen kind out amount rest = elim kind [
  | swap ↦ elim out [ none ↦ rest | some out ↦ (some out, amount) ]
  | _ ↦ rest
]

chosen-Sized :
    (kind : IntentKind) (out : Option Bytes) (amount : Option ℕ) (rest : Option Bytes × Option ℕ)
    → Sized 20 out
    → Sized 20 rest.0
    → Sized 20 (chosen kind out amount rest).0
chosen-Sized swap none amount rest h k = k
chosen-Sized swap (some out) amount rest h k = h
chosen-Sized IntentKind.transfer out amount rest h k = k
chosen-Sized IntentKind.approve out amount rest h k = k
chosen-Sized IntentKind.relay_fill out amount rest h k = k
chosen-Sized IntentKind.relay_sell out amount rest h k = k

module _ (again : Call → ℕ → List Intent) (call : Call) (depth : ℕ) (keeps : Keeps again) where
  walk-Outcome :
      (found : List Intent) (named : Option Bytes) (calls : List Bytes)
      → All (Sound call) found
      → Sized 20 named
      → Outcome IsMalformed (Walked call) (walk again call depth found named calls)
  unfolding walk
  walk-Outcome found named [] sound size = returns _ (sound, size)
  walk-Outcome found named (c ∷ calls) sound size =
      Outcome-bind _ _ (address-Malformed c 0) (λ target wide.
        Outcome-bind _ _ (uint-Malformed c 2) (λ value _.
          Outcome-bind _ _ (dynamic-Malformed c 3) (λ bs _.
            let is_executor =
              bytes_eq (take 4 bs) executor_sweep || bytes_eq (take 4 bs) executor_deposit in
            let inside = again (inner call (some target) value bs none) (depth + 1) in
            let kept = All-inner call target value bs none wide tt inside (keeps _ (depth + 1)) in
            Outcome-bind _ _
              (Outcome-if is_executor (first_token bs) (ok none) (λ _. first_token-Malformed bs)
                (λ _. returns none tt))
              (λ token asset.
                walk-Outcome (if is_executor then found else found ++ inside)
                  (or_address token named) calls (All-if call is_executor found inside sound kept)
                  (or_address-Sized token named asset size)))))

  swap_out-Sized :
      (found : List Intent) → IsCall call → All (Sound call) found → Sized 20 (swap_out found).0
  unfolding swap_out
  swap_out-Sized [] h sound = tt
  swap_out-Sized (i ∷ found) h (s, sound) =
      chosen-Sized i.kind i.token_out i.amount_out (swap_out found) (s.shaped h).token_out
        (swap_out-Sized found h sound)

  fill_permitted-Outcome :
      (permitted : List Bytes)
      → Outcome IsMalformed (All (Sound call)) (fill_permitted again call depth permitted)
  unfolding fill_permitted
  fill_permitted-Outcome [] = returns [] tt
  fill_permitted-Outcome (p ∷ permitted) = Outcome-bind _ _ (address-Malformed _ 3) (λ wallet owns.
      Outcome-bind _ _ (tuple_array-Malformed _ 2) (λ calls _.
        Outcome-bind _ _ (walk-Outcome [] none calls tt tt) (λ (found, executor) (sound, size).
          Outcome-bind _ _ (address-Malformed _ 0) (λ payer pays.
            Outcome-bind _ _ (address-Malformed p 0) (λ token_in spent.
              Outcome-bind _ _ (uint-Malformed p 1) (λ amount_in _.
                Outcome-bind _ _ (trailing_word-Malformed _ 6) (λ order_id word. returns _ (
                  record {
                    extends = ([], sym (append-nil call.via));
                    claims = λ h. refl;
                    shaped = λ h. record {
                      actor = owns;
                      via = h.via;
                      payer = pays;
                      token_in = spent;
                      token_out = or_address-Sized executor _ size (swap_out-Sized found h sound);
                      recipient = owns;
                      order_id = word;
                    };
                  },
                  tt,
                ))))))))

  sell_tokens-Outcome :
      (tokens amounts : List Bytes)
      → Outcome IsMalformed (All (Sound call)) (sell_tokens again call depth tokens amounts)
  unfolding sell_tokens
  sell_tokens-Outcome (token ∷ tokens) (amount ∷ amounts) =
      Outcome-bind _ _ (tuple_array-Malformed _ 2) (λ calls _.
        Outcome-bind _ _ (walk-Outcome [] none calls tt tt) (λ (found, executor) (sound, size).
          Outcome-bind _ _ (address-Malformed token 0) (λ token_in spent.
            Outcome-bind _ _ (uint-Malformed amount 0) (λ amount_in _.
              Outcome-bind _ _ (trailing_word-Malformed _ 5) (λ order_id word. returns _ (
                leaf call _ refl refl (λ h. (
                  tt,
                  spent,
                  or_address-Sized executor _ size (swap_out-Sized found h sound),
                  tt,
                  word,
                )),
                tt,
              ))))))
  sell_tokens-Outcome [] amounts = returns [] tt
  sell_tokens-Outcome (token ∷ tokens) [] = returns [] tt

pub relay-IsSound : IsSound fill × IsSound sell
unfolding fill sell
relay-IsSound = (
  record {
    sound = λ again call depth keeps. Outcome-bind _ _ (tuple_at-Malformed _ 1) (λ permit _.
        Outcome-bind _ _ (static_array-Malformed permit 0 2)
          (λ permitted _. fill_permitted-Outcome again call depth keeps permitted));
  },
  record {
    sound = λ again call depth keeps. Outcome-bind _ _ (static_array-Malformed _ 0 1) (λ tokens _.
        Outcome-bind _ _ (static_array-Malformed _ 1 1)
          (λ amounts _. sell_tokens-Outcome again call depth keeps tokens amounts));
  },
)
