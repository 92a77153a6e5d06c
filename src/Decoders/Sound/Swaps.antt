-- ===== src/Decoders/Sound/Swaps.antt =====
-- decoders/uniswap.py, decoders/pons.py, decoders/zerox.py and decoders/steps_router.py: the promise
-- of Decoders/Sound.
use robinhood_chain_sequence.Prelude.{
  ℕ, ◌-◌, ◌*◌, ◌≡◌, refl, arith, Bool, true, false, Option, none, some, List, [], ◌∷◌, ◌++◌,
  Outcome, Outcome-bind, returns, All, All-append, Bool-cases, inl, inr, ltb, ltb_false→le, length,
  length-take, length-drop, take, drop, ◌==◌, if◌then◌else◌,
}
use robinhood_chain_sequence.Bytes.{Bytes, bytes_eq}
use robinhood_chain_sequence.Intents.{Call, Intent, intent, swap}
use robinhood_chain_sequence.Abi.{zero_address, native, word_size}
use robinhood_chain_sequence.Abi.Malformed.{
  IsMalformed, AnyValue, Sized, Outcome-if, Outcome-collect, uint-Malformed, address-Malformed,
  token-Malformed, dynamic-Malformed, tuple_at-Malformed, tuple_array-Malformed,
  static_array-Malformed, bytes_array-Malformed,
}
use robinhood_chain_sequence.Decoders.Uniswap.{
  unless_native, v3_path_ends, swap_of, single, path_call, V2Layout, last_hop, token_unless,
  amount_in_of, v2_hops, v2, multicall,
}
use robinhood_chain_sequence.Decoders.Routers.{
  v4_pool_manager, buy_words, buy, settler_output, exec, swap_steps, steps_swap,
}
use robinhood_chain_sequence.Decoders.Sound.{IsCall, Sound, IsSound, leaf}

pub either-Sized :
    (b : Bool) (n : ℕ) (x y : Option Bytes) → Sized n x → Sized n y → Sized n (if b then x else y)
either-Sized true n x y hx hy = hx
either-Sized false n x y hx hy = hy

unless_native-Sized : (a : Bytes) → length a ≡ 20 → Sized 20 (unless_native a)
unfolding unless_native
unless_native-Sized a size = either-Sized (bytes_eq a native) 20 none (some a) tt size

-- The two ends of a path of 20 bytes or more.
pub v3_path_ends-Sized :
    (path : Bytes) → Sized 20 (v3_path_ends path).0 × Sized 20 (v3_path_ends path).1
unfolding v3_path_ends
v3_path_ends-Sized path = elim (Bool-cases (ltb (length path) 20)) [
  | inl short ↦ rw short (tt, tt)
  | inr long ↦
      let enough = ltb_false→le (length path) 20 long in
      rw long (
        unless_native-Sized (take 20 path) (omega (arith, length-take 20 path, enough)),
        unless_native-Sized (drop (length path - 20) path)
            (omega (arith, length-drop (length path - 20) path, enough)),
      )
]

-- A swap whose tokens and recipient have the sizes of addresses.
pub swap_of-Sound :
    (call : Call) (exact_in : Bool) (token_in token_out : Option Bytes) (first second : ℕ)
    (recipient : Option Bytes)
    → Sized 20 token_in
    → Sized 20 token_out
    → (IsCall call → Sized 20 recipient)
    → Sound call (swap_of call exact_in token_in token_out first second recipient)
swap_of-Sound call exact_in token_in token_out first second recipient h k r =
    leaf call _ refl refl (λ c. (tt, h, k, r c, tt))

pub single-IsSound : (r a b : ℕ) (exact_in : Bool) → IsSound (single r a b exact_in)
unfolding single
single-IsSound r a b exact_in = record {
  sound = λ again call depth keeps. Outcome-bind _ _ (uint-Malformed _ a) (λ first _.
      Outcome-bind _ _ (uint-Malformed _ b) (λ second _.
        Outcome-bind _ _ (token-Malformed _ 0) (λ token_in paid.
          Outcome-bind _ _ (token-Malformed _ 1) (λ token_out got.
            Outcome-bind _ _ (token-Malformed _ r) (λ recipient size.
              returns _ (swap_of-Sound call exact_in _ _ _ _ _ paid got (λ h. size), tt))))));
}

pub path_call-IsSound : (r a b : ℕ) (exact_in : Bool) → IsSound (path_call r a b exact_in)
unfolding path_call
path_call-IsSound r a b exact_in = record {
  sound = λ again call depth keeps. Outcome-bind _ _ (tuple_at-Malformed _ 0) (λ body _.
      Outcome-bind _ _ (dynamic-Malformed body 0) (λ path _.
        Outcome-bind _ _ (uint-Malformed body a) (λ first _.
          Outcome-bind _ _ (uint-Malformed body b) (λ second _.
            Outcome-bind _ _ (token-Malformed body r) (λ recipient size.
              let (x, y) = v3_path_ends path in
              let (hx, hy) = v3_path_ends-Sized path in
              returns _ (
                swap_of-Sound call exact_in _ _ _ _ _ (either-Sized exact_in 20 x y hx hy)
                    (either-Sized exact_in 20 y x hy hx) (λ h. size),
                tt,
              ))))));
}

token_unless-Malformed :
    (skip : Bool) (hop : Bytes) → Outcome IsMalformed (Sized 20) (token_unless skip hop)
unfolding token_unless
token_unless-Malformed true hop = returns none tt
token_unless-Malformed false hop = token-Malformed hop 0

amount_in_of-Malformed :
    (call : Call) (slot : Option ℕ) → Outcome IsMalformed AnyValue (amount_in_of call slot)
unfolding amount_in_of
amount_in_of-Malformed call none = returns _ tt
amount_in_of-Malformed call (some i) = uint-Malformed _ i

v2_hops-Outcome :
    (l : V2Layout) (call : Call) (hops : List Bytes)
    → Outcome IsMalformed (All (Sound call)) (v2_hops l call hops)
unfolding v2_hops
v2_hops-Outcome l call [] = returns [] tt
v2_hops-Outcome l call (hop ∷ hops) =
    Outcome-bind _ _ (token_unless-Malformed l.eth_in hop) (λ token_in paid.
      Outcome-bind _ _ (token_unless-Malformed l.eth_out (last_hop hop hops)) (λ token_out got.
        Outcome-bind _ _ (amount_in_of-Malformed call l.in_i) (λ amount_in _.
          Outcome-bind _ _ (uint-Malformed _ l.out_i) (λ amount_out _.
            Outcome-bind _ _ (token-Malformed _ l.to_i) (λ recipient size.
              returns _ (leaf call _ refl refl (λ h. (tt, paid, got, size, tt)), tt))))))

pub v2-IsSound : (l : V2Layout) → IsSound (v2 l)
unfolding v2
v2-IsSound l = record {
  sound = λ again call depth keeps.
      Outcome-bind _ _ (static_array-Malformed _ l.path_i 1)
        (λ hops _. v2_hops-Outcome l call hops);
}

-- A call of a multicall has the path and the actor of the multicall.
Sound-multicall :
    (call : Call) (blob : Bytes) (is : List Intent)
    → All (Sound (record call { calldata = blob })) is
    → All (Sound call) is
Sound-multicall call blob [] h = tt
Sound-multicall call blob (i ∷ is) (s, h) = (
  record {
    extends = s.extends;
    claims = s.claims;
    shaped = λ c. s.shaped (record { to = c.to; actor = c.actor; via = c.via });
  },
  Sound-multicall call blob is h,
)

pub multicall-IsSound : (slot : ℕ) → IsSound (multicall slot)
unfolding multicall
multicall-IsSound slot = record {
  sound = λ again call depth keeps. Outcome-bind _ _ (bytes_array-Malformed _ slot) (λ blobs _.
      Outcome-collect _ blobs (λ blob.
        returns _ (Sound-multicall call blob _ (keeps (record call { calldata = blob }) _))));
}

buy_words-Outcome :
    (call : Call) (d : Bytes) → Outcome IsMalformed (All (Sound call)) (buy_words call d)
unfolding buy_words
buy_words-Outcome call d = Outcome-bind _ _ (address-Malformed d 1) (λ manager _.
    Outcome-if (bytes_eq manager v4_pool_manager) _ _
      (λ ours. Outcome-bind _ _ (token-Malformed d 2) (λ token_out got.
        Outcome-bind _ _ (uint-Malformed d 4) (λ amount_out _.
          Outcome-bind _ _ (address-Malformed d 5) (λ recipient size.
            returns _ (leaf call _ refl refl (λ h. (tt, tt, got, size, tt)), tt)))))
      (λ other. returns [] tt))

pub buy-IsSound : IsSound buy
unfolding buy
buy-IsSound = record {
  sound = λ again call depth keeps.
      Outcome-if (length (drop 4 call.calldata) == 10 * word_size) _ _
        (λ whole. buy_words-Outcome call _) (λ other. returns [] tt);
}

-- An intent whose path is that of the call and one contract more.
via_one :
    (call : Call) (target : Bytes) (i : Intent)
    → length target ≡ 20
    → i.actor ≡ call.actor
    → i.via ≡ call.via ++ target ∷ []
    → Sized 20 i.payer × Sized 20 i.token_in × Sized 20 i.token_out × Sized 20 i.recipient
    → Sized 32 i.order_id
    → Sound call i
via_one call target i size actor via (payer, token_in, token_out, recipient) order_id = record {
  extends = (target ∷ [], via);
  claims = λ h. rw actor h;
  shaped = λ h. record {
    actor = rw actor h.actor;
    via = rw via (All-append (λ a. length a ≡ 20) call.via (target ∷ []) h.via (size, tt));
    payer = payer;
    token_in = token_in;
    token_out = token_out;
    recipient = recipient;
    order_id = order_id;
  };
}

-- What Settler says of the output replaces what is known of it.
settler_output-Outcome :
    (call : Call) (target : Bytes) (token_in : Option Bytes) (amount_in : ℕ) (s : Bytes)
    → length target ≡ 20
    → Sized 20 token_in
    → Outcome IsMalformed (Sound call) (
        settler_output
          (record (intent swap call.actor (call.via ++ target ∷ [])) {
            token_in = token_in;
            amount_in = some amount_in;
          })
          s)
unfolding settler_output
settler_output-Outcome call target token_in amount_in s size paid =
    Outcome-bind _ _ (address-Malformed s 0) (λ recipient named.
      Outcome-if (bytes_eq recipient zero_address) _ _
        (λ nobody. returns _ (via_one call target _ size refl refl (tt, paid, tt, tt) tt))
        (λ somebody. Outcome-bind _ _ (token-Malformed s 1) (λ token_out got.
          Outcome-bind _ _ (uint-Malformed s 2) (λ amount_out _.
            returns _ (via_one call target _ size refl refl (tt, paid, got, named) tt)))))

pub exec-IsSound : (settler : Bytes) → IsSound (exec settler)
unfolding exec
exec-IsSound settler = record {
  sound = λ again call depth keeps. Outcome-bind _ _ (address-Malformed _ 3) (λ target size.
      Outcome-bind _ _ (token-Malformed _ 1) (λ token_in paid.
        Outcome-bind _ _ (uint-Malformed _ 2) (λ amount_in _.
          Outcome-bind _ _ (dynamic-Malformed _ 4) (λ body _.
            Outcome-if (bytes_eq (take 4 body) settler) _ _
              (λ settled.
                Outcome-bind _ _
                  (settler_output-Outcome call target token_in amount_in (drop 4 body) size paid)
                  (λ i s. returns _ (s, tt)))
              (λ other.
                returns _ (via_one call target _ size refl refl (tt, paid, tt, tt) tt, tt))))));
}

swap_steps-Outcome :
    (call : Call) (steps : List Bytes)
    → Outcome IsMalformed (All (Sound call)) (swap_steps call steps)
unfolding swap_steps
swap_steps-Outcome call [] = returns [] tt
swap_steps-Outcome call (step ∷ steps) = Outcome-bind _ _ (token-Malformed step 1) (λ token_in paid.
    Outcome-bind _ _ (token-Malformed (last_hop step steps) 2) (λ token_out got.
      Outcome-bind _ _ (uint-Malformed _ 2) (λ amount_in _.
        Outcome-bind _ _ (uint-Malformed _ 3) (λ amount_out _.
          Outcome-bind _ _ (token-Malformed _ 1) (λ recipient size.
            returns _ (leaf call _ refl refl (λ h. (tt, paid, got, size, tt)), tt))))))

pub steps_swap-IsSound : IsSound steps_swap
unfolding steps_swap
steps_swap-IsSound = record {
  sound = λ again call depth keeps.
      Outcome-bind _ _ (tuple_array-Malformed _ 0) (λ steps _. swap_steps-Outcome call steps);
}
