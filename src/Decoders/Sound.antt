-- ===== src/Decoders/Sound.antt =====
-- What every decoder promises of the intents that it returns, and of what it raises; the decoders of
-- decoders/erc20.py and decoders/erc4337.py.
pub mod Swaps
pub mod Commands
pub mod Solver
pub mod Table
use robinhood_chain_sequence.Prelude.{
  ℕ, ◌+◌, ◌≡◌, refl, sym, ap, ◌∙◌, Bool, true, false, Option, none, some, List, [], ◌∷◌, ◌++◌,
  append_assoc, append-nil, malformed, Outcome, Outcome-bind, returns, raises, All, All-append,
  length, ◌&&◌, ◌==◌,
}
use robinhood_chain_sequence.Bytes.{Bytes}
use robinhood_chain_sequence.Intents.{Call, Intent, Decoder, inner, via_of}
use robinhood_chain_sequence.Abi.Malformed.{
  IsMalformed, Sized, Outcome-if, Outcome-collect, uint-Malformed, address-Malformed,
  dynamic-Malformed, tuple_array-Malformed, static_array-Malformed, bytes_array-Malformed,
}
use robinhood_chain_sequence.Decoders.Erc20
use robinhood_chain_sequence.Decoders.Erc4337

abbrev pub is_claimed : Option Bytes → Bool
is_claimed none = false
is_claimed (some a) = true

-- The addresses of a call have 20 bytes.
pub record IsCall (call : Call) : Type 0 where
  pub to : Sized 20 call.to
  pub actor : Sized 20 call.actor
  pub via : All (λ a. length a ≡ 20) call.via

-- The addresses of an intent have 20 bytes, and its order id has 32.
pub record Shaped (i : Intent) : Type 0 where
  pub actor : Sized 20 i.actor
  pub via : All (λ a. length a ≡ 20) i.via
  pub payer : Sized 20 i.payer
  pub token_in : Sized 20 i.token_in
  pub token_out : Sized 20 i.token_out
  pub recipient : Sized 20 i.recipient
  pub order_id : Sized 32 i.order_id

-- What a call promises of an intent inside it: the path of the call is the start of the intent's, an
-- actor that the call names is not forgotten, and addresses come from words of addresses.
pub record Sound (call : Call) (i : Intent) : Type 0 where
  pub extends : (rest : List Bytes) × (i.via ≡ call.via ++ rest)
  pub claims : is_claimed call.actor ≡ true → is_claimed i.actor ≡ true
  pub shaped : IsCall call → Shaped i

-- A dispatch that keeps the promise.
abbrev pub Keeps : (Call → ℕ → List Intent) → Type 0
Keeps again = (c : Call) (n : ℕ) → All (Sound c) (again c n)

-- A decoder raises `Malformed` alone, and what it returns is sound if the dispatch is.
pub record IsSound (d : Decoder) : Type 0 where
  pub sound :
      (again : Call → ℕ → List Intent) (call : Call) (depth : ℕ)
      → Keeps again
      → Outcome IsMalformed (All (Sound call)) (d again call depth)

-- An intent with the actor and the path of its call.
pub leaf :
    (call : Call) (i : Intent)
    → i.actor ≡ call.actor
    → i.via ≡ call.via
    → (IsCall call
        → Sized 20 i.payer
          × Sized 20 i.token_in
          × Sized 20 i.token_out
          × Sized 20 i.recipient
          × Sized 32 i.order_id)
    → Sound call i
leaf call i actor via fields = record {
  extends = ([], via ∙ sym (append-nil call.via));
  claims = λ h. rw actor h;
  shaped = λ h.
      let (payer, token_in, token_out, recipient, order_id) = fields h in
      record {
        actor = rw actor h.actor;
        via = rw via h.via;
        payer = payer;
        token_in = token_in;
        token_out = token_out;
        recipient = recipient;
        order_id = order_id;
      };
}

-- A call inside: its path is longer, and its actor the one that is named, or else the same.
inner-IsCall :
    (call : Call) (to : Bytes) (value : ℕ) (bs : Bytes) (actor : Option Bytes)
    → length to ≡ 20
    → Sized 20 actor
    → IsCall call
    → IsCall (inner call (some to) value bs actor)
unfolding inner
inner-IsCall call to value bs none size named h = record {
  to = size;
  actor = h.actor;
  via = All-append (λ a. length a ≡ 20) call.via (to ∷ []) h.via (size, tt);
}
inner-IsCall call to value bs (some a) size named h = record {
  to = size;
  actor = named;
  via = All-append (λ a. length a ≡ 20) call.via (to ∷ []) h.via (size, tt);
}

inner-claims :
    (call : Call) (to : Bytes) (value : ℕ) (bs : Bytes) (actor : Option Bytes)
    → is_claimed call.actor ≡ true
    → is_claimed (inner call (some to) value bs actor).actor ≡ true
unfolding inner
inner-claims call to value bs none h = h
inner-claims call to value bs (some a) h = refl

module _ (call : Call) (to : Bytes) (value : ℕ) (bs : Bytes) (actor : Option Bytes)
    (size : length to ≡ 20) (named : Sized 20 actor) where
  Sound-inner : (i : Intent) → Sound (inner call (some to) value bs actor) i → Sound call i
  unfolding inner
  Sound-inner i s = record {
    extends = let (rest, e) = s.extends in (to ∷ rest, e ∙ append_assoc call.via (to ∷ []) rest);
    claims = λ h. s.claims (inner-claims call to value bs actor h);
    shaped = λ h. s.shaped (inner-IsCall call to value bs actor size named h);
  }

  -- What is sound of the call inside is sound of the call.
  pub All-inner :
      (is : List Intent)
      → All (Sound (inner call (some to) value bs actor)) is
      → All (Sound call) is
  All-inner [] h = tt
  All-inner (i ∷ is) (s, h) = (Sound-inner i s, All-inner is h)

pub erc20-IsSound :
    IsSound Erc20.transfer
    × IsSound Erc20.transfer_from
    × IsSound Erc20.approve
    × IsSound Erc20.permit2_approve
unfolding Erc20.transfer Erc20.transfer_from Erc20.approve Erc20.permit2_approve
erc20-IsSound = (
  record {
    sound = λ again call depth keeps. Outcome-bind _ _ (uint-Malformed _ 1) (λ amount _.
        Outcome-bind _ _ (address-Malformed _ 0)
          (λ to size. returns _ (leaf _ _ refl refl (λ h. (tt, h.to, tt, size, tt)), tt)));
  },
  record {
    sound = λ again call depth keeps. Outcome-bind _ _ (address-Malformed _ 0) (λ from paid.
        Outcome-bind _ _ (uint-Malformed _ 2) (λ amount _.
          Outcome-bind _ _ (address-Malformed _ 1)
            (λ to size. returns _ (leaf _ _ refl refl (λ h. (paid, h.to, tt, size, tt)), tt))));
  },
  record {
    sound = λ again call depth keeps. Outcome-bind _ _ (uint-Malformed _ 1) (λ amount _.
        Outcome-bind _ _ (address-Malformed _ 0)
          (λ spender size. returns _ (leaf _ _ refl refl (λ h. (tt, h.to, tt, size, tt)), tt)));
  },
  record {
    sound = λ again call depth keeps. Outcome-bind _ _ (address-Malformed _ 0) (λ asset spent.
        Outcome-bind _ _ (uint-Malformed _ 2) (λ amount _.
          Outcome-bind _ _ (address-Malformed _ 1)
            (λ spender size. returns _ (leaf _ _ refl refl (λ h. (tt, spent, tt, size, tt)), tt))));
  },
)

module _ (again : Call → ℕ → List Intent) (call : Call) (depth : ℕ) (keeps : Keeps again) where
  -- The intents of a call inside whose target is read at word 0.
  inside :
      (to : Bytes) (value : ℕ) (bs : Bytes) (actor : Option Bytes)
      → length to ≡ 20
      → Sized 20 actor
      → All (Sound call) (again (inner call (some to) value bs actor) (depth + 1))
  inside to value bs actor size named =
      All-inner call to value bs actor size named _ (keeps _ (depth + 1))

  pub handle_ops-Outcome :
      Outcome IsMalformed (All (Sound call)) (Erc4337.handle_ops again call depth)
  unfolding Erc4337.handle_ops
  handle_ops-Outcome = Outcome-bind _ _ (tuple_array-Malformed _ 0) (λ ops _.
      Outcome-collect _ ops (λ op. Outcome-bind _ _ (address-Malformed op 0) (λ wallet size.
        Outcome-bind _ _ (dynamic-Malformed op 3)
          (λ bs _. returns _ (inside wallet 0 bs (some wallet) size size)))))

  execute-Outcome : Outcome IsMalformed (All (Sound call)) (Erc4337.execute again call depth)
  unfolding Erc4337.execute
  execute-Outcome = Outcome-bind _ _ (address-Malformed _ 0) (λ to size.
      Outcome-bind _ _ (uint-Malformed _ 1) (λ value _.
        Outcome-bind _ _ (dynamic-Malformed _ 2)
          (λ bs _. returns _ (inside to value bs none size tt))))

  execute_batch-Outcome :
      Outcome IsMalformed (All (Sound call)) (Erc4337.execute_batch again call depth)
  unfolding Erc4337.execute_batch
  execute_batch-Outcome = Outcome-bind _ _ (tuple_array-Malformed _ 0) (λ calls _.
      Outcome-collect _ calls (λ c. Outcome-bind _ _ (address-Malformed c 0) (λ to size.
        Outcome-bind _ _ (uint-Malformed c 1) (λ value _.
          Outcome-bind _ _ (dynamic-Malformed c 2)
            (λ bs _. returns _ (inside to value bs none size tt))))))

  execute_batch_parallel-Outcome :
      Outcome IsMalformed (All (Sound call)) (Erc4337.execute_batch_parallel again call depth)
  unfolding Erc4337.execute_batch_parallel
  execute_batch_parallel-Outcome = Outcome-bind _ _ (static_array-Malformed _ 0 1) (λ targets _.
      Outcome-bind _ _ (static_array-Malformed _ 1 1) (λ values _.
        Outcome-bind _ _ (bytes_array-Malformed _ 2) (λ datas _.
          Outcome-if (length targets == length values && length values == length datas) _ _
            (λ same. Outcome-collect _ _ (λ (t, v, bs).
              Outcome-bind _ _ (address-Malformed t 0) (λ to size.
                Outcome-bind _ _ (uint-Malformed v 0)
                  (λ value _. returns _ (inside to value bs none size tt)))))
            (λ other. raises malformed refl))))

  execute_batch_no_values-Outcome :
      Outcome IsMalformed (All (Sound call)) (Erc4337.execute_batch_no_values again call depth)
  unfolding Erc4337.execute_batch_no_values
  execute_batch_no_values-Outcome = Outcome-bind _ _ (static_array-Malformed _ 0 1) (λ targets _.
      Outcome-bind _ _ (bytes_array-Malformed _ 1) (λ datas _.
        Outcome-if (length targets == length datas) _ _
          (λ same. Outcome-collect _ _ (λ (t, bs).
            Outcome-bind _ _ (address-Malformed t 0)
              (λ to size. returns _ (inside to 0 bs none size tt))))
          (λ other. raises malformed refl)))

pub erc4337-IsSound :
    IsSound Erc4337.handle_ops
    × IsSound Erc4337.execute
    × IsSound Erc4337.execute_batch
    × IsSound Erc4337.execute_batch_parallel
    × IsSound Erc4337.execute_batch_no_values
erc4337-IsSound = (
  record { sound = handle_ops-Outcome },
  record { sound = execute-Outcome },
  record { sound = execute_batch-Outcome },
  record { sound = execute_batch_parallel-Outcome },
  record { sound = execute_batch_no_values-Outcome },
)
