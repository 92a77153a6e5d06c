-- ===== src/L2/Depth.antt =====
-- The recursion of `_parse_l2_message`: the fuel of the model is enough, and the calls are those of
-- the source.
use robinhood_chain_sequence.Prelude.{
  ℕ, zero, suc, ◌+◌, ◌-◌, ◌<◌, ◌≤◌, ◌≡◌, ◌⊎◌, refl, ap, ◌∙◌, arith, List, [], ◌∷◌, ◌++◌, Option,
  some, none, leb_false→lt, ◌==◌, ◌||◌, leb, ltb, le→leb, leb→le, Bool-cases, inl, inr, ok, err,
  rejected, Result, Result-cases, collect, ◌>>=◌, ◌>>◌, if◌then◌else◌,
}
use robinhood_chain_sequence.Bytes.{Bytes}
use robinhood_chain_sequence.Rlp.{Item}
use robinhood_chain_sequence.Tx.{Tx, signed_tx, accept_fields}
use robinhood_chain_sequence.Tx.Accept.{typed_step, legacy_step}
use robinhood_chain_sequence.L2.{
  split_batch, parse_with, parse_nested, parse_l2_message, check_unsigned_tx,
}
use robinhood_chain_sequence.L2.Batch.{split_batch-ok}

-- At depth 16 no call is made on an entry.
parse_with_deep :
    (f g : Bytes → Result (List Tx)) (payload : Bytes) (depth : ℕ)
    → 16 ≤ depth
    → parse_with f payload depth ≡ parse_with g payload depth
unfolding parse_with
parse_with_deep f g [] depth h = refl
parse_with_deep f g (kind ∷ body) depth h = rw (le→leb 16 depth h)

-- At every depth the parser satisfies the recursive equation of the source, with no bound on its
-- calls: it is its own body over the call of itself one deeper.
pub parse_l2_message_lem :
    (payload : Bytes) (depth : ℕ)
    → parse_l2_message payload depth
      ≡ parse_with (λ entry. parse_l2_message entry (depth + 1)) payload depth
unfolding parse_l2_message parse_nested
parse_l2_message_lem payload depth = elim (Bool-cases (leb 16 depth)) [
  | inl deep ↦ parse_with_deep _ _ payload depth (leb→le 16 depth deep)
  | inr room ↦
      let e : 16 - depth ≡ suc (16 - (depth + 1)) = ground arith in
      ap (λ n. parse_with (λ entry. parse_nested n entry (depth + 1)) payload depth) e
]

-- The one exception that a step can raise.
abbrev OnlyRejects {ℓ} : {A : Type ℓ} → Result A → Type 0
OnlyRejects (ok a) = Unit {0}
OnlyRejects (err e) = e ≡ rejected

OnlyRejects-bind {ℓ κ} :
    {A : Type ℓ} {B : Type κ} (m : Result A) (f : A → Result B)
    → OnlyRejects m
    → ((a : A) → OnlyRejects (f a))
    → OnlyRejects (m >>= f)
OnlyRejects-bind (ok a) f hm hf = hf a
OnlyRejects-bind (err e) f hm hf = hm

OnlyRejects-accept_fields :
    (tx : Tx) (n : Option ℕ) (b : Option Bytes) (f : Option (List Item))
    → OnlyRejects (accept_fields tx n b f)
unfolding accept_fields
OnlyRejects-accept_fields tx (some n) (some b) (some f) = ground arith
OnlyRejects-accept_fields tx (some n) (some b) none = refl
OnlyRejects-accept_fields tx (some n) none f = refl
OnlyRejects-accept_fields tx none b f = refl

OnlyRejects-signed_tx : (raw : Bytes) → OnlyRejects (signed_tx raw)
OnlyRejects-signed_tx [] = unfold signed_tx in refl
OnlyRejects-signed_tx (head ∷ rest) = elim (Bool-cases (ltb head 0x80)) [
  | inl small ↦ rw (typed_step head rest small) (OnlyRejects-accept_fields _ _ _ _)
  | inr large ↦ rw (legacy_step head rest large) (OnlyRejects-accept_fields _ _ _ _)
]

OnlyRejects-check : (body : Bytes) (kind : ℕ) → OnlyRejects (check_unsigned_tx body kind)
unfolding check_unsigned_tx
OnlyRejects-check body kind = ground arith

OnlyRejects-collect :
    (f : Bytes → Result (List Tx)) (es : List Bytes)
    → ((e : Bytes) → OnlyRejects (f e))
    → OnlyRejects (collect f es)
OnlyRejects-collect f [] h = tt
OnlyRejects-collect f (e ∷ es) h =
    OnlyRejects-bind (f e) (λ ys. collect f es >>= λ zs. ok (ys ++ zs)) (h e)
      (λ ys.
        OnlyRejects-bind (collect f es) (λ zs. ok (ys ++ zs)) (OnlyRejects-collect f es h)
          (λ zs. tt))

OnlyRejects-batch :
    (nested : Bytes → Result (List Tx)) (body : Bytes) (depth : ℕ)
    → (depth < 16 → (e : Bytes) → OnlyRejects (nested e))
    → OnlyRejects
        (if leb 16 depth then err rejected else (split_batch body >>= λ es. collect nested es))
OnlyRejects-batch nested body depth h = elim (Bool-cases (leb 16 depth)) [
  | inl deep ↦ rw deep refl
  | inr room ↦
      let (es, split) = split_batch-ok body in
      rw (room, split) (OnlyRejects-collect nested es (h (leb_false→lt 16 depth room)))
]

OnlyRejects-unsigned :
    (nested : Bytes → Result (List Tx)) (kind : ℕ) (body : Bytes) (depth : ℕ)
    → (depth < 16 → (e : Bytes) → OnlyRejects (nested e))
    → OnlyRejects (
        if kind == 3
        then (if leb 16 depth then err rejected else (split_batch body >>= λ es. collect nested es))
        else if kind == 0 || kind == 1
        then (check_unsigned_tx body kind >> ok [])
        else err rejected)
OnlyRejects-unsigned nested kind body depth h = elim (Bool-cases (kind == 3)) [
  | inl is_batch ↦ rw is_batch (OnlyRejects-batch nested body depth h)
  | inr other ↦ elim (Bool-cases (kind == 0 || kind == 1)) [
    | inl is_unsigned ↦
        rw (other, is_unsigned)
          (OnlyRejects-bind (check_unsigned_tx body kind) (λ _. ok []) (OnlyRejects-check body kind)
            (λ _. tt))
    | inr unknown ↦ rw (other, unknown) refl
  ]
]

OnlyRejects-parse_with :
    (nested : Bytes → Result (List Tx)) (payload : Bytes) (depth : ℕ)
    → (depth < 16 → (e : Bytes) → OnlyRejects (nested e))
    → OnlyRejects (parse_with nested payload depth)
unfolding parse_with
OnlyRejects-parse_with nested [] depth h = refl
OnlyRejects-parse_with nested (kind ∷ body) depth h = elim (Bool-cases (kind == 4)) [
  | inl is_signed ↦ rw is_signed (
      OnlyRejects-bind (signed_tx body) (λ tx. ok (tx ∷ [])) (OnlyRejects-signed_tx body)
        (λ tx. tt))
  | inr other ↦ rw other (OnlyRejects-unsigned nested kind body depth h)
]

OnlyRejects-parse_nested :
    (fuel : ℕ) (payload : Bytes) (depth : ℕ)
    → 16 < depth + fuel
    → 0 < fuel
    → OnlyRejects (parse_nested fuel payload depth)
unfolding parse_nested
OnlyRejects-parse_nested zero payload depth h p = absurd (omega arith)
OnlyRejects-parse_nested (suc fuel) payload depth h p =
    OnlyRejects-parse_with (λ e. parse_nested fuel e (depth + 1)) payload depth
      (λ room e. OnlyRejects-parse_nested fuel e (depth + 1) (omega arith) (omega arith))

-- Parsing any payload at any depth ends: it returns transactions or rejects the message, and
-- raises nothing else.
pub parse_l2_message-total :
    (payload : Bytes) (depth : ℕ)
    → ((txs : List Tx) × (parse_l2_message payload depth ≡ ok txs))
      ⊎ (parse_l2_message payload depth ≡ err rejected)
unfolding parse_l2_message
parse_l2_message-total payload depth =
    elim (Result-cases (parse_nested (suc (16 - depth)) payload depth)) [
      | inl (txs, e) ↦ inl (txs, e)
      | inr (x, e) ↦ inr (
          e
          ∙ ap err (
              rw e at (
                OnlyRejects-parse_nested (suc (16 - depth)) payload depth (omega arith)
                  (omega arith))))
    ]
