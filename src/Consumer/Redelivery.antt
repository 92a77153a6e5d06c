-- ===== src/Consumer/Redelivery.antt =====
-- A message that arrives again.
use robinhood_chain_sequence.Prelude.{
  ℕ, ◌+◌, ◌*◌, ◌≡◌, ◌⊎◌, refl, ap, ◌∙◌, arith, Bool, true, false, List, [], ◌∷◌, Option, none, some,
  length, ltb, ◌==◌, sym, Option-cases, Bool-cases, inl, inr, not, if◌then◌else◌,
}
use mathlib.Core.Path.{subst}
use robinhood_chain_sequence.Bytes.Equality.{bytes_eq_refl}
use robinhood_chain_sequence.Prelude.Int.{ℤ, le_ℤ, lt_ℤ, eq_ℤ, minus, eq_ℤ→eq, eq_ℤ_refl}
use robinhood_chain_sequence.Hex.{Text}
use robinhood_chain_sequence.Frame.{FeedMessage}
use robinhood_chain_sequence.Consumer.Step.{deliver_lem}
use robinhood_chain_sequence.Consumer.{
  Consumer, Stats, hash_at, put_hash, keep_above, is_reorg, remember, remember_hash, deliver, step,
  truthy,
}

pub hash_at-put_hash :
    (seq k : ℤ) (h : Text) (hashes : List (ℤ × Text))
    → hash_at k (put_hash seq h hashes) ≡ (if eq_ℤ seq k then some h else hash_at k hashes)
unfolding hash_at put_hash
hash_at-put_hash seq k h [] = refl
hash_at-put_hash seq k h ((s, g) ∷ rest) =
    ground (arith, hash_at-put_hash seq k h rest, eq_ℤ→eq s seq)

pub hash_at-keep_above :
    (cutoff k : ℤ) (hashes : List (ℤ × Text))
    → hash_at k (keep_above cutoff hashes) ≡ (if lt_ℤ cutoff k then hash_at k hashes else none)
unfolding hash_at keep_above
hash_at-keep_above cutoff k [] = ground arith
hash_at-keep_above cutoff k ((s, g) ∷ rest) =
    ground (arith, hash_at-keep_above cutoff k rest, eq_ℤ→eq s k)

-- What the window holds of a block right after it was remembered: its hash, or nothing.
remembered_hash :
    (window : ℕ) (seq : ℤ) (h : Text) (c : Consumer)
    → (hash_at seq (remember_hash window seq h c).hashes ≡ some h)
      ⊎ (hash_at seq (remember_hash window seq h c).hashes ≡ none)
unfolding remember_hash
remembered_hash window seq h c =
    let hashes = put_hash seq h c.hashes in
    let kept : hash_at seq hashes ≡ some h = hash_at-put_hash seq seq h c.hashes ∙ rw eq_ℤ_refl in
    let cutoff = minus c.highest_seq window in
    elim (Bool-cases (ltb (window * 2) (length hashes))) [
      | inr small ↦ inl (rw small kept)
      | inl large ↦ elim (Bool-cases (lt_ℤ cutoff seq)) [
        | inl above ↦ inl (rw (large, hash_at-keep_above, above) kept)
        | inr below ↦ inr (rw (large, hash_at-keep_above, below))
      ]
    ]

same_hash :
    (seq : ℤ) (h : Text) (c : Consumer) (msg : FeedMessage)
    → msg.seq ≡ seq
    → msg.block_hash ≡ some h
    → (hash_at seq c.hashes ≡ some h) ⊎ (hash_at seq c.hashes ≡ none)
    → is_reorg c msg ≡ false
unfolding is_reorg
same_hash seq h c msg es eh (inl e) = rw (es, eh, e, bytes_eq_refl h) (ground arith)
same_hash seq h c msg es eh (inr e) = rw (es, eh, e)

no_hash :
    (c : Consumer) (msg : FeedMessage) → truthy msg.block_hash ≡ false → is_reorg c msg ≡ false
unfolding is_reorg
no_hash c msg h = ground (arith, h)

remember-remember_hash :
    (window : ℕ) (m : FeedMessage) (h : Text) (c : Consumer)
    → m.block_hash ≡ some h
    → (length h == 0) ≡ false
    → remember window m c ≡ remember_hash window m.seq h c
unfolding remember
remember-remember_hash window m h c e full =
    subst
      (λ (o : Option Text).
        (elim o [ none ↦ c | some g ↦ if length g == 0 then c else remember_hash window m.seq g c ])
        ≡ remember_hash window m.seq h c)
      (sym e) (rw full)

-- `remember` leaves nothing by which the same message would be a reorg.
remember-is_reorg :
    (window : ℕ) (m msg : FeedMessage) (c : Consumer)
    → m.seq ≡ msg.seq
    → m.block_hash ≡ msg.block_hash
    → is_reorg (remember window m c) msg ≡ false
remember-is_reorg window m msg c es eh = elim (Option-cases msg.block_hash) [
  | inl e ↦ no_hash _ msg (ap truthy e)
  | inr (h, e) ↦ elim (Bool-cases (length h == 0)) [
    | inl empty ↦ no_hash _ msg (ap truthy e ∙ ap not empty)
    | inr full ↦
        ap (λ d. is_reorg d msg) (remember-remember_hash window m h c (eh ∙ e) full)
        ∙ same_hash m.seq h (remember_hash window m.seq h c) msg (sym es) e
            (remembered_hash window m.seq h c)
  ]
]

le_ℤ_refl : (a : ℤ) → le_ℤ a a ≡ true
le_ℤ_refl a = ground arith

duplicate :
    (window : ℕ) (live : Bool) (msg : FeedMessage) (c : Consumer)
    → le_ℤ msg.seq c.highest_seq ≡ true
    → is_reorg c msg ≡ false
    → (step window true live msg c).1 ≡ []
unfolding step
duplicate window live msg c old same = rw (old, same)

delivered_hashes :
    (window : ℕ) (live : Bool) (m msg : FeedMessage) (c : Consumer)
    → is_reorg (deliver window live m c).0 msg
      ≡ is_reorg (remember window m (record c { highest_seq = m.seq })) msg
unfolding deliver is_reorg
delivered_hashes window live m msg c = refl

dropped_again :
    (window : ℕ) (live again : Bool) (m msg : FeedMessage) (c : Consumer)
    → m.seq ≡ msg.seq
    → m.block_hash ≡ msg.block_hash
    → (step window true again msg (deliver window live m c).0).1 ≡ []
dropped_again window live again m msg c es eh =
    let (out, high, del, cnt) = deliver_lem window live m c in
    duplicate window again msg (deliver window live m c).0
      (ap (le_ℤ msg.seq) (high ∙ es) ∙ le_ℤ_refl msg.seq)
      (delivered_hashes window live m msg c ∙ remember-is_reorg window m msg _ es eh)

is_reorg_stats :
    (c : Consumer) (s : Stats) (msg : FeedMessage)
    → is_reorg (record c { stats = s }) msg ≡ is_reorg c msg
unfolding is_reorg
is_reorg_stats c s msg = refl

-- When an accepted message arrives twice in a row, as after a reconnect, the second arrival yields
-- nothing. This holds whatever the consumer did with the first: delivered it, delivered it as a
-- reorg, or dropped it.
pub step-step :
    (window : ℕ) (live again : Bool) (msg : FeedMessage) (c : Consumer)
    → (step window true again msg (step window true live msg c).0).1 ≡ []
step-step window live again msg c = elim (Bool-cases (le_ℤ msg.seq c.highest_seq)) [
  | inl old ↦ elim (Bool-cases (is_reorg c msg)) [
    | inl changed ↦
        let c' : Consumer = record c {
          stats = record c.stats { reorgs = c.stats.reorgs + 1 };
          highest_seq = minus msg.seq 1;
        } in
        let first : step window true live msg c
            ≡ deliver window live (record msg { reorg = true }) c' =
          unfold step in rw (old, changed) in
        ap (λ r. (step window true again msg r.0).1) first
        ∙ dropped_again window live again (record msg { reorg = true }) msg c' refl refl
    | inr same ↦
        let stats : Stats = record c.stats {
          duplicate_messages = c.stats.duplicate_messages + 1;
        } in
        let first : step window true live msg c ≡ (record c { stats = stats }, []) =
          unfold step in rw (old, same) in
        ap (λ r. (step window true again msg r.0).1) first
        ∙ duplicate window again msg (record c { stats = stats }) old
            (is_reorg_stats c stats msg ∙ same)
  ]
  | inr new ↦
      let first : step window true live msg c ≡ deliver window live msg c = unfold step in rw new in
      ap (λ r. (step window true again msg r.0).1) first
      ∙ dropped_again window live again msg msg c refl refl
]
