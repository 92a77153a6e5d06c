-- ===== src/Frame/Read.antt =====
-- What `parse_frame` reads: one message for each entry, in order.
use robinhood_chain_sequence.Prelude.{
  ℕ, suc, ◌≡◌, ◌⊎◌, refl, ap, arith, Bool, true, false, inl, inr, Option, List, [], ◌∷◌, ◌++◌,
  length, ok, ◌>>=◌, >>=-eq-ok, traverse,
}
use robinhood_chain_sequence.Frame.{
  Entry, FeedMessage, seq_of, txs_of, message_of, parse_entry, parse_frame,
}

-- `m` is the message of `e`, with the transactions of its payload or none.
pub record IsRead (chain : Option ℕ) (e : Entry) (m : FeedMessage) : Type 0 where
  pub seq : m.seq ≡ seq_of e
  pub block_hash : m.block_hash ≡ e.block_hash
  pub fresh : m.reorg ≡ false
  pub txs : (m.txs ≡ []) ⊎ (txs_of e.header chain e.l2_msg ≡ ok m.txs)

-- Each message beside its entry.
abbrev pub Aligned : Option ℕ → List Entry → List FeedMessage → Type 0
Aligned chain [] [] = Unit
Aligned chain (e ∷ entries) (m ∷ ms) = IsRead chain e m × Aligned chain entries ms
Aligned chain _ _ = ⊥

pub Aligned-append :
    (chain : Option ℕ) (es fs : List Entry) (ms ns : List FeedMessage)
    → Aligned chain es ms
    → Aligned chain fs ns
    → Aligned chain (es ++ fs) (ms ++ ns)
Aligned-append chain [] fs [] ns a b = b
Aligned-append chain [] fs (m ∷ ms) ns a b = absurd a
Aligned-append chain (e ∷ es) fs [] ns a b = absurd a
Aligned-append chain (e ∷ es) fs (m ∷ ms) ns (h, a) b = (h, Aligned-append chain es fs ms ns a b)

pub length-Aligned :
    (chain : Option ℕ) (es : List Entry) (ms : List FeedMessage)
    → Aligned chain es ms
    → length ms ≡ length es
length-Aligned chain [] [] a = refl
length-Aligned chain [] (m ∷ ms) a = absurd a
length-Aligned chain (e ∷ es) [] a = absurd a
length-Aligned chain (e ∷ es) (m ∷ ms) (h, a) = ap suc (length-Aligned chain es ms a)

parse_entry-IsRead :
    (decode : Bool) (chain : Option ℕ) (e : Entry) (m : FeedMessage)
    → parse_entry decode chain e ≡ ok m
    → IsRead chain e m
unfolding parse_entry message_of
parse_entry-IsRead true chain e m h =
    let (txs, read, made) =
      >>=-eq-ok (txs_of e.header chain e.l2_msg) (λ txs. ok (message_of e txs)) h in
    let same : message_of e txs ≡ m = cc in
    rw (← same) (record { seq = refl; block_hash = refl; fresh = refl; txs = inr read })
parse_entry-IsRead false chain e m h =
    let same : message_of e [] ≡ m = cc in
    rw (← same) (record { seq = refl; block_hash = refl; fresh = refl; txs = inl refl })

pub parse_frame-Aligned :
    (decode : Bool) (chain : Option ℕ) (entries : List Entry) (ms : List FeedMessage)
    → parse_frame entries decode chain ≡ ok ms
    → Aligned chain entries ms
unfolding parse_frame
parse_frame-Aligned decode chain [] [] h = tt
parse_frame-Aligned decode chain [] (m ∷ ms) h = absurd (ground arith)
parse_frame-Aligned decode chain (e ∷ entries) ms h =
    let (m, first, h') =
      >>=-eq-ok (parse_entry decode chain e)
        (λ y. traverse (parse_entry decode chain) entries >>= λ ys. ok (y ∷ ys)) h in
    let (rest, others, h'') =
      >>=-eq-ok (traverse (parse_entry decode chain) entries) (λ ys. ok (m ∷ ys)) h' in
    let same : m ∷ rest ≡ ms = cc in
    rw (← same) (
      parse_entry-IsRead decode chain e m first,
      parse_frame-Aligned decode chain entries rest others,
    )
