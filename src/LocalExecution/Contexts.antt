-- ===== src/LocalExecution/Contexts.antt =====
-- The contexts that `traced` keeps by depth: what one piece of a trace does to them.
use robinhood_chain_sequence.Prelude.{
  ℕ, suc, ◌≤◌, ◌<◌, ◌≡◌, refl, ap, ◌∙◌, arith, false, Bool-cases, Option, none, some, List, ◌++◌,
  append_assoc, inl, inr, ◌==◌, ==_iff,
}
use mathlib.Core.Path.{subst}
use robinhood_chain_sequence.Hex.{Text}
use robinhood_chain_sequence.LocalExecution.Trace.{Tracing, context_at, settle_with}

-- What is kept when code of `here` runs at a depth: its context is known, and what is pending, if
-- anything, was said at this depth or deeper.
abbrev pub AtLeast : ℕ → Option (ℕ × Text) → Type 0
AtLeast depth none = Unit
AtLeast depth (some (from, target)) = depth ≤ from

pub record Ready (to : Text) (depth : ℕ) (here : Text) (t : Tracing) : Type 0 where
  pub known : context_at t.context depth to ≡ here
  pub kept : AtLeast depth t.pending

-- What a whole piece of a trace does: it adds what it touches, and leaves the contexts above alone.
pub record Ran (to : Text) (depth : ℕ) (slots : List (Text × ℕ)) (accounts : List Text)
    (before after : Tracing) : Type 0 where
  pub slots_added : after.slots ≡ before.slots ++ slots
  pub accounts_added : after.reached ≡ before.reached ++ accounts
  pub above : (d : ℕ) → d < depth → context_at after.context d to ≡ context_at before.context d to
  pub left : (d : ℕ) → suc d ≡ depth → AtLeast d after.pending

pub AtLeast-weaken :
    (d e : ℕ) (pending : Option (ℕ × Text)) → d ≤ e → AtLeast e pending → AtLeast d pending
AtLeast-weaken d e none h k = tt
AtLeast-weaken d e (some (from, target)) h k = omega (arith, h, k)

pub Ran-trans :
    {to : Text} {depth : ℕ} {xs ys : List (Text × ℕ)} {acs bcs : List Text} {s m t : Tracing}
    → Ran to depth xs acs s m
    → Ran to depth ys bcs m t
    → Ran to depth (xs ++ ys) (acs ++ bcs) s t
Ran-trans {xs = xs} {ys} {acs} {bcs} {s} f g = record {
  slots_added = g.slots_added ∙ ap (λ r. r ++ ys) f.slots_added ∙ append_assoc s.slots xs ys;
  accounts_added =
      g.accounts_added ∙ ap (λ r. r ++ bcs) f.accounts_added ∙ append_assoc s.reached acs bcs;
  above = λ d h. g.above d h ∙ f.above d h;
  left = g.left;
}

-- A piece at a deeper call.
pub Ran-inside :
    {to : Text} {depth : ℕ} {xs : List (Text × ℕ)} {acs : List Text} {s t : Tracing}
    → Ran to (suc depth) xs acs s t
    → Ran to depth xs acs s t
Ran-inside {depth = depth} {t = t} f = record {
  slots_added = f.slots_added;
  accounts_added = f.accounts_added;
  above = λ d h. f.above d (omega (arith, h));
  left = λ d h. AtLeast-weaken d depth t.pending (omega (arith, h)) (f.left depth refl);
}

-- What stands behind the settling of a step: everything, but the context at its depth.
pub record Settled (to : Text) (depth : ℕ) (s u : Tracing) : Type 0 where
  pub same_slots : u.slots ≡ s.slots
  pub same_reached : u.reached ≡ s.reached
  pub same_above : (d : ℕ) → d < depth → context_at u.context d to ≡ context_at s.context d to

pub settle-Settled :
    (to : Text) (depth : ℕ) (pending : Option (ℕ × Text)) (s : Tracing)
    → Settled to depth s (settle_with pending depth s)
unfolding settle_with context_at
settle-Settled to depth none s = record {
  same_slots = refl;
  same_reached = refl;
  same_above = λ d h. refl;
}
settle-Settled to depth (some (from, target)) s = elim (Bool-cases (depth == suc from)) [
  | inl enters ↦
      rw enters
        (record { same_slots = refl; same_reached = refl; same_above = λ d h. ground (arith, h) })
  | inr stays ↦
      rw stays (record { same_slots = refl; same_reached = refl; same_above = λ d h. refl })
]

-- Nothing is settled where nothing of the depth above is pending.
pub settle_kept :
    (depth : ℕ) (pending : Option (ℕ × Text)) (s : Tracing)
    → AtLeast depth pending
    → settle_with pending depth s ≡ s
unfolding settle_with
settle_kept depth none s h = refl
settle_kept depth (some (from, target)) s h = ground (arith, h)

settle_stays :
    (depth from : ℕ) (target : Text) (s : Tracing)
    → (depth == suc from) ≡ false
    → settle_with (some (from, target)) depth s ≡ s
unfolding settle_with
settle_stays depth from target s h = rw h refl

-- Before the settling, what is pending may be of the depth above.
pub settle_left :
    (to : Text) (depth d : ℕ) (here : Text) (pending : Option (ℕ × Text)) (s : Tracing)
    → s.pending ≡ pending
    → suc d ≡ depth
    → Ready to depth here (settle_with pending depth s)
    → AtLeast d pending
settle_left to depth d here none s e h r = tt
settle_left to depth d here (some (from, target)) s e h r = elim (Bool-cases (depth == suc from)) [
  | inl enters ↦ omega (arith, h, (==_iff depth (suc from)).0 enters)
  | inr stays ↦
      let kept =
        subst (λ u. AtLeast depth u.pending) (settle_stays depth from target s stays) r.kept in
      AtLeast-weaken d depth (some (from, target)) (omega (arith, h)) (subst (AtLeast depth) e kept)
]
