-- ===== src/Session/Monitor.antt =====
-- consume.py, `_monitor`: what is said of an open connection from which no frames come.
use robinhood_chain_sequence.Prelude.{
  ℕ, ◌+◌, ◌-◌, ◌≤◌, ◌<◌, ◌≡◌, refl, inl, inr, arith, Bool, Bool-cases, true, false, List, [], ◌∷◌,
  ◌||◌, leb, ◌==◌, if◌then◌else◌,
}

-- A warning that nothing arrives, a note that the backlog is being read, or nothing.
pub data Report : Type 0 where
  warning draining quiet : Report

-- What the monitor sees when it wakes: the clock, the time of the last frame or 0 where no connection
-- is open, and whether the backlog has drained.
pub record Look : Type 0 where
  pub now : ℕ
  pub last_frame_at : ℕ
  pub is_live : Bool

-- idle >= self.stall_warning
unfoldable pub is_stalled : ℕ → Look → Bool
is_stalled stall_warning look = leb stall_warning (look.now - look.last_frame_at)

-- The body of the loop, which keeps `warned`.
unfoldable pub poll : ℕ → Look → Bool → Bool × Report
unfolding is_stalled
poll stall_warning look warned =
    if look.last_frame_at == 0
    then (false, quiet)
    else if is_stalled stall_warning look
    then (true, if warned then quiet else warning)
    else (false, if look.is_live then quiet else draining)

-- The loop, over what it sees.
unfoldable pub polls : ℕ → Bool → List Look → List Report
polls stall_warning warned [] = []
polls stall_warning warned (look ∷ looks) =
    let (warned', report) = poll stall_warning look warned in
    report ∷ polls stall_warning warned' looks

abbrev pub is_warning : Report → ℕ
is_warning warning = 1
is_warning draining = 0
is_warning quiet = 0

abbrev pub warnings : List Report → ℕ
warnings [] = 0
warnings (r ∷ rs) = is_warning r + warnings rs

-- One of the looks falls that long after the last frame.
abbrev pub any_stalled : ℕ → List Look → Bool
any_stalled stall_warning [] = false
any_stalled stall_warning (look ∷ looks) =
    is_stalled stall_warning look || any_stalled stall_warning looks

-- The connection is open, its last frame came at `last`, and the clock, which showed `now`, does not
-- run backwards.
abbrev pub Silence : ℕ → ℕ → List Look → Type 0
Silence last now [] = 0 < last
Silence last now (look ∷ looks) =
    (look.last_frame_at ≡ last) × (now ≤ look.now) × Silence last look.now looks

Silence-open : (last now : ℕ) (looks : List Look) → Silence last now looks → 0 < last
Silence-open last now [] h = h
Silence-open last now (look ∷ looks) (same, later, h) = Silence-open last look.now looks h

module _ (stall_warning last : ℕ) where
  -- A warning that was given is not repeated.
  warnings_zero :
      (now : ℕ) (looks : List Look)
      → stall_warning ≤ now - last
      → Silence last now looks
      → warnings (polls stall_warning true looks) ≡ 0
  unfolding polls poll is_stalled
  warnings_zero now [] over h = refl
  warnings_zero now (look ∷ looks) over (same, later, h) =
      let positive = Silence-open last look.now looks h in
      let rest = warnings_zero look.now looks (omega arith) h in ground (arith, rest, positive)

  -- As long as no frame comes on an open connection, a monitor that has not warned warns exactly once
  -- when it finds the silence to have lasted `stall_warning`, however often it looks after that, and
  -- never when it does not.
  pub warnings-polls :
      (now : ℕ) (looks : List Look)
      → Silence last now looks
      → warnings (polls stall_warning false looks)
        ≡ (if any_stalled stall_warning looks then 1 else 0)
  unfolding polls poll is_stalled
  warnings-polls now [] h = refl
  warnings-polls now (look ∷ looks) (same, later, h) =
      let positive = Silence-open last look.now looks h in
      elim (Bool-cases (leb stall_warning (look.now - look.last_frame_at))) [
        | inl over ↦
            let rest = warnings_zero look.now looks (ground arith) h in
            ground (arith, rest, positive, over)
        | inr early ↦
            let rest = warnings-polls look.now looks h in ground (arith, rest, positive, early)
      ]
