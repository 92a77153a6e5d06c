-- ===== src/LocalExecution/Reads.antt =====
-- `traced` on the trace of a tree of calls.
use robinhood_chain_sequence.Prelude.{
  ℕ, suc, ◌≡◌, refl, sym, ap, ◌∙◌, arith, some, List, [], ◌∷◌, ◌++◌, append-nil, ==_refl,
}
use mathlib.Core.Path.{subst}
use robinhood_chain_sequence.Hex.{Text}
use robinhood_chain_sequence.LocalExecution.Trace.{
  Op, OpClass, class_of, Step, address_text, Tracing, context_at, settle_with, settle, read_step,
  trace_step, trace_steps, tracing, touched,
}
use robinhood_chain_sequence.LocalExecution.Tree.{
  Execution, done, access, probe, call_to, delegate_to, quiet, IsProper, step_at, trace_of,
  slots_of, accounts_of,
}
use robinhood_chain_sequence.LocalExecution.Contexts.{
  Ready, Ran, AtLeast, AtLeast-weaken, Ran-trans, Ran-inside, settle-Settled, settle_kept,
  settle_left,
}

module _ (to : Text) where
  -- An execution of no steps.
  Ran-done :
      (depth : ℕ) (here : Text) (s : Tracing)
      → Ready to depth here (settle depth s)
      → Ran to depth [] [] s s
  unfolding settle
  Ran-done depth here s ready = record {
    slots_added = sym (append-nil s.slots);
    accounts_added = sym (append-nil s.reached);
    above = λ d h. refl;
    left = λ d h. settle_left to depth d here s.pending s refl h ready;
  }

  -- One step that leaves the contexts as the settling leaves them, and is ready for the next.
  record Stepped (depth : ℕ) (here : Text) (slots : List (Text × ℕ)) (accounts : List Text)
      (s t : Tracing) : Type 0 where
    ran : Ran to depth slots accounts s t
    next : Ready to depth here t

  module _ (depth : ℕ) (here : Text) (s : Tracing)
      (ready : Ready to depth here (settle depth s)) where
    Stepped-of :
        (slots : List (Text × ℕ)) (accounts : List Text) (t : Tracing)
        → t.slots ≡ (settle depth s).slots ++ slots
        → t.reached ≡ (settle depth s).reached ++ accounts
        → t.context ≡ (settle depth s).context
        → AtLeast depth t.pending
        → Stepped depth here slots accounts s t
    unfolding settle
    Stepped-of slots accounts t more_slots more_accounts same kept =
        let settled = settle-Settled to depth s.pending s in
        record {
          ran = record {
            slots_added = more_slots ∙ ap (λ r. r ++ slots) settled.same_slots;
            accounts_added = more_accounts ∙ ap (λ r. r ++ accounts) settled.same_reached;
            above = λ d h. ap (λ c. context_at c d to) same ∙ settled.same_above d h;
            left = λ d h. AtLeast-weaken d depth t.pending (omega (arith, h)) kept;
          };
          next = record { known = ap (λ c. context_at c depth to) same ∙ ready.known; kept = kept };
        }

  -- What is ready stays so when it is settled.
  Ready-settle :
      (depth : ℕ) (here : Text) (t : Tracing)
      → Ready to depth here t
      → Ready to depth here (settle depth t)
  unfolding settle
  Ready-settle depth here t ready = rw (settle_kept depth t.pending t ready.kept) ready

  -- The code that a call runs is ready in the context that the call left pending.
  Ready-enter :
      (depth : ℕ) (target : Text) (t : Tracing)
      → t.pending ≡ some (depth, target)
      → Ready to (suc depth) target (settle (suc depth) t)
  unfolding settle settle_with context_at
  Ready-enter depth target t h =
      rw (h, ==_refl (suc depth)) (record { known = rw (==_refl (suc depth)) refl; kept = tt })

  -- Behind a call, the code that called is ready again.
  Ready-return :
      (depth : ℕ) (here : Text) {slots : List (Text × ℕ)} {accounts : List Text} (t m : Tracing)
      → Ready to depth here t
      → Ran to (suc depth) slots accounts t m
      → Ready to depth here m
  Ready-return depth here t m ready ran = record {
    known = ran.above depth (omega arith) ∙ ready.known;
    kept = ran.left depth refl;
  }

  trace_steps-append :
      (t : Tracing) (xs ys : List Step)
      → trace_steps to t (xs ++ ys) ≡ trace_steps to (trace_steps to t xs) ys
  unfolding trace_steps
  trace_steps-append t [] ys = refl
  trace_steps-append t (x ∷ xs) ys = trace_steps-append (trace_step to t x) xs ys

  -- A call: its step, the code inside and the rest.
  Ran-call :
      (depth : ℕ) (here target account : Text) (s t : Tracing) (inside rest : List Step)
      {inner outer : List (Text × ℕ)} {within beyond : List Text}
      → Stepped depth here [] (account ∷ []) s t
      → t.pending ≡ some (depth, target)
      → (Ready to (suc depth) target (settle (suc depth) t)
          → Ran to (suc depth) inner within t (trace_steps to t inside))
      → ((m : Tracing)
          → Ready to depth here (settle depth m)
          → Ran to depth outer beyond m (trace_steps to m rest))
      → Ran to depth
          (inner ++ outer)
          (account ∷ within ++ beyond)
          s
          (trace_steps to t (inside ++ rest))
  Ran-call depth here target account s t inside rest stepped pending run_inside run_rest =
      let ran = run_inside (Ready-enter depth target t pending) in
      let back = Ready-return depth here t (trace_steps to t inside) stepped.next ran in
      rw (trace_steps-append t inside rest) (
        Ran-trans stepped.ran
          (Ran-trans (Ran-inside ran) (run_rest _ (Ready-settle depth here _ back))))

  -- The step in front of a trace, by the class of its opcode.
  Ran-step :
      (depth : ℕ) (here : Text) (s : Tracing) (op : Op) (stack : List ℕ) (class : OpClass)
      (rest : List Step) (slots : List (Text × ℕ)) (accounts : List Text)
      → class_of op ≡ class
      → Ready to depth here (settle depth s)
      → Ran to depth slots accounts s
          (trace_steps to (read_step class stack depth here (settle depth s)) rest)
      → Ran to depth slots accounts s (trace_steps to s (step_at depth op stack ∷ rest))
  unfolding trace_steps trace_step
  Ran-step depth here s op stack class rest slots accounts kind ready ran =
      subst
        (λ c. Ran to depth slots accounts s (
          trace_steps to
            (read_step c stack depth (context_at (settle depth s).context depth to)
              (settle depth s))
            rest))
        (sym kind)
        (subst
          (λ a.
            Ran to depth slots accounts s
              (trace_steps to (read_step class stack depth a (settle depth s)) rest))
          (sym ready.known) ran)

  Ran-trace :
      (e : Execution) (depth : ℕ) (here : Text) (s : Tracing)
      → IsProper e
      → Ready to depth here (settle depth s)
      → Ran to depth (slots_of here e) (accounts_of e) s (trace_steps to s (trace_of depth e))
  unfolding IsProper trace_of slots_of accounts_of read_step trace_steps
  Ran-trace done depth here s proper ready = Ran-done depth here s ready
  Ran-trace (access op slot below rest) depth here s (kind, proper) ready =
      Ran-step depth here s op (slot ∷ below) _ (trace_of depth rest) _ _ kind ready (
        let step =
          Stepped-of depth here s ready ((here, slot) ∷ []) [] _ refl (sym (append-nil _)) refl
            ready.kept in
        Ran-trans step.ran
          (Ran-trace rest depth here _ proper (Ready-settle depth here _ step.next)))
  Ran-trace (probe op account below rest) depth here s (kind, proper) ready =
      Ran-step depth here s op (account ∷ below) _ (trace_of depth rest) _ _ kind ready (
        let step =
          Stepped-of depth here s ready [] (address_text account ∷ []) _ (sym (append-nil _)) refl
            refl ready.kept in
        Ran-trans step.ran
          (Ran-trace rest depth here _ proper (Ready-settle depth here _ step.next)))
  Ran-trace (call_to op gas target below inside rest) depth here s (kind, inner, proper) ready =
      Ran-step depth here s op (gas ∷ target ∷ below) _
        (trace_of (suc depth) inside ++ trace_of depth rest) _ _ kind ready
        (Ran-call depth here (address_text target) (address_text target) s _
          (trace_of (suc depth) inside) (trace_of depth rest)
          (Stepped-of depth here s ready [] (address_text target ∷ []) _ (sym (append-nil _)) refl
            refl (omega arith))
          refl (Ran-trace inside (suc depth) (address_text target) _ inner)
          (λ m r. Ran-trace rest depth here m proper r))
  Ran-trace (delegate_to op gas target below inside rest) depth here s (kind, inner, proper) ready =
      Ran-step depth here s op (gas ∷ target ∷ below) _
        (trace_of (suc depth) inside ++ trace_of depth rest) _ _ kind ready
        (Ran-call depth here here (address_text target) s _ (trace_of (suc depth) inside)
          (trace_of depth rest)
          (Stepped-of depth here s ready [] (address_text target ∷ []) _ (sym (append-nil _)) refl
            refl (omega arith))
          refl (Ran-trace inside (suc depth) here _ inner)
          (λ m r. Ran-trace rest depth here m proper r))
  Ran-trace (quiet op stack rest) depth here s (kind, proper) ready =
      Ran-step depth here s op stack _ (trace_of depth rest) _ _ kind ready (
        let step =
          Stepped-of depth here s ready [] [] _ (sym (append-nil _)) (sym (append-nil _)) refl
            ready.kept in
        Ran-trans step.ran
          (Ran-trace rest depth here _ proper (Ready-settle depth here _ step.next)))

-- `traced` reads out of the trace what the execution touches. Where the trace is that of the code of
-- `to`, run at depth 1, of a tree of calls in which nothing is created, `touched` gives the slots that
-- the tree says, in their order, each under the account whose storage it is - the target of a CALL or
-- STATICCALL, and the caller's own account for DELEGATECALL and CALLCODE - and the accounts that it
-- calls or looks at behind `to` and the sender. Calls that run no code, like those of plain accounts,
-- confuse nothing.
pub touched_lem :
    (to sender : Text) (e : Execution)
    → IsProper e
    → touched to sender (trace_of 1 e) ≡ (slots_of to e, to ∷ sender ∷ accounts_of e)
unfolding touched tracing
touched_lem to sender e proper =
    let start : Ready to 1 to (settle 1 (tracing to sender)) =
      unfold settle settle_with tracing context_at in record { known = refl; kept = tt } in
    let ran = Ran-trace to e 1 to (tracing to sender) proper start in
    λ i. (ran.slots_added i, ran.accounts_added i)
