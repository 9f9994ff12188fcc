-- ===== src/Queue/Calls.antt =====
-- The calls of `Acquire` on one scope, with every interleaving of their atomic actions.
use llmgateway.Prelude.{ℕ, suc, ◌≡◌, true, false, some}
use llmgateway.Queue.{Scope, arrive, try_send, leave, receive}

-- A scope, and how many calls wait in the `select`, have still to run their deferred subtraction,
-- and hold a place that they have to release.
pub record World : Type 0 where
  pub scope : Scope
  pub waiting : ℕ
  pub leaving : ℕ
  pub holding : ℕ

-- One atomic action of one call. `expire` is the timer or the end of the context.
pub data Step : World → World → Type 0 where
  enter :
      (w : World)
      → (arrive w.scope).1 ≡ true
      → Step w (record w { scope = (arrive w.scope).0; waiting = suc w.waiting })
  refuse :
      (w : World)
      → (arrive w.scope).1 ≡ false
      → Step w (record w { scope = (arrive w.scope).0; leaving = suc w.leaving })
  grant :
      (w : World) (s : Scope) (n : ℕ)
      → w.waiting ≡ suc n
      → try_send w.scope ≡ some s
      → Step w
          (record w { scope = s; waiting = n; leaving = suc w.leaving; holding = suc w.holding })
  expire :
      (w : World) (n : ℕ)
      → w.waiting ≡ suc n
      → Step w (record w { waiting = n; leaving = suc w.leaving })
  depart :
      (w : World) (n : ℕ)
      → w.leaving ≡ suc n
      → Step w (record w { scope = leave w.scope; leaving = n })
  finish :
      (w : World) (s : Scope) (n : ℕ)
      → w.holding ≡ suc n
      → receive w.scope ≡ some s
      → Step w (record w { scope = s; holding = n })

-- The worlds that `n` actions lead to.
pub data Reach (v : World) : ℕ → World → Type 0 where
  here : Reach v 0 v
  next : {n : ℕ} {w u : World} → Reach v n w → Step w u → Reach v (suc n) u

-- A scope on which nothing has happened.
abbrev pub fresh : Scope → World
fresh s = record { scope = s; waiting = 0; leaving = 0; holding = 0 }
