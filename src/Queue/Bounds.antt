-- ===== src/Queue/Bounds.antt =====
-- The bounds of the queue, and that no call is stuck in it.
use llmgateway.Prelude.{
  ◌⊎◌, inl, inr, ◌==◌, ltb, Bool-cases, ℕ, zero, suc, ◌+◌, ◌≤◌, ◌<◌, ◌≡◌, refl, some, arith,
}
use llmgateway.Prelude.Int.{pos, inc-pos, dec-pos, int64_half, ◌≤ℤ◌}
use llmgateway.Queue.{Scope, Manager, new_scope, arrive, try_send, leave, pop_token, receive}
use llmgateway.Queue.Calls.{
  World, Step, enter, refuse, grant, expire, depart, finish, Reach, here, next, fresh,
}

-- The counters of the scope agree with the calls, which stay within the bounds of the scope `s`,
-- after at most `n` actions.
pub record Agrees (s : Scope) (n : ℕ) (w : World) : Type 0 where
  pub counted : w.scope.queued ≡ pos (w.waiting + w.leaving)
  pub tokens : w.scope.sem ≡ w.holding
  pub running : w.holding ≤ s.max_conc
  pub queue : (s.max_size ≤ℤ pos 0) ⊎ (pos w.waiting ≤ℤ s.max_size)
  pub same_conc : w.scope.max_conc ≡ s.max_conc
  pub same_size : w.scope.max_size ≡ s.max_size
  pub few : w.waiting + w.leaving ≤ n

pop_token-some : (n : ℕ) (s : Scope) → 0 < n → (t : Scope) × (pop_token n s ≡ some t)
unfolding pop_token
pop_token-some zero s h = absurd (omega arith)
pop_token-some (suc n) s h = (record s { sem = n }, refl)

new_scope-places : (m : Manager) → 0 < (new_scope m).max_conc
unfolding new_scope
new_scope-places m = ground arith

Step-Agrees :
    {s : Scope} {n : ℕ} {w u : World}
    → suc n < int64_half
    → Step w u
    → Agrees s n w
    → Agrees s (suc n) u
unfolding arrive try_send leave receive
Step-Agrees h (enter w e) v = record {
  counted = ground (arith, v, inc-pos (w.waiting + w.leaving));
  tokens = ground (arith, v);
  running = ground (arith, v);
  queue = ground (arith, v, inc-pos (w.waiting + w.leaving));
  same_conc = ground (arith, v);
  same_size = ground (arith, v);
  few = ground (arith, v);
}
Step-Agrees h (refuse w e) v = record {
  counted = ground (arith, v, inc-pos (w.waiting + w.leaving));
  tokens = ground (arith, v);
  running = ground (arith, v);
  queue = ground (arith, v);
  same_conc = ground (arith, v);
  same_size = ground (arith, v);
  few = ground (arith, v);
}
Step-Agrees h (grant w s k e f) v = record {
  counted = ground (arith, v);
  tokens = ground (arith, v);
  running = ground (arith, v);
  queue = ground (arith, v);
  same_conc = ground (arith, v);
  same_size = ground (arith, v);
  few = ground (arith, v);
}
Step-Agrees h (expire w k e) v = record {
  counted = ground (arith, v);
  tokens = v.tokens;
  running = v.running;
  queue = ground (arith, v);
  same_conc = v.same_conc;
  same_size = v.same_size;
  few = ground (arith, v);
}
Step-Agrees h (depart w k e) v = record {
  counted = ground (arith, v, dec-pos (w.waiting + k));
  tokens = v.tokens;
  running = v.running;
  queue = v.queue;
  same_conc = v.same_conc;
  same_size = v.same_size;
  few = ground (arith, v);
}
Step-Agrees h (finish w s k e f) v = record {
  counted = ground (arith, v);
  tokens = ground (arith, v);
  running = ground (arith, v);
  queue = ground (arith, v);
  same_conc = ground (arith, v);
  same_size = ground (arith, v);
  few = ground (arith, v);
}

-- From a new scope, through every interleaving of fewer than 2^63 atomic actions of any calls of
-- `Acquire` and their releases: the counter `queued` is the number of calls that have not returned,
-- the channel holds a token for each place given out, no more places are given out than the scope
-- has, and, where it has a maximal size, no more calls wait than that.
pub Reach-Agrees :
    (m : Manager) (n : ℕ) (w : World)
    → Reach (fresh (new_scope m)) n w
    → n < int64_half
    → Agrees (new_scope m) n w
unfolding new_scope
Reach-Agrees m n w here h = record {
  counted = refl;
  tokens = refl;
  running = omega arith;
  queue = ground arith;
  same_conc = refl;
  same_size = refl;
  few = omega arith;
}
Reach-Agrees m n w (next r st) h = Step-Agrees h st (Reach-Agrees m _ _ r (omega arith))

-- Nothing blocks for good, after fewer than 2^63 actions from a new scope: a release always finds
-- its token, and whenever fewer places are held than the scope has (it has at least one), a send
-- on the channel succeeds, so a waiting call can have a place.
pub Reach-progress :
    (m : Manager) (n : ℕ) (w : World)
    → Reach (fresh (new_scope m)) n w
    → n < int64_half
    → ((w.holding ≡ 0) ⊎ ((s : Scope) × (receive w.scope ≡ some s)))
      × (((new_scope m).max_conc ≤ w.holding) ⊎ ((s : Scope) × (try_send w.scope ≡ some s)))
      × (0 < (new_scope m).max_conc)
unfolding receive try_send
Reach-progress m n w r h =
    let v = Reach-Agrees m n w r h in
    (
      elim (Bool-cases (w.holding == 0)) [
        | inl e ↦ inl (ground arith)
        | inr e ↦ inr (pop_token-some w.scope.sem w.scope (ground (arith, v)))
      ],
      elim (Bool-cases (ltb w.scope.sem w.scope.max_conc)) [
        | inl e ↦ inr (record w.scope { sem = suc w.scope.sem }, ground (arith, e))
        | inr e ↦ inl (ground (arith, v, e))
      ],
      new_scope-places m,
    )
