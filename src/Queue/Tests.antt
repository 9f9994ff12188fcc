-- ===== src/Queue/Tests.antt =====
-- A short run of the queue.
use llmgateway.Prelude.{◌<◌, ◌≤◌, ◌⊎◌, ◌≡◌, refl, [], some, arith}
use llmgateway.Prelude.Int.{pos, add_int64}
use llmgateway.Queue.{Manager, Scope, new_scope, arrive, try_send, receive}
use llmgateway.Queue.Calls.{World, Reach, here, next, enter, grant, fresh}
use llmgateway.Queue.Bounds.{Agrees, Reach-Agrees, Reach-progress}

abbrev one_place : Manager
one_place = record {
  scopes = [];
  default_timeout = pos 50;
  default_max_size = pos 2;
  default_max_conc = pos 1;
}

-- One call has arrived and has its place, and has still to leave the queue.
abbrev served : World
served = record {
  scope = record { sem = 1; max_size = pos 2; queued = pos 1; max_conc = 1; default_wait = pos 50 };
  waiting = 0;
  leaving = 1;
  holding = 1;
}

abbrev arrived : World
arrived = record {
  scope = record { sem = 0; max_size = pos 2; queued = pos 1; max_conc = 1; default_wait = pos 50 };
  waiting = 1;
  leaving = 0;
  holding = 0;
}

to_served : Reach (fresh (new_scope one_place)) 2 served
unfolding new_scope arrive try_send add_int64
to_served =
    next {w = arrived} (next here (enter (fresh (new_scope one_place)) refl))
      (grant arrived served.scope 0 refl refl)

Reach-Agrees_example : Agrees (new_scope one_place) 2 served
Reach-Agrees_example = Reach-Agrees one_place 2 served to_served (omega arith)

Reach-progress_example :
    ((served.holding ≡ 0) ⊎ ((s : Scope) × (receive served.scope ≡ some s)))
    × (((new_scope one_place).max_conc ≤ served.holding)
        ⊎ ((s : Scope) × (try_send served.scope ≡ some s)))
    × (0 < (new_scope one_place).max_conc)
Reach-progress_example = Reach-progress one_place 2 served to_served (omega arith)
