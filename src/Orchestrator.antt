-- ===== src/Orchestrator.antt =====
-- internal/orchestrator: the pool of workers, who may see a request, who answers it, and the stages
-- of the conductor. Go's floating-point numbers are an interface, `Floats`. The answers of the
-- workers are an argument: `call` gives the answer to each call of `callWorker`, in their order.
pub mod Select
pub mod Conductor
pub mod Stages
pub mod Promises
pub mod Pick
mod Tests
use Prim.Native.Char.{code}
use llmgateway.Prelude.{
  ℕ, ◌+◌, ◌≡◌, ◌==◌, Bool, true, false, not, ◌&&◌, List, [], ◌∷◌, Option, none, some, String,
  str_eq, any, keep_if, leb, if◌then◌else◌,
}
use llmgateway.Prelude.Int.{ℤ, pos, ltb_ℤ, is_pos}

-- What the sources use of `float64`: `==`, `>` and the arithmetic. Greater-than is transitive and
-- irreflexive, also where a value is not a number. `lowest` is -1e18.
pub record Floats : Type 1 where
  pub Carrier : Type 0
  pub add : Carrier → Carrier → Carrier
  pub sub : Carrier → Carrier → Carrier
  pub mul : Carrier → Carrier → Carrier
  pub gt : Carrier → Carrier → Bool
  pub is_nought : Carrier → Bool
  pub half : Carrier
  pub one : Carrier
  pub lowest : Carrier
  pub gt_trans : (x y z : Carrier) → gt x y ≡ true → gt y z ≡ true → gt x z ≡ true
  pub gt_irrefl : (x : Carrier) → gt x x ≡ false

-- `unicode.SimpleFold` as far as an ASCII text can tell: the capitals, the long s and the kelvin
-- sign.
unfoldable pub fold : ℕ → ℕ
fold c =
    if leb b'A' c && leb c b'Z'
    then c + 32
    else if c == 0x17f
    then b's'
    else if c == 0x212a
    then b'k'
    else c

-- `strings.EqualFold(s, v)` for an ASCII text `v`, as the task labels are.
unfoldable pub equal_fold : String → String → Bool
unfolding fold
equal_fold String.[] String.[] = true
equal_fold (String.◌∷◌ c s) (String.◌∷◌ d v) = fold (code c) == fold (code d) && equal_fold s v
equal_fold _ _ = false

-- `containsFold(list, v)`
unfoldable pub contains_fold : List String → String → Bool
unfolding equal_fold
contains_fold list v = any (λ s. equal_fold s v) list

module _ (F : Floats) where
  -- `OrchestrationWorker`
  pub record Worker : Type 0 where
    pub id : String
    pub model : String
    pub tasks : List String
    pub strength : F.Carrier
    pub cost : F.Carrier
    pub secret_max_level : ℤ
    pub tags : List String

  -- The test of the loop of `eligibleWorkers`, for a level that is not negative.
  unfoldable pub may_process : ℤ → Worker → Bool
  may_process level w = not (is_pos w.secret_max_level && ltb_ℤ w.secret_max_level level)

  -- `eligibleWorkers(secretLevel)`
  unfoldable pub eligible_workers : ℤ → List Worker → List Worker
  unfolding may_process
  eligible_workers level workers =
      let clamped = if ltb_ℤ level (pos 0) then pos 0 else level in
      keep_if (may_process clamped) workers

  unfoldable pub worker_strength : Worker → F.Carrier
  worker_strength w = if F.is_nought w.strength then F.half else w.strength

  -- The loop that `selectWorker`, `strongestWorker` and `selectVerifier` share, with `best` and
  -- `bestScore`.
  unfoldable pub argmax :
      (Worker → F.Carrier) → Option Worker → F.Carrier → List Worker → Option Worker
  argmax score best best_score [] = best
  argmax score best best_score (w ∷ ws) =
      let better = F.gt (score w) best_score in
      argmax score (if better then some w else best) (if better then score w else best_score) ws

  -- The score of `selectWorker`.
  unfoldable pub task_score : F.Carrier → String → Worker → F.Carrier
  unfolding worker_strength contains_fold
  task_score cost_penalty task w =
      let score = F.sub (worker_strength w) (F.mul cost_penalty w.cost) in
      if contains_fold w.tasks task then F.add score F.one else score

  unfoldable pub select_worker : F.Carrier → String → List Worker → Option Worker
  unfolding task_score argmax
  select_worker cost_penalty task eligible =
      argmax (task_score cost_penalty task) none F.lowest eligible

  unfoldable pub strongest_worker : List Worker → Option Worker
  unfolding worker_strength argmax
  strongest_worker eligible = argmax worker_strength none F.lowest eligible

  -- The score of `selectVerifier`.
  unfoldable pub verify_score : Worker → F.Carrier
  unfolding worker_strength contains_fold
  verify_score w =
      if contains_fold w.tasks "verify" then F.add (worker_strength w) F.one else worker_strength w

  -- `selectVerifier(producer, eligible)`. The loop passes the workers with the producer's id.
  unfoldable pub select_verifier : Worker → List Worker → Worker
  unfolding verify_score argmax
  select_verifier producer eligible =
      elim (argmax verify_score none F.lowest
        (keep_if (λ w. not (str_eq w.id producer.id)) eligible)) [ some w ↦ w | none ↦ producer ]

  -- `solver`, and `w` of the router: the choice for the task, else the strongest.
  unfoldable pub solver_of : F.Carrier → String → List Worker → Option Worker
  unfolding select_worker strongest_worker
  solver_of cost_penalty task eligible = elim (select_worker cost_penalty task eligible) [
    | some w ↦ some w
    | none ↦ strongest_worker eligible
  ]
