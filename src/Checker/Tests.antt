-- ===== src/Checker/Tests.antt =====
-- A rescan of a checker with two loops, and a refused probe.
use llmgateway.Prelude.{◌≡◌, refl, true, [], ◌∷◌, String}
use llmgateway.Prelude.Dict.{lookup}
use llmgateway.Checker.{Checker, rescan}
use llmgateway.Checker.Loops.{Tracked}
use llmgateway.Checker.Scanned.{has_loop, is_among, rescan-Tracked}

abbrev two_loops : Checker
two_loops = record {
  loops = ("a", 0) ∷ ("gone", 1) ∷ [];
  running = (1, "gone") ∷ (0, "a") ∷ [];
  made = 2;
  started = true;
}

rescan-Tracked_example :
    ((k : String) → has_loop k (rescan ("a" ∷ "b" ∷ []) two_loops) ≡ is_among ("a" ∷ "b" ∷ []) k)
    × Tracked (rescan ("a" ∷ "b" ∷ []) two_loops)
unfolding lookup
rescan-Tracked_example = rescan-Tracked ("a" ∷ "b" ∷ []) two_loops refl (refl, (refl, tt))
