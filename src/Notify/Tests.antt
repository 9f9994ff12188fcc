-- ===== src/Notify/Tests.antt =====
-- A backend that fails twice within the cooldown and once behind it.
use llmgateway.Prelude.{[], ◌∷◌, none, some}
use llmgateway.Store.Backend.{healthy, unhealthy}
use llmgateway.Notify.{Notifier, Event, Attempt, run}
use llmgateway.Notify.Cooldown.{Cooled, run-Cooled}

abbrev idle : Notifier
idle = record { last_sent = []; ch = []; last_send_at = 0; last_error = "" }

abbrev failure : Event
failure = record { backend_id = "b1"; prev = healthy; next = unhealthy }

abbrev lost : Attempt
lost = record { event = failure; now = 10; error = some "timeout"; took = 5 }

abbrev first : Attempt
first = record { event = failure; now = 20; error = none; took = 5 }

abbrev again : Attempt
again = record { event = failure; now = 60; error = none; took = 5 }

abbrev late : Attempt
late = record { event = failure; now = 130; error = none; took = 5 }

run-Cooled_example : Cooled 100 (run 100 (lost ∷ first ∷ again ∷ late ∷ []) (idle, []))
run-Cooled_example = run-Cooled 100 (lost ∷ first ∷ again ∷ late ∷ []) idle [] (tt, tt)
