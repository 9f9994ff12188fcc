-- ===== src/Store/Slots.antt =====
-- The concurrency slots of a backend: `AcquireSlot` and `ReleaseSlot`.
use llmgateway.Prelude.{if◌then◌else◌, ◌↔◌, ◌⊎◌, ◌≡◌, refl, Bool, true, List, [], ◌∷◌, arith}
use llmgateway.Prelude.Int.{◌+ℤ◌, pos, add_int64, ◌≤ℤ◌, ◌<ℤ◌, IsInt64}
use llmgateway.Store.Backend.{Backend, acquire_slot, release_slot}

-- The number of requests in flight is a count, and stays within the limit if there is one.
pub record IsBounded (b : Backend) : Type 0 where
  pub nonneg : pos 0 ≤ℤ b.active_requests
  pub within :
      (b.max_concurrent_requests ≤ℤ pos 0) ⊎ (b.active_requests ≤ℤ b.max_concurrent_requests)

-- What a request does to the slots of its backend.
pub data SlotEvent : Type 0 where
  acquired : SlotEvent
  released : Bool → SlotEvent

unfoldable pub slot_step : SlotEvent → Backend → Backend
slot_step acquired b = (acquire_slot b).0
slot_step (released success) b = release_slot success b

unfoldable pub slot_run : List SlotEvent → Backend → Backend
slot_run [] b = b
slot_run (e ∷ es) b = slot_run es (slot_step e b)

acquire_slot-IsBounded :
    (b : Backend)
    → IsInt64 b.max_concurrent_requests
    → pos 0 <ℤ b.max_concurrent_requests
    → IsBounded b
    → IsBounded (acquire_slot b).0
unfolding acquire_slot add_int64
acquire_slot-IsBounded b m p v = ground arith

release_slot-IsBounded :
    (s : Bool) (b : Backend)
    → IsInt64 b.max_concurrent_requests
    → pos 0 <ℤ b.max_concurrent_requests
    → IsBounded b
    → IsBounded (release_slot s b)
unfolding release_slot add_int64
release_slot-IsBounded s b m p v = ground arith

-- What `AcquireSlot` and `ReleaseSlot` leave alone.
slot_step-max :
    (e : SlotEvent) (b : Backend)
    → (slot_step e b).max_concurrent_requests ≡ b.max_concurrent_requests
unfolding slot_step acquire_slot release_slot
slot_step-max acquired b = ground arith
slot_step-max (released s) b = refl

slot_step-IsBounded :
    (e : SlotEvent) (b : Backend)
    → IsInt64 b.max_concurrent_requests
    → pos 0 <ℤ b.max_concurrent_requests
    → IsBounded b
    → IsBounded (slot_step e b)
unfolding slot_step
slot_step-IsBounded acquired b m p v = acquire_slot-IsBounded b m p v
slot_step-IsBounded (released s) b m p v = release_slot-IsBounded s b m p v

-- On a backend with a positive limit, after any sequence of `AcquireSlot` and `ReleaseSlot`, from
-- a count between 0 and the limit, the number of requests in flight is again between 0 and the
-- limit.
pub slot_run-IsBounded :
    (es : List SlotEvent) (b : Backend)
    → IsInt64 b.max_concurrent_requests
    → pos 0 <ℤ b.max_concurrent_requests
    → IsBounded b
    → IsBounded (slot_run es b)
unfolding slot_run
slot_run-IsBounded [] b m p v = v
slot_run-IsBounded (e ∷ es) b m p v =
    let same = slot_step-max e b in
    slot_run-IsBounded es (slot_step e b) (rw same m) (rw same p) (slot_step-IsBounded e b m p v)

-- `AcquireSlot` grants a slot exactly when there is no limit or the limit is not reached. A grant
-- that is released gives back the number in flight that stood before, a refusal changes nothing.
-- The number in flight is not negative and fits the word with room for one more.
pub acquire-release :
    (b : Backend) (success : Bool)
    → pos 0 ≤ℤ b.active_requests
    → IsInt64 (b.active_requests +ℤ pos 1)
    → ((if (acquire_slot b).1
          then (release_slot success (acquire_slot b).0).active_requests
          else b.active_requests)
        ≡ b.active_requests)
      × ((if (acquire_slot b).1 then b else (acquire_slot b).0) ≡ b)
      × (((acquire_slot b).1 ≡ true) ↔ (
          (b.max_concurrent_requests ≤ℤ pos 0) ⊎ (b.active_requests <ℤ b.max_concurrent_requests)))
unfolding acquire_slot release_slot add_int64
acquire-release b success n r = (ground arith, ground arith, (ground arith, ground arith))
