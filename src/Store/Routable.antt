-- ===== src/Store/Routable.antt =====
-- `FilterRoutable`: which backends may take a request.
use llmgateway.Prelude.{◌≡◌, ◌≢◌, ◌↔◌, ◌⊎◌, Bool, true, List, arith, In, keep_if-In, In-keep_if}
use llmgateway.Prelude.Int.{pos, ◌≤ℤ◌, ◌<ℤ◌}
use llmgateway.Store.Backend.{
  Backend, healthy, unknown, degraded, empty, is_routable, filter_routable, acquire_slot,
}

-- The rules that the comment on `FilterRoutable` lists.
pub record MayRoute (allow_degraded : Bool) (b : Backend) : Type 0 where
  pub is_enabled : b.enabled ≡ true
  pub state :
      (b.status ≡ healthy)
      ⊎ (b.status ≡ unknown)
      ⊎ (b.status ≡ empty)
      ⊎ ((b.status ≡ degraded) × (allow_degraded ≡ true))
  pub not_drained : b.weight ≢ pos 0
  pub room : (b.max_concurrent_requests ≤ℤ pos 0) ⊎ (b.active_requests <ℤ b.max_concurrent_requests)

is_routable-MayRoute : (a : Bool) (b : Backend) → is_routable a b ≡ true → MayRoute a b
unfolding is_routable
is_routable-MayRoute a b h = record {
  is_enabled = ground arith;
  state = ground arith;
  not_drained = ground arith;
  room = ground arith;
}

MayRoute-is_routable : (a : Bool) (b : Backend) → MayRoute a b → is_routable a b ≡ true
unfolding is_routable
MayRoute-is_routable a b v = ground arith

-- `FilterRoutable` keeps exactly the backends of its input that are enabled, healthy, not yet
-- probed, or degraded where degraded backends are allowed, not drained, and below their limit.
pub filter_routable-MayRoute :
    (a : Bool) (b : Backend) (bs : List Backend)
    → In b (filter_routable a bs) ↔ (In b bs × MayRoute a b)
unfolding filter_routable
filter_routable-MayRoute a b bs = (
  λ h. let (m, r) = keep_if-In (is_routable a) b bs h in (m, is_routable-MayRoute a b r),
  λ h. In-keep_if (is_routable a) b bs h.0 (MayRoute-is_routable a b h.1),
)

-- A backend that `FilterRoutable` lets through grants a slot, if no other request comes between.
pub acquire_slot-filter_routable :
    (a : Bool) (b : Backend) (bs : List Backend)
    → In b (filter_routable a bs)
    → (acquire_slot b).1 ≡ true
unfolding acquire_slot
acquire_slot-filter_routable a b bs h =
    let v = ((filter_routable-MayRoute a b bs).0 h).1 in ground (arith, v.room)
