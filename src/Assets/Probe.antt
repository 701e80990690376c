-- ===== src/Assets/Probe.antt =====
-- The connection test of a stored asset (asset_service.go: TestConnection and simulateLatency).
use bonipam.Common.{
  String, ◌≡◌, refl, true, some, arith, ◌==◌, ok, Result-cases, Bool-cases, inl, inr,
}
use bonipam.Common.Int.{ℤ, pos, negsuc, ◌≤ℤ◌, ◌+ℤ◌}
use bonipam.Go.Map.{get}
use bonipam.Go.Time.{Time}
use bonipam.Assets.Types.{Asset, TestAssetConnectionResult, AssetService}
use bonipam.Assets.Metadata.{clean, validate_connection_metadata}
use bonipam.Assets.Service.{
  is_port, simulate_latency, timeout_used, is_failing_host, connection_result, test_connection,
}
use bonipam.Assets.Checked.{IsChecked-accepted}
use bonipam.Assets.Valid.{HasValidAssets}

timeout_used-bounds : (t : ℤ) → (pos 1 ≤ℤ timeout_used t) × (timeout_used t ≤ℤ pos 15)
unfolding timeout_used
timeout_used-bounds (pos n) = (ground arith, ground arith)
timeout_used-bounds (negsuc n) = (ground arith, ground arith)

simulate_latency-bounds :
    (host : String) (port timeout : ℤ)
    → is_port port ≡ true
    → pos 1 ≤ℤ timeout
    → (pos 10 ≤ℤ simulate_latency host port timeout)
      × (simulate_latency host port timeout ≤ℤ pos 129)
unfolding simulate_latency ◌+ℤ◌
simulate_latency-bounds host (pos p) (pos t) in_range high = (ground arith, ground arith)
simulate_latency-bounds host (negsuc p) t in_range high = absurd (ground arith)
simulate_latency-bounds host (pos p) (negsuc t) in_range high = absurd (ground arith)

-- TestConnection of a stored asset in a service with valid assets: its metadata passes the check, and
-- the result names the asset, has used a timeout from 1 to 15 seconds and a latency from 10 to 129
-- milliseconds, and is a failure exactly for the hosts that count as failing.
pub test_connection-answers :
    (s : AssetService) (k : String) (a : Asset) (timeout_seconds : ℤ) (now : Time)
    → HasValidAssets s.assets
    → get s.assets k ≡ some a
    → (r : TestAssetConnectionResult) × (test_connection s k timeout_seconds now ≡ ok r)
      × (r.asset_id ≡ k)
      × (pos 1 ≤ℤ r.timeout_used_s)
      × (r.timeout_used_s ≤ℤ pos 15)
      × (pos 10 ≤ℤ r.latency_ms)
      × (r.latency_ms ≤ℤ pos 129)
      × ((r.status == "failed") ≡ is_failing_host (clean a.host))
unfolding test_connection connection_result
test_connection-answers s k a timeout_seconds now v at =
    let (id, valid) = v.valid k a at in
    let timeout = timeout_used timeout_seconds in
    let (low, high) = timeout_used-bounds timeout_seconds in
    let (fast, slow) = simulate_latency-bounds a.host a.port timeout valid.port_in_range low in
    let passes = IsChecked-accepted a.asset_type a.connection_metadata valid.metadata in
    (
      connection_result a timeout now,
      elim (Result-cases (validate_connection_metadata a.asset_type a.connection_metadata)) [
        | inl (m, accepted) ↦ rw (at, accepted, test_connection) refl
        | inr (e, refused) ↦ absurd (ground arith)
      ],
      id,
      low,
      high,
      fast,
      slow,
      elim (Bool-cases (is_failing_host (clean a.host))) [
        | inl failing ↦ rw failing refl
        | inr working ↦ rw working refl
      ],
    )
