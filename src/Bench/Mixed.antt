-- ===== src/Bench/Mixed.antt =====
-- The figures of a run, and RunMixedBench of bench/gateway_http_ws_bench.cpp: how it shares requests
-- and workers out to the two protocols. The counts of a configuration that ParseArgs accepts are not
-- negative.
use kd.Base.{
  ℕ, ◌+◌, ◌-◌, ◌≤◌, ◌<◌, ◌≡◌, ◌&&◌, ◌==◌, ltb, ◌++◌, lit, ℤ, pos, negsuc, if◌then◌else◌, arith, [],
  ◌∷◌,
}
use kd.Json.{JsonApi}
use kd.Bench.{Doubles, BenchStats, percentile}
use kd.Bench.Workers.{Run}

-- `std::clamp(v, 0, most)`
abbrev clamped : (v : ℤ) → (most : ℕ) → ℕ
clamped (negsuc k) most = 0
clamped (pos k) most = if ltb most k then most else k

-- The workers of the two protocols, as they are corrected where one has requests and no worker.
unfoldable first_correction : (http_requests : ℕ) → ℕ × ℕ → ℕ × ℕ
first_correction http_requests (http, ws) =
    if ltb 0 http_requests && http == 0 then (1, if ltb 0 ws then ws - 1 else ws) else (http, ws)

unfoldable second_correction : (ws_requests : ℕ) → ℕ × ℕ → ℕ × ℕ
second_correction ws_requests (http, ws) =
    if ltb 0 ws_requests && ws == 0
    then ((if ltb 0 http then http - 1 else http), 1)
    else (http, ws)

module _ (d : Doubles) where
  -- The figures that both functions compute at their end; elapsed time and rate are left out.
  unfoldable stats_of : Run → BenchStats
  unfolding percentile
  stats_of r = record {
    success = r.success;
    errors = r.errors;
    p50_us = percentile d r.latencies d.half;
    p95_us = percentile d r.latencies d.p95;
    p99_us = percentile d r.latencies d.p99;
  }

  -- What HTTP gets of a count, and what is left for WebSocket.
  unfoldable shares : d.Double → (n : ℕ) → ℕ × ℕ
  shares ratio n = let http = clamped (d.share ratio (pos n)) n in (http, n - http)

  unfoldable worker_shares : d.Double → (requests concurrency : ℕ) → ℕ × ℕ
  unfolding shares first_correction second_correction
  worker_shares ratio requests concurrency =
      let asked = shares ratio requests in
      second_correction asked.1 (first_correction asked.0 (shares ratio concurrency))

  -- The figures of both protocols together
  unfoldable mixed_stats : (http ws : Run) → BenchStats
  unfolding percentile
  mixed_stats http ws = record {
    success = http.success + ws.success;
    errors = http.errors + ws.errors;
    p50_us = percentile d (http.latencies ++ ws.latencies) d.half;
    p95_us = percentile d (http.latencies ++ ws.latencies) d.p95;
    p99_us = percentile d (http.latencies ++ ws.latencies) d.p99;
  }

  module _ (api : JsonApi) where
    -- The members of BenchStatsToJson but for `elapsed_ms` and `qps`
    unfoldable bench_stats_to_json : BenchStats → api.Json
    bench_stats_to_json stats = api.object (
        (lit "success", api.number (pos stats.success))
        ∷ (lit "errors", api.number (pos stats.errors))
        ∷ (
          lit "latency_us",
          api.object (
              (lit "p50", api.number (pos stats.p50_us))
              ∷ (lit "p95", api.number (pos stats.p95_us))
              ∷ (lit "p99", api.number (pos stats.p99_us))
              ∷ []),
        )
        ∷ [])

  shares-whole : (ratio : d.Double) (n : ℕ) → (shares ratio n).0 + (shares ratio n).1 ≡ n
  unfolding shares
  shares-whole ratio n = ground arith

  -- The corrections keep the number of workers. From two workers on, a protocol that has requests has
  -- a worker; a single one goes to WebSocket, where both have requests, and HTTP has none.
  worker_shares_lem :
      (ratio : d.Double) (requests concurrency : ℕ)
      → 1 ≤ concurrency
      → let asked = shares ratio requests in
        let workers = worker_shares ratio requests concurrency in
        (workers.0 + workers.1 ≡ concurrency)
        × (2 ≤ concurrency → 0 < asked.0 → 0 < workers.0)
        × (2 ≤ concurrency → 0 < asked.1 → 0 < workers.1)
        × (concurrency ≡ 1 → 0 < asked.0 → 0 < asked.1 → workers.0 ≡ 0)
  unfolding worker_shares first_correction second_correction
  worker_shares_lem ratio requests concurrency some_worker =
      let whole = shares-whole ratio concurrency in ground (arith, whole)
