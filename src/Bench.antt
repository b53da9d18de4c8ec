-- ===== src/Bench.antt =====
-- bench/gateway_http_ws_bench.cpp: the options, the percentiles, the shares of the mixed mode and the
-- figures. Connections are outside. Numbers of type `double` are a parameter.
pub mod Options
pub mod Workers
pub mod Accounting
pub mod Failing
pub mod Mixed
use kd.Base.{
  ℕ, suc, ◌-◌, Bool, true, false, ◌||◌, Option, none, some, List, [], ◌∷◌, Text, lit, str_eq, ℤ,
  pos, Result, leb, if◌then◌else◌, length, map, ◌++◌,
}
use kd.Json.{JsonApi}

-- What the program does with `double`: the ratio of its default and of an option, a share of a count
-- (`static_cast<int>(std::llround(static_cast<double>(n) * ratio))`), and the index of a percentile
-- (`static_cast<std::size_t>(std::clamp(pct, 0.0, 1.0) * static_cast<double>(n))`).
pub record Doubles : Type 1 where
  pub Double : Type 0
  pub half : Double
  pub p95 : Double
  pub p99 : Double
  pub stod : Text → Result Double
  pub clamp_unit : Double → Double
  pub share : Double → ℤ → ℤ
  pub index : Double → ℕ → ℕ

-- The defaults stand in `default_config` of Options.
pub record BenchConfig (d : Doubles) : Type 0 where
  pub mode : Text
  pub concurrency : ℤ
  pub requests : ℤ
  pub warmup : ℤ
  pub io_threads : ℤ
  pub mixed_http_ratio : d.Double
  pub ws_read_delay_ms : ℤ
  pub ws_message_interval_ms : ℤ
  pub output_file : Text

-- `std::sort`
unfoldable insert_sorted : ℕ → List ℕ → List ℕ
insert_sorted v [] = v ∷ []
insert_sorted v (w ∷ ws) = if leb v w then v ∷ w ∷ ws else w ∷ insert_sorted v ws

unfoldable sort : List ℕ → List ℕ
unfolding insert_sorted
sort [] = []
sort (v ∷ vs) = insert_sorted v (sort vs)

abbrev value_at : ℕ → List ℕ → ℕ
value_at i [] = 0
value_at ℕ.zero (v ∷ vs) = v
value_at (suc i) (v ∷ vs) = value_at i vs

-- Percentile
unfoldable pub percentile : (d : Doubles) → List ℕ → d.Double → ℕ
unfolding sort
percentile d [] pct = 0
percentile d (v ∷ vs) pct = value_at (d.index pct (length vs)) (sort (v ∷ vs))

pub record BenchStats : Type 0 where
  pub success : ℕ
  pub errors : ℕ
  pub p50_us : ℕ
  pub p95_us : ℕ
  pub p99_us : ℕ
