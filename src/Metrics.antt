-- ===== src/Metrics.antt =====
-- MetricsRegistry of infrastructure/observability/metrics.cpp. The counters are `uint64_t` and wrap.
-- A method runs under the registry's mutex.
use kd.Base.{
  ℕ, ◌+◌, ◌%◌, ◌^◌, ◌≡◌, Text, lit, [], ◌∷◌, ◌++◌, Option, none, some, Dict, lookup, insert, str_eq,
  lookup-insert, if◌then◌else◌, show, Bool-cases, inl, inr,
}

abbrev pub Metrics : Type 0
Metrics = Dict ℕ

-- `g_counters[name]`: an absent counter starts at 0
abbrev pub or_zero : Option ℕ → ℕ
or_zero none = 0
or_zero (some n) = n

unfoldable pub counter : Text → Metrics → ℕ
counter name m = or_zero (lookup name m)

unfoldable pub increment : Text → ℕ → Metrics → Metrics
unfolding counter
increment name delta m = insert name ((counter name m + delta) % 2 ^ 64) m

unfoldable pub render_prometheus : Metrics → Text
render_prometheus [] = []
render_prometheus ((name, value) ∷ m) =
    lit "# TYPE "
    ++ (name
        ++ (lit " counter\n"
            ++ (name ++ (lit " " ++ (show value ++ (lit "\n" ++ render_prometheus m))))))

-- An increment adds to its own counter, modulo 2⁶⁴, and to no other.
pub counter-increment :
    (name k : Text) (delta : ℕ) (m : Metrics)
    → counter k (increment name delta m)
      ≡ (if str_eq name k then (counter name m + delta) % 2 ^ 64 else counter k m)
unfolding counter increment
counter-increment name k delta m = elim (Bool-cases (str_eq name k)) [
  | inl same ↦ rw (lookup-insert, same)
  | inr other ↦ rw (lookup-insert, other)
]
