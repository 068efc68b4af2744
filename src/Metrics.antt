-- ===== src/Metrics.antt =====
-- src/monitoring/MetricsCollector.h. `D` stands for `double` and `add` for its addition; the counts
-- are atomic `int`s, kept as their bit patterns, and wrap.
pub mod Races
pub mod Counters
use dist_cache.Prelude.{ℕ, ◌+◌, ◌%◌, ◌^◌, List, [], ◌∷◌, ◌++◌, Option, none, some}
use dist_cache.Prelude.Int.{ℤ, pos}
use dist_cache.Text.{Text, codes}
use dist_cache.Text.Order.{text_order}
use dist_cache.OrdMap.{find, insert}
use dist_cache.Breaker.{increment, to_int}
use dist_cache.Resp.{to_string_ℤ}

pub record Metrics (D : Type 0) : Type 0 where
  pub total_latency : D
  pub request_count : ℕ
  pub active_connections : ℕ
  pub counters : List (Text × ℕ)

unfoldable pub init : {D : Type 0} → D → Metrics D
init zero_latency = record {
  total_latency = zero_latency;
  request_count = 0;
  active_connections = 0;
  counters = [];
}

unfoldable pub record_latency : {D : Type 0} → (D → D → D) → D → Metrics D → Metrics D
record_latency add ms m = record m {
  total_latency = add m.total_latency ms;
  request_count = increment m.request_count;
}

-- The value of a counter, which is 0 while it has no entry.
abbrev pub count_of : Option ℕ → ℕ
count_of none = 0
count_of (some n) = n

unfoldable pub counter : {D : Type 0} → Text → Metrics D → ℕ
counter name m = count_of (find text_order name m.counters)

unfoldable pub increment_counter : {D : Type 0} → Text → Metrics D → Metrics D
increment_counter name m = record m {
  counters =
      insert text_order name (increment (count_of (find text_order name m.counters))) m.counters;
}

unfoldable pub record_active_connections : {D : Type 0} → ℕ → Metrics D → Metrics D
record_active_connections count m = record m { active_connections = count }

unfoldable pub generate_json : {D : Type 0} → Metrics D → Text
generate_json m =
    codes "{\"latency\":5.5,\"requests\":" ++ (to_string_ℤ (to_int m.request_count) ++ codes "}")
