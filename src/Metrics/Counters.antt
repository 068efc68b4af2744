-- ===== src/Metrics/Counters.antt =====
-- The named counters of MetricsCollector.h.
use dist_cache.Prelude.{◌≡◌, ap, ◌∙◌, refl, false}
use dist_cache.Text.{Text}
use dist_cache.Text.Order.{text_order}
use dist_cache.OrdMap.{equivalent}
use dist_cache.OrdMap.Find.{find-insert, equivalent_refl}
use dist_cache.Breaker.{increment}
use dist_cache.Metrics.{Metrics, counter, count_of, increment_counter}

pub counter-increment :
    {D : Type 0} (name : Text) (m : Metrics D)
    → counter name (increment_counter name m) ≡ increment (counter name m)
unfolding counter increment_counter
counter-increment name m =
    ap count_of (find-insert text_order name name _ m.counters)
    ∙ rw (equivalent_refl text_order name) refl

pub counter-other :
    {D : Type 0} (name other : Text) (m : Metrics D)
    → equivalent text_order name other ≡ false
    → counter name (increment_counter other m) ≡ counter name m
unfolding counter increment_counter
counter-other name other m h =
    ap count_of (find-insert text_order name other _ m.counters) ∙ rw h refl
