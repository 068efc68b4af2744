-- ===== src/Bench.antt =====
-- src/benchmark/benchmark.cpp: what the benchmarks do to the components, and what they count. Times
-- and draws are arguments; the measured durations and the tables that are printed are left out.
pub mod Caching
pub mod Spread
pub mod Trips
pub mod Logging
pub mod Workers
use dist_cache.Prelude.{
  ℕ, suc, ◌≡◌, ◌≢◌, refl, sym, ap, ◌∙◌, ◌++◌, [], ◌∷◌, arith, All, All-append, All-map, false, ◌==◌,
}
use dist_cache.Text.{Text, codes}
use dist_cache.Text.Decimal.{to_string}
use dist_cache.Text.Numerals.{IsDigit, value, to_string-Spells}
use dist_cache.Text.Words.{IsWord, is_space}
use dist_cache.Text.Lines.{Lacks}
use dist_cache.Metrics
use dist_cache.Metrics.{increment_counter, record_latency, generate_json}
use dist_cache.Server.Requests.{digit_solid, digit_inline}

abbrev pub numbered_key : ℕ → Text
numbered_key i = codes "key" ++ to_string i

abbrev pub numbered_value : ℕ → Text
numbered_value i = codes "value" ++ to_string i

-- The report that `main` prints at the end.
unfoldable pub benchmark_report : {D : Type 0} → (D → D → D) → D → D → Text
unfolding increment_counter record_latency Metrics.init generate_json
benchmark_report add zero_latency ms = generate_json (
    increment_counter (codes "benchmark_completed")
      (record_latency add ms (Metrics.init zero_latency)))

to_string-inj : (i j : ℕ) → to_string i ≡ to_string j → i ≡ j
to_string-inj i j e = sym (to_string-Spells i).number ∙ ap (value 0) e ∙ (to_string-Spells j).number

-- Two numbers have two keys.
pub numbered_key-inj : (i j : ℕ) → numbered_key i ≡ numbered_key j → i ≡ j
numbered_key-inj i j e = to_string-inj i j (cc)

pub numbered_key-IsWord : (i : ℕ) → IsWord (numbered_key i)
unfolding is_space
numbered_key-IsWord i = (
  λ e. absurd cc,
  All-append (λ c. is_space c ≡ false) (codes "key") (to_string i) (refl, (refl, (refl, tt)))
      (All-map digit_solid (to_string i) (to_string-Spells i).digits),
)

pub numbered_value-Lacks : (i : ℕ) → Lacks b'\n' (numbered_value i)
numbered_value-Lacks i =
    All-append (λ c. (c == b'\n') ≡ false) (codes "value") (to_string i)
      (refl, (refl, (refl, (refl, (refl, tt)))))
      (All-map digit_inline (to_string i) (to_string-Spells i).digits)
