-- ===== src/Gauge.antt =====
-- The class `Gauge` of app/utils.h: two series of time points, and what is reported of them. A time
-- point is a number of nanoseconds; a report gives the points that it measures between, and the
-- conversion to fractions of milliseconds or microseconds is left out.
pub mod Averages
use morphling_c.Base.{
  ℕ, zero, suc, ◌+◌, ◌-◌, Bool, true, false, not, ◌||◌, List, [], ◌∷◌, ◌++◌, length, get_elem?,
  last_or, ltb, ◌==◌, if◌then◌else◌, Result, ok, out_of_range, or_fault, ◌>>=◌, ◌>>◌, guard,
}

pub record Gauge : Type 0 where
  pub measure_probe1 : List ℕ
  pub measure_probe2 : List ℕ
  pub disable : Bool
  pub last_calculate_idx : ℕ

-- What a method prints: the times between which it measures, in order, and what else it names.
pub data Report : Type 0 where
  total_time : ℕ → ℕ × ℕ → Report
  loop_time : ℕ → ℕ × ℕ → Report
  average_time : List (ℕ × ℕ) → Report
  no_points no_metrics : Report
  unequal : ℕ → ℕ → Report

-- The constructors.
unfoldable pub new_gauge : Gauge
new_gauge = record {
  measure_probe1 = [];
  measure_probe2 = [];
  disable = false;
  last_calculate_idx = 0;
}

-- `now` is what the clock says. Also the index of the point.
unfoldable pub set_probe1 : ℕ → Gauge → Gauge × ℕ
set_probe1 now g = if g.disable then (g, 0) else (
  record g { measure_probe1 = g.measure_probe1 ++ now ∷ [] },
  length (g.measure_probe1 ++ now ∷ []) - 1,
)

unfoldable pub set_probe2 : ℕ → Gauge → Gauge × ℕ
set_probe2 now g = if g.disable then (g, 0) else (
  record g { measure_probe2 = g.measure_probe2 ++ now ∷ [] },
  length (g.measure_probe2 ++ now ∷ []) - 1,
)

pub set_disable : Bool → Gauge → Gauge
set_disable b g = record g { disable = b }

-- From the first start to the last end.
pub total_time_ms : ℕ → Gauge → Result (List Report)
total_time_ms total_msg g =
    if g.disable
    then ok []
    else (if length g.measure_probe1 == 0 || length g.measure_probe2 == 0
        then ok (no_metrics ∷ [])
        else (do
          start ← or_fault (get_elem? g.measure_probe1 0) out_of_range
          end ← or_fault (get_elem? g.measure_probe2 (length g.measure_probe2 - 1)) out_of_range
          ok (total_time total_msg (start, end) ∷ [])))

-- The points of one index. One past the end of a vector is undefined.
unfoldable pub points_at : Gauge → ℕ → Result (ℕ × ℕ)
points_at g i = do
  end ← or_fault (get_elem? g.measure_probe2 i) out_of_range
  start ← or_fault (get_elem? g.measure_probe1 i) out_of_range
  ok (start, end)

-- The loop of `index_time_us` over `n` indices from `i` on.
pub loop_times : Gauge → ℕ → ℕ → Result (List Report)
loop_times g i zero = ok []
loop_times g i (suc n) = do
  p ← points_at g i
  rest ← loop_times g (suc i) n
  ok (loop_time i p ∷ rest)

pub index_time_us : Gauge → Result (List Report)
index_time_us g =
    if g.disable
    then ok []
    else (if not (length g.measure_probe1 == length g.measure_probe2)
        then ok (unequal (length g.measure_probe1) (length g.measure_probe2) ∷ [])
        else loop_times g 0 (length g.measure_probe1))

-- The last points. With no points `rbegin` refers to nothing.
unfoldable pub instant_time_us : Gauge → Result (List Report)
instant_time_us g =
    if g.disable
    then ok []
    else (if not (length g.measure_probe1 == length g.measure_probe2)
        then ok (unequal (length g.measure_probe1) (length g.measure_probe2) ∷ [])
        else (do
          guard (ltb 0 (length g.measure_probe1)) out_of_range
          p ← points_at g (length g.measure_probe1 - 1)
          ok (loop_time (length g.measure_probe1) p ∷ [])))

-- `instant_time_us(idx)`
unfoldable pub instant_time_at : ℕ → Gauge → Result (List Report)
instant_time_at idx g =
    if g.disable then ok [] else (do p ← points_at g idx; ok (loop_time idx p ∷ []))

-- The loop of `average_time_us` over `n` indices from `i` on; the sum is kept as its terms.
pub gather : Gauge → ℕ → ℕ → Result (List (ℕ × ℕ))
gather g i zero = ok []
gather g i (suc n) = do p ← points_at g i; rest ← gather g (suc i) n; ok (p ∷ rest)

-- The average of the points since the last call.
pub average_time_us : Gauge → Result (Gauge × List Report)
average_time_us g = if g.disable then ok (g, []) else (do
  let probes = length g.measure_probe2 - g.last_calculate_idx
  acc ← gather g g.last_calculate_idx probes
  ok (
    record g { last_calculate_idx = length g.measure_probe2 },
    (if ltb 0 probes then average_time acc else no_points) ∷ [],
  ))
