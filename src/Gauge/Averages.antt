-- ===== src/Gauge/Averages.antt =====
-- Runs of a `Gauge` (app/utils.h): which points the averages count.
use morphling_c.Base.{
  ℕ, zero, suc, ◌+◌, ◌-◌, ◌≡◌, ◌≤◌, ◌<◌, inl, inr, refl, sym, ap, ◌∙◌, false, List, [], ◌∷◌, ◌++◌,
  some, append-nil, append_assoc, length, length-append, get_elem?, take, drop, take-append,
  take-append-slice, take_all, ltb, Result, ok, or_fault, ◌>>=◌, Bool-cases, arith,
}
use morphling_c.Gauge.{
  Gauge, Report, total_time, loop_time, average_time, no_points, no_metrics, unequal, new_gauge,
  set_probe1, set_probe2, points_at, gather, average_time_us,
}

-- What happens to a gauge: a task begins or ends at some time, or the averages are asked for.
pub data Event : Type 0 where
  begins ends : ℕ → Event
  averages : Event

pub step : Gauge → Event → Result (Gauge × List Report)
step g (begins now) = ok ((set_probe1 now g).0, [])
step g (ends now) = ok ((set_probe2 now g).0, [])
step g averages = average_time_us g

pub run : Gauge → List Event → Result (Gauge × List Report)
run g [] = ok (g, [])
run g (e ∷ es) = do (g', now) ← step g e; (g'', later) ← run g' es; ok (g'', now ++ later)

-- No task ends that has not begun, with so many begun and so many of them ended.
abbrev pub Paired : ℕ → ℕ → List Event → Type 0
Paired begun ended [] = Unit {0}
Paired begun ended (begins now ∷ es) = Paired (suc begun) ended es
Paired begun ended (ends now ∷ es) = (ended < begun) × Paired begun (suc ended) es
Paired begun ended (averages ∷ es) = Paired begun ended es

-- All points that the averages count, in order.
abbrev pub averaged : List Report → List (ℕ × ℕ)
averaged [] = []
averaged (average_time ps ∷ rs) = ps ++ averaged rs
averaged (total_time n p ∷ rs) = averaged rs
averaged (loop_time n p ∷ rs) = averaged rs
averaged (no_points ∷ rs) = averaged rs
averaged (no_metrics ∷ rs) = averaged rs
averaged (unequal m n ∷ rs) = averaged rs

-- The begin and end of each of `n` tasks from task `i` on.
abbrev pub tasks : List ℕ → List ℕ → List (ℕ × ℕ)
tasks [] ends' = []
tasks (b ∷ bs) [] = []
tasks (b ∷ bs) (e ∷ es) = (b, e) ∷ tasks bs es

abbrev pub begun_at : List Event → List ℕ
begun_at [] = []
begun_at (begins now ∷ es) = now ∷ begun_at es
begun_at (ends now ∷ es) = begun_at es
begun_at (averages ∷ es) = begun_at es

abbrev pub ended_at : List Event → List ℕ
ended_at [] = []
ended_at (begins now ∷ es) = ended_at es
ended_at (ends now ∷ es) = now ∷ ended_at es
ended_at (averages ∷ es) = ended_at es

length-tasks : (bs es : List ℕ) → length es ≤ length bs → length (tasks bs es) ≡ length es
length-tasks [] [] h = refl
length-tasks [] (e ∷ es) h = absurd (omega arith)
length-tasks (b ∷ bs) [] h = refl
length-tasks (b ∷ bs) (e ∷ es) h = ap suc (length-tasks bs es (omega arith))

tasks-begin :
    (bs es : List ℕ) (b : ℕ) → length es ≤ length bs → tasks (bs ++ b ∷ []) es ≡ tasks bs es
tasks-begin [] [] b h = refl
tasks-begin [] (e ∷ es) b h = absurd (omega arith)
tasks-begin (x ∷ bs) [] b h = refl
tasks-begin (x ∷ bs) (e ∷ es) b h = ap (◌∷◌ (x, e)) (tasks-begin bs es b (omega arith))

tasks-end :
    (bs es : List ℕ) (e : ℕ)
    → length es < length bs
    → (b : ℕ) × (tasks bs (es ++ e ∷ []) ≡ tasks bs es ++ (b, e) ∷ [])
tasks-end [] es e h = absurd (omega arith)
tasks-end (b ∷ []) [] e h = (b, refl)
tasks-end (b ∷ c ∷ bs) [] e h = (b, refl)
tasks-end (b ∷ bs) (x ∷ es) e h =
    let (c, rest) = tasks-end bs es e (omega arith) in (c, ap (◌∷◌ (b, x)) rest)

get_elem?-tasks :
    (bs es : List ℕ) (i : ℕ)
    → i < length es
    → length es ≤ length bs
    → (b e : ℕ) × (get_elem? bs i ≡ some b)
      × (get_elem? es i ≡ some e)
      × (drop i (tasks bs es) ≡ (b, e) ∷ drop (suc i) (tasks bs es))
get_elem?-tasks bs [] i h le = absurd (omega arith)
get_elem?-tasks [] (e ∷ es) i h le = absurd (omega arith)
get_elem?-tasks (b ∷ bs) (e ∷ es) zero h le = (b, e, refl, refl, refl)
get_elem?-tasks (b ∷ bs) (e ∷ es) (suc i) h le = get_elem?-tasks bs es i (omega arith) (omega arith)

abbrev tasks_of : Gauge → List (ℕ × ℕ)
tasks_of g = tasks g.measure_probe1 g.measure_probe2

gather_lem :
    (g : Gauge) (i n : ℕ)
    → i + n ≤ length g.measure_probe2
    → length g.measure_probe2 ≤ length g.measure_probe1
    → gather g i n ≡ ok (take n (drop i (tasks_of g)))
unfolding gather points_at
gather_lem g i zero h le = refl
gather_lem g i (suc n) h le =
    let (b, e, at1, at2, next) =
      get_elem?-tasks g.measure_probe1 g.measure_probe2 i (omega arith) le in
    rw (at1, at2, or_fault, ◌>>=◌, gather_lem g (suc i) n (omega arith) le, next)

-- A gauge in use: what has ended has begun, and what has been counted has ended.
record InUse (g : Gauge) : Type 0 where
  enabled : g.disable ≡ false
  paired : length g.measure_probe2 ≤ length g.measure_probe1
  counted : g.last_calculate_idx ≤ length g.measure_probe2

-- What a run from `g` leaves: it has counted on.
record Counted (g g' : Gauge) (rs : List Report) (bs es : List ℕ) : Type 0 where
  in_use : InUse g'
  exactly :
      take g.last_calculate_idx (tasks_of g) ++ averaged rs
      ≡ take g'.last_calculate_idx (tasks_of g')
  begun : g'.measure_probe1 ≡ g.measure_probe1 ++ bs
  ended : g'.measure_probe2 ≡ g.measure_probe2 ++ es

average_time_us_lem :
    (g : Gauge)
    → InUse g
    → (rs : List Report) × (average_time_us g
        ≡ ok (record g { last_calculate_idx = length g.measure_probe2 }, rs))
      × (averaged rs
          ≡ take
              (length g.measure_probe2 - g.last_calculate_idx)
              (drop g.last_calculate_idx (tasks_of g)))
unfolding average_time_us gather
average_time_us_lem g u =
    let n = length g.measure_probe2 - g.last_calculate_idx in
    let all = gather_lem g g.last_calculate_idx n (omega (arith, u.counted)) u.paired in
    elim (Bool-cases (ltb 0 n)) [
      | inl more ↦ (
        average_time (take n (drop g.last_calculate_idx (tasks_of g))) ∷ [],
        rw (u.enabled, all, ◌>>=◌, more),
        append-nil _,
      )
      | inr done' ↦
          let nothing : n ≡ 0 = ground arith in
          (no_points ∷ [], rw (u.enabled, all, ◌>>=◌, done'), rw nothing)
    ]

average_time_us-Counted :
    (g : Gauge)
    → InUse g
    → (rs : List Report) × (average_time_us g
        ≡ ok (record g { last_calculate_idx = length g.measure_probe2 }, rs))
      × Counted g (record g { last_calculate_idx = length g.measure_probe2 }) rs [] []
average_time_us-Counted g u =
    let (rs, e, all) = average_time_us_lem g u in
    (
      rs,
      e,
      record {
        in_use = record { enabled = u.enabled; paired = u.paired; counted = omega arith };
        exactly =
            ap (◌++◌ (take g.last_calculate_idx (tasks_of g))) all
            ∙ take-append-slice g.last_calculate_idx _ (tasks_of g)
            ∙ ap (λ (n : ℕ). take n (tasks_of g)) (omega (arith, u.counted));
        begun = sym (append-nil g.measure_probe1);
        ended = sym (append-nil g.measure_probe2);
      },
    )

set_probe1_lem :
    (g : Gauge) (now : ℕ)
    → g.disable ≡ false
    → (set_probe1 now g).0 ≡ record g { measure_probe1 = g.measure_probe1 ++ now ∷ [] }
unfolding set_probe1
set_probe1_lem g now e = ground (arith, e)

pub set_probe2_lem :
    (g : Gauge) (now : ℕ)
    → g.disable ≡ false
    → (set_probe2 now g).0 ≡ record g { measure_probe2 = g.measure_probe2 ++ now ∷ [] }
unfolding set_probe2
set_probe2_lem g now e = ground (arith, e)

set_probe1-Counted :
    (g : Gauge) (now : ℕ) → InUse g → Counted g (set_probe1 now g).0 [] (now ∷ []) []
set_probe1-Counted g now u = rw (set_probe1_lem g now u.enabled) (record {
  in_use = record {
    enabled = u.enabled;
    paired = omega (arith, length-append g.measure_probe1 (now ∷ []), u.paired);
    counted = u.counted;
  };
  exactly =
      append-nil _
      ∙ ap (take g.last_calculate_idx)
          (sym (tasks-begin g.measure_probe1 g.measure_probe2 now u.paired));
  begun = refl;
  ended = sym (append-nil g.measure_probe2);
})

set_probe2-Counted :
    (g : Gauge) (now : ℕ)
    → InUse g
    → length g.measure_probe2 < length g.measure_probe1
    → Counted g (set_probe2 now g).0 [] [] (now ∷ [])
set_probe2-Counted g now u lt =
    let (b, more) = tasks-end g.measure_probe1 g.measure_probe2 now lt in
    rw (set_probe2_lem g now u.enabled) (record {
      in_use = record {
        enabled = u.enabled;
        paired = omega (arith, length-append g.measure_probe2 (now ∷ []), lt);
        counted = omega (arith, length-append g.measure_probe2 (now ∷ []), u.counted);
      };
      exactly =
          append-nil _
          ∙ sym (
              ap (take g.last_calculate_idx) more
              ∙ take-append g.last_calculate_idx (tasks_of g) ((b, now) ∷ []) (
                  omega
                    (arith, u.counted, length-tasks g.measure_probe1 g.measure_probe2 u.paired)));
      begun = sym (append-nil g.measure_probe1);
      ended = refl;
    })

averaged-append : (rs qs : List Report) → averaged (rs ++ qs) ≡ averaged rs ++ averaged qs
averaged-append [] qs = refl
averaged-append (average_time ps ∷ rs) qs = rw (averaged-append rs qs) (sym (append_assoc ps _ _))
averaged-append (total_time n p ∷ rs) qs = averaged-append rs qs
averaged-append (loop_time n p ∷ rs) qs = averaged-append rs qs
averaged-append (no_points ∷ rs) qs = averaged-append rs qs
averaged-append (no_metrics ∷ rs) qs = averaged-append rs qs
averaged-append (unequal m n ∷ rs) qs = averaged-append rs qs

-- A step, and then the rest.
Counted-then :
    (g g1 g2 : Gauge) (rs qs : List Report) (bs bs' es es' : List ℕ)
    → Counted g g1 rs bs es
    → Counted g1 g2 qs bs' es'
    → Counted g g2 (rs ++ qs) (bs ++ bs') (es ++ es')
Counted-then g g1 g2 rs qs bs bs' es es' c d = record {
  in_use = d.in_use;
  exactly =
      ap (◌++◌ (take g.last_calculate_idx (tasks_of g))) (averaged-append rs qs)
      ∙ sym (append_assoc (take g.last_calculate_idx (tasks_of g)) (averaged rs) (averaged qs))
      ∙ ap (λ (ps : List (ℕ × ℕ)). ps ++ averaged qs) c.exactly
      ∙ d.exactly;
  begun = d.begun ∙ ap (λ (xs : List ℕ). xs ++ bs') c.begun ∙ append_assoc g.measure_probe1 bs bs';
  ended = d.ended ∙ ap (λ (xs : List ℕ). xs ++ es') c.ended ∙ append_assoc g.measure_probe2 es es';
}

run-Counted :
    (es : List Event) (g : Gauge)
    → InUse g
    → Paired (length g.measure_probe1) (length g.measure_probe2) es
    → (g' : Gauge) × (rs : List Report) × (run g es ≡ ok (g', rs))
      × Counted g g' rs (begun_at es) (ended_at es)
unfolding run step
run-Counted [] g u p = (
  g,
  [],
  refl,
  record {
    in_use = u;
    exactly = append-nil _;
    begun = sym (append-nil g.measure_probe1);
    ended = sym (append-nil g.measure_probe2);
  },
)
run-Counted (begins now ∷ es) g u p =
    let c = set_probe1-Counted g now u in
    let one : length (set_probe1 now g).0.measure_probe1 ≡ suc (length g.measure_probe1) =
      ap length c.begun ∙ length-append g.measure_probe1 (now ∷ []) ∙ omega arith in
    let same : length (set_probe1 now g).0.measure_probe2 ≡ length g.measure_probe2 =
      ap length (c.ended ∙ append-nil g.measure_probe2) in
    let (g', rs, e, d) = run-Counted es (set_probe1 now g).0 c.in_use (rw (one, same) p) in
    (g', rs, rw (e, ◌>>=◌), Counted-then g _ g' [] rs (now ∷ []) (begun_at es) [] (ended_at es) c d)
run-Counted (ends now ∷ es) g u p =
    let c = set_probe2-Counted g now u p.0 in
    let one : length (set_probe2 now g).0.measure_probe2 ≡ suc (length g.measure_probe2) =
      ap length c.ended ∙ length-append g.measure_probe2 (now ∷ []) ∙ omega arith in
    let same : length (set_probe2 now g).0.measure_probe1 ≡ length g.measure_probe1 =
      ap length (c.begun ∙ append-nil g.measure_probe1) in
    let (g', rs, e, d) = run-Counted es (set_probe2 now g).0 c.in_use (rw (one, same) p.1) in
    (g', rs, rw (e, ◌>>=◌), Counted-then g _ g' [] rs [] (begun_at es) (now ∷ []) (ended_at es) c d)
run-Counted (averages ∷ es) g u p =
    let (now, e1, c) = average_time_us-Counted g u in
    let (g', rs, e, d) = run-Counted es _ c.in_use p in
    (
      g',
      now ++ rs,
      rw (e1, e, ◌>>=◌),
      Counted-then g _ g' now rs [] (begun_at es) [] (ended_at es) c d,
    )

-- A new gauge takes any run in which no task ends before it has begun, and at which the averages are
-- asked for any number of times and once more at the end. It does not fault, and the points that all
-- the averages count, one after the other, are the begin and end of every task that has ended,
-- each exactly once, in order.
pub averages_once :
    (es : List Event)
    → Paired 0 0 es
    → (g g' : Gauge) × (rs qs : List Report) × (run new_gauge es ≡ ok (g, rs))
      × (average_time_us g ≡ ok (g', qs))
      × (averaged rs ++ averaged qs ≡ tasks (begun_at es) (ended_at es))
unfolding new_gauge
averages_once es p =
    let (g, rs, e, c) =
      run-Counted es new_gauge
        (record { enabled = refl; paired = omega arith; counted = omega arith }) p in
    let (qs, e', d) = average_time_us-Counted g c.in_use in
    (
      g,
      _,
      rs,
      qs,
      e,
      e',
      ap (λ (ps : List (ℕ × ℕ)). ps ++ averaged qs) c.exactly
          ∙ d.exactly
          ∙ take_all (length g.measure_probe2) (tasks_of g)
              (omega (arith, length-tasks g.measure_probe1 g.measure_probe2 c.in_use.paired))
          ∙ rw (c.begun, c.ended),
    )
