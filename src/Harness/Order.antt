-- ===== src/Harness/Order.antt =====
-- The order in which harness/harness.c calls the functions of the benchmarks.
use mathlib.Core.List.{append-nil, append_assoc}
use mathlib.Core.Path.{ap₂}
use hyper_bench.Base.{
  ℕ, ◌<◌, ◌≡◌, refl, arith, some, List, [], ◌∷◌, ◌++◌, ◌∙◌, ap, ◌^◌, ltb, if◌then◌else◌, Bool, true,
  false,
}
use hyper_bench.Base.Int.{pos}
use hyper_bench.Printf.Digits.{int_buf-Shows}
use hyper_bench.Harness.{
  Benchmark, Phase, Event, init, control, kernel, cleanup, out, call, print, call_init,
  harness_execute, execute_all, left_field, wait_pinned, harness_main, heading, str_benchmark_begin,
  str_benchmark_end,
}

-- The calls among the events, with the printed bytes left out.
abbrev pub calls : List Event → List (Phase × Benchmark)
calls [] = []
calls (out c ∷ es) = calls es
calls (call p b ∷ es) = (p, b) ∷ calls es

-- What a run over the benchmarks is to call, in order.
abbrev pub init_phase : Benchmark → List (Phase × Benchmark)
init_phase b = if ltb 0 b.has_init then (init, b) ∷ [] else []

abbrev pub phases : List Benchmark → List (Phase × Benchmark)
phases [] = []
phases (b ∷ bs) = init_phase b ++ ((control, b) ∷ (kernel, b) ∷ (cleanup, b) ∷ phases bs)

-- Every count of iterations fits the `%ld` that prints it.
abbrev pub CountsFit : List Benchmark → Type 0
CountsFit [] = Unit {0}
CountsFit (b ∷ bs) = (b.iteration_count < 2 ^ 63) × CountsFit bs

calls-append : (es fs : List Event) → calls (es ++ fs) ≡ calls es ++ calls fs
calls-append [] fs = refl
calls-append (out c ∷ es) fs = calls-append es fs
calls-append (call p b ∷ es) fs = ap (◌∷◌ (p, b)) (calls-append es fs)

calls-print : (s : List ℕ) (es : List Event) → calls (print s ++ es) ≡ calls es
calls-print [] es = refl
calls-print (c ∷ s) es = calls-print s es

calls-call_init :
    (b : Benchmark) (es : List Event) → calls (call_init b ++ es) ≡ init_phase b ++ calls es
calls-call_init b es = go (ltb 0 b.has_init)
  where
    go :
        (t : Bool)
        → calls ((if t then call init b ∷ [] else []) ++ es)
          ≡ (if t then (init, b) ∷ [] else []) ++ calls es
    go true = refl
    go false = refl

-- `harness_execute` on a benchmark.
harness_execute-calls :
    (b : Benchmark)
    → b.iteration_count < 2 ^ 63
    → (es : List Event) × (harness_execute b ≡ some es)
      × (calls es ≡ init_phase b ++ ((control, b) ∷ (kernel, b) ∷ (cleanup, b) ∷ []))
unfolding harness_execute
harness_execute-calls b fits =
    let (digits, e, _, _) = int_buf-Shows (pos b.iteration_count) fits (omega arith) in
    let timed =
      print (b'{' ∷ [])
      ++ (call control b ∷ print (b'}' ∷ [])
          ++ (print (b'[' ∷ [])
              ++ (call kernel b ∷ print (b']' ∷ 13 ∷ 10 ∷ []) ++ (call cleanup b ∷ [])))) in
    let counted = print (left_field 10 digits) ++ timed in
    (
      print (left_field 15 b.category ++ left_field 15 b.name) ++ (call_init b ++ counted),
      rw e,
      calls-print (left_field 15 b.category ++ left_field 15 b.name) (call_init b ++ counted)
          ∙ calls-call_init b counted
          ∙ ap (λ cs. init_phase b ++ cs) (calls-print (left_field 10 digits) timed),
    )

-- When the counts of the benchmarks fit a `long`, the loop over them ends, and calls of each one,
-- in the order of the section, the function `init` where there is one, then `benchmark_control`,
-- `benchmark` and `cleanup`, each once.
pub execute_all-phases :
    (bs : List Benchmark)
    → CountsFit bs
    → (es : List Event) × (execute_all bs ≡ some es) × (calls es ≡ phases bs)
unfolding execute_all
execute_all-phases [] fit = ([], refl, refl)
execute_all-phases (b ∷ bs) fit =
    let (es, e, ce) = harness_execute-calls b fit.0 in
    let (fs, f, cf) = execute_all-phases bs fit.1 in
    (
      es ++ fs,
      rw e (rw f),
      calls-append es fs
          ∙ ap₂ ◌++◌ ce cf
          ∙ append_assoc (init_phase b) ((control, b) ∷ (kernel, b) ∷ (cleanup, b) ∷ [])
              (phases bs),
    )

-- When the counts of the benchmarks fit a `long` and once the wait for the pinning of the
-- processors is over, `harness_main` ends, and what it calls is what the loop over the benchmarks
-- calls.
pub harness_main-phases :
    (readings rest : List ℕ) (bs : List Benchmark)
    → wait_pinned readings ≡ some rest
    → CountsFit bs
    → (es : List Event) × (harness_main readings bs ≡ some es) × (calls es ≡ phases bs)
unfolding harness_main
harness_main-phases readings rest bs pinned fit =
    let (es, e, ce) = execute_all-phases bs fit in
    let tail = print str_benchmark_end ++ print str_benchmark_end in
    (
      print (b'*' ∷ 13 ∷ 10 ∷ []) ++ (print heading ++ (print str_benchmark_begin ++ (es ++ tail))),
      rw pinned (rw e),
      calls-print heading (print str_benchmark_begin ++ (es ++ tail))
          ∙ calls-print str_benchmark_begin (es ++ tail)
          ∙ calls-append es tail
          ∙ append-nil (calls es)
          ∙ ce,
    )
