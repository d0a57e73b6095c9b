-- ===== src/Harness.antt =====
-- harness/harness.c without __BARE_METAL, and `benchmark_t` of include/benchmark.h. What the harness
-- does is the list of its events in order: bytes that it prints and calls of a benchmark's functions.
pub mod Order
use hyper_bench.Base.{
  ℕ, zero, suc, ◌+◌, ◌-◌, ◌%◌, ◌^◌, ◌*◌, ◌<◌, true, false, Option, none, some, List, [], ◌∷◌, ◌++◌,
  map, ltb, if◌then◌else◌, ◌>>=◌,
}
use hyper_bench.Base.Int.{ℤ, pos, negsuc}
use hyper_bench.Printf.{int_buf, StrProps}
use hyper_bench.Printf.Stream.{padded}

-- `benchmark_t`, less the four function pointers: they are the phases of a call.
pub record Benchmark : Type 0 where
  pub name : List ℕ
  pub category : List ℕ
  pub has_init : ℕ
  pub iteration_count : ℕ

pub data Phase : Type 0 where
  init control kernel cleanup : Phase

pub data Event : Type 0 where
  out : ℕ → Event
  call : Phase → Benchmark → Event

-- `printf` of a string without conversions
abbrev pub print : List ℕ → List Event
print s = map out s

-- `printf("%-15s", s)`, whose padding is that of `print_str`
abbrev pub left_field : ℕ → List ℕ → List ℕ
left_field width s = padded s (record { pad = b' '; npad = negsuc (width - 1); alternate = false })

abbrev pub call_init : Benchmark → List Event
call_init b = if ltb 0 b.has_init then call init b ∷ [] else []

pub harness_execute : Benchmark → Option (List Event)
harness_execute b = do
  digits ← int_buf (pos b.iteration_count) 10
  some (
      print (left_field 15 b.category ++ left_field 15 b.name)
      ++ (call_init b
          ++ (print (left_field 10 digits)
              ++ (print (b'{' ∷ [])
                  ++ (call control b ∷ print (b'}' ∷ [])
                      ++ (print (b'[' ∷ [])
                          ++ (call kernel b ∷ print (b']' ∷ 13 ∷ 10 ∷ [])
                              ++ (call cleanup b ∷ []))))))))

-- The loop over the section of benchmarks.
pub execute_all : List Benchmark → Option (List Event)
execute_all [] = some []
execute_all (b ∷ bs) = do e ← harness_execute b; es ← execute_all bs; some (e ++ es)

-- "[BENCHMARKS BEGIN]\r\n" and "[BENCHMARKS END]\r\n"
abbrev pub str_benchmark_begin : List ℕ
str_benchmark_begin =
    b'[' ∷ b'B' ∷ b'E' ∷ b'N' ∷ b'C' ∷ b'H' ∷ b'M' ∷ b'A' ∷ b'R' ∷ b'K' ∷ b'S' ∷ b' ' ∷ b'B' ∷ b'E'
    ∷ b'G' ∷ b'I' ∷ b'N' ∷ b']' ∷ 13 ∷ 10 ∷ []

abbrev pub str_benchmark_end : List ℕ
str_benchmark_end =
    b'[' ∷ b'B' ∷ b'E' ∷ b'N' ∷ b'C' ∷ b'H' ∷ b'M' ∷ b'A' ∷ b'R' ∷ b'K' ∷ b'S' ∷ b' ' ∷ b'E' ∷ b'N'
    ∷ b'D' ∷ b']' ∷ 13 ∷ 10 ∷ []

-- `while (cycles2 - cycles1 < 60000000000) cycles2 = currentcycles();` over the readings that are to
-- come; those that are left are the result. `none` means that the readings end before the wait.
wait_loop : ℕ → ℕ → List ℕ → Option (List ℕ)
wait_loop start now [] = if ltb ((now + 2 ^ 64 - start) % 2 ^ 64) 60000000000 then none else some []
wait_loop start now (r ∷ rs) = elim (ltb ((now + 2 ^ 64 - start) % 2 ^ 64) 60000000000) [
  | true ↦ wait_loop start r rs
  | false ↦ some (r ∷ rs)
]

unfoldable pub wait_pinned : List ℕ → Option (List ℕ)
unfolding wait_loop
wait_pinned [] = none
wait_pinned (r ∷ rs) = wait_loop r r rs

-- "category", "name" and "iteration" in their fields
abbrev pub heading : List ℕ
heading =
    left_field 15 (b'c' ∷ b'a' ∷ b't' ∷ b'e' ∷ b'g' ∷ b'o' ∷ b'r' ∷ b'y' ∷ [])
    ++ (left_field 15 (b'n' ∷ b'a' ∷ b'm' ∷ b'e' ∷ [])
        ++ (left_field 10 (b'i' ∷ b't' ∷ b'e' ∷ b'r' ∷ b'a' ∷ b't' ∷ b'i' ∷ b'o' ∷ b'n' ∷ [])
            ++ (13 ∷ 10 ∷ [])))

-- The section of benchmarks is the argument, and so are the readings of the counter.
pub harness_main : List ℕ → List Benchmark → Option (List Event)
harness_main readings benchmarks = do
  rest ← wait_pinned readings
  es ← execute_all benchmarks
  some (
      print (b'*' ∷ 13 ∷ 10 ∷ [])
      ++ (print heading
          ++ (print str_benchmark_begin
              ++ (es ++ (print str_benchmark_end ++ print str_benchmark_end)))))
