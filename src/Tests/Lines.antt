-- ===== src/Tests/Lines.antt =====
-- Two runs of a benchmark "cpu" "hypercall" with 100 iterations.
use hyper_bench.Base.{ℕ, ◌+◌, ◌≡◌, refl, List, [], ◌∷◌, some, arith}
use hyper_bench.Harness.{str_benchmark_end}
use hyper_bench.Host.{Stream, Times, Row, host_loop, read_start}
use hyper_bench.Host.Table.{Round, IsRound, output, host_loop-row_of}

abbrev time : ℕ → ℕ
time i = 1000 + i

abbrev cpu : List ℕ
cpu = b'c' ∷ b'p' ∷ b'u' ∷ []

abbrev hypercall : List ℕ
hypercall = b'h' ∷ b'y' ∷ b'p' ∷ b'e' ∷ b'r' ∷ b'c' ∷ b'a' ∷ b'l' ∷ b'l' ∷ []

abbrev v : Times
v = record { start = 0; end = 0; start1 = 0; end1 = 0 }

-- The timed parts print "[" and "".
abbrev x : Round
x = record {
  time = time;
  c = b'c';
  category = b'p' ∷ b'u' ∷ [];
  e = b'h';
  name = b'y' ∷ b'p' ∷ b'e' ∷ b'r' ∷ b'c' ∷ b'a' ∷ b'l' ∷ b'l' ∷ [];
  d = 1;
  digits = 0 ∷ 0 ∷ [];
  t0 = 2000;
  t1 = 2500;
  t2 = 2600;
  t3 = 3900;
  t4 = 4000;
  t5 = 4001;
  control = (b'[', 2100) ∷ [];
  kernel = [];
}

x-IsRound : IsRound x
x-IsRound = record {
  category_word = (refl, (refl, (refl, tt)));
  name_word = (refl, (refl, (refl, (refl, (refl, (refl, (refl, (refl, (refl, tt)))))))));
  decimal = (omega arith, (omega arith, (omega arith, tt)));
  category_short = omega arith;
  name_short = omega arith;
  number_small = omega arith;
  control_quiet = (omega arith, tt);
  kernel_quiet = tt;
  control_order = omega arith;
  control_small = omega arith;
  kernel_order = omega arith;
  kernel_small = omega arith;
}

abbrev row : Row
row = record {
  category = cpu;
  benchmark = hypercall;
  iterations = 100;
  report = record { time_control = 500; time_kernel = 1300; difference = 800 };
}

host_loop-row_of_example :
    (rest : Stream) × (host_loop 3 v (output time (x ∷ x ∷ [])) ≡ some (row ∷ row ∷ [], rest))
    × (read_start 1 str_benchmark_end rest ≡ some (0, []))
host_loop-row_of_example =
    host_loop-row_of 3 v time (x ∷ x ∷ []) (x-IsRound, (x-IsRound, tt)) (omega arith)
