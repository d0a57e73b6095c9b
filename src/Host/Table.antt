-- ===== src/Host/Table.antt =====
-- The loop of `main` in host/host.c over what harness/harness.c prints of its benchmarks, whose `init`
-- and `cleanup` print nothing.
use hyper_bench.Base.{
  ℕ, zero, suc, ◌-◌, ◌^◌, ◌≤◌, ◌<◌, ◌≡◌, refl, some, List, [], ◌∷◌, ◌++◌, map, length, arith, ap,
  ◌∙◌,
}
use hyper_bench.Host.{Stream, Times, Report, sub64, Row, host_loop, read_start}
use hyper_bench.Host.Protocol.{Without, section_of, measure_section}
use hyper_bench.Host.Header.{timed, IsWord, header, read_benchmark-header}
use hyper_bench.Harness.{str_benchmark_end}
use hyper_bench.Printf.Items.{digit_bytes, AreDigits}
use hyper_bench.Str.Atol.{value_from}

-- What the kernel prints of one benchmark and when the host reads it: the category, the name and the
-- number of iterations (each with its first byte or digit apart), the times of the four markers and
-- of the line's end, and what the two timed parts print.
pub record Round : Type 0 where
  pub time : ℕ → ℕ
  pub c : ℕ
  pub category : List ℕ
  pub e : ℕ
  pub name : List ℕ
  pub d : ℕ
  pub digits : List ℕ
  pub t0 : ℕ
  pub t1 : ℕ
  pub t2 : ℕ
  pub t3 : ℕ
  pub t4 : ℕ
  pub t5 : ℕ
  pub control : Stream
  pub kernel : Stream

-- The words fit their fields, the number fits `long long`, no part prints the marker that ends it, and
-- the time stamps are in order and fit 64 bits.
pub record IsRound (x : Round) : Type 0 where
  pub category_word : IsWord (x.c ∷ x.category)
  pub name_word : IsWord (x.e ∷ x.name)
  pub decimal : AreDigits (x.d ∷ x.digits)
  pub category_short : length (x.c ∷ x.category) < 15
  pub name_short : length (x.e ∷ x.name) < 15
  pub number_small : value_from 0 (x.d ∷ x.digits) < 2 ^ 63
  pub control_quiet : Without b'}' x.control
  pub kernel_quiet : Without b']' x.kernel
  pub control_order : x.t0 ≤ x.t1
  pub control_small : x.t1 < 2 ^ 64
  pub kernel_order : x.t2 ≤ x.t3
  pub kernel_small : x.t3 < 2 ^ 64

abbrev pub AreRounds : List Round → Type 0
AreRounds [] = Unit {0}
AreRounds (x ∷ xs) = IsRound x × AreRounds xs

-- The whole output from the first benchmark on, with the line feed behind each and the end's line, which
-- is printed twice and read at the times `t`.
abbrev pub output : (ℕ → ℕ) → List Round → Stream
output t [] = timed t 0 (str_benchmark_end ++ str_benchmark_end)
output t (x ∷ xs) =
    timed x.time 0 (header (x.c ∷ x.category) (x.e ∷ x.name) (digit_bytes (x.d ∷ x.digits)))
    ++ section_of x.t0 x.control x.t1 x.t2 x.kernel x.t3 ((13, x.t4) ∷ (10, x.t5) ∷ output t xs)

-- The row that the table is to have.
abbrev pub row_of : Round → Row
row_of x = record {
  category = x.c ∷ x.category;
  benchmark = x.e ∷ x.name;
  iterations = value_from 0 (x.d ∷ x.digits);
  report = record {
    time_control = x.t1 - x.t0;
    time_kernel = x.t3 - x.t2;
    difference = sub64 (x.t3 - x.t2) (x.t1 - x.t0);
  };
}

Report-ext :
    (r s : Report)
    → r.time_control ≡ s.time_control
    → r.time_kernel ≡ s.time_kernel
    → r.difference ≡ s.difference
    → r ≡ s
Report-ext r s a b c = λ i. record { time_control = a i; time_kernel = b i; difference = c i }

host_loop-line_feed :
    (f : ℕ) (v : Times) (a b : ℕ) (s : Stream)
    → host_loop f v ((13, a) ∷ (10, b) ∷ s) ≡ host_loop f v s
unfolding host_loop
host_loop-line_feed zero v a b s = refl
host_loop-line_feed (suc f) v a b s = refl

abbrev section : Round → Stream → Stream
section x rest = section_of x.t0 x.control x.t1 x.t2 x.kernel x.t3 rest

-- One round of the loop.
host_loop-row :
    (f : ℕ) (v : Times) (x : Round) (rest : Stream) (rows : List Row) (out : Stream)
    → IsRound x
    → ((v' : Times) → host_loop f v' rest ≡ some (rows, out))
    → host_loop (suc f) v (
        timed x.time 0 (header (x.c ∷ x.category) (x.e ∷ x.name) (digit_bytes (x.d ∷ x.digits)))
        ++ section x rest)
      ≡ some (row_of x ∷ rows, out)
unfolding host_loop
host_loop-row f v x rest rows out ok next =
    let line =
      read_benchmark-header x.time x.c x.e x.d x.t0 x.category x.name x.digits
        (x.control ++ ((b'}', x.t1) ∷ (b'[', x.t2) ∷ (x.kernel ++ ((b']', x.t3) ∷ rest))))
        ok.category_word ok.name_word ok.decimal ok.category_short ok.name_short ok.number_small in
    let (v', r, measured, control, kernel, difference) =
      measure_section v x.t0 x.t1 x.t2 x.t3 x.control x.kernel rest ok.control_quiet ok.kernel_quiet
        ok.control_order ok.control_small ok.kernel_order ok.kernel_small in
    let same = Report-ext r (row_of x).report control kernel difference in
    rw (line, host_loop, measured, next v')
      (ap (λ r. some (record (row_of x) { report = r } ∷ rows, out)) same)

host_loop-rows :
    (f : ℕ) (v : Times) (t : ℕ → ℕ) (xs : List Round)
    → AreRounds xs
    → length xs < f
    → host_loop f v (output t xs) ≡ some (map row_of xs, timed t 18 str_benchmark_end)
unfolding host_loop
host_loop-rows zero v t xs ok lt = absurd (omega arith)
host_loop-rows (suc f) v t [] ok lt = refl
host_loop-rows (suc f) v t (x ∷ xs) ok lt =
    host_loop-row f v x ((13, x.t4) ∷ (10, x.t5) ∷ output t xs) (map row_of xs)
      (timed t 18 str_benchmark_end) ok.0
      (λ v'.
        host_loop-line_feed f v' x.t4 x.t5 (output t xs)
        ∙ host_loop-rows f v' t xs ok.1 (omega arith))

-- The loop of `main` ends on what the kernel prints of any benchmarks and the end's line twice, with fuel
-- above their number, when their words and numbers fit, no timed part prints its end marker and the
-- time stamps are in order. It prints one row for each benchmark, in their order, with its category,
-- its name, its number of iterations, the times between its markers and their difference. The loop has
-- then taken the first of the two lines of the end, and `read_start` behind it finds the second and
-- returns 0, with nothing left.
pub host_loop-row_of :
    (f : ℕ) (v : Times) (t : ℕ → ℕ) (xs : List Round)
    → AreRounds xs
    → length xs < f
    → (rest : Stream) × (host_loop f v (output t xs) ≡ some (map row_of xs, rest))
      × (read_start 1 str_benchmark_end rest ≡ some (0, []))
unfolding read_start
host_loop-row_of f v t xs ok lt =
    (timed t 18 str_benchmark_end, host_loop-rows f v t xs ok lt, refl)
