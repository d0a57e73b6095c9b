-- ===== src/Host.antt =====
-- host/host.c: the process that reads the kernel's output and times it. A time stamp is taken between
-- two bytes, so the input is the list of the bytes, each with the value of the time stamp counter once
-- it was read. What `fscanf` and `getline` of the C library do is written out for the calls that the
-- code makes.
pub mod Protocol
pub mod Header
pub mod Table
use hyper_bench.Base.{
  ℕ, zero, suc, ◌+◌, ◌-◌, ◌*◌, ◌/◌, ◌%◌, ◌^◌, true, false, Option, none, some, List, [], ◌∷◌, ◌==◌,
  ◌||◌, ◌&&◌, Bool, leb, ltb, length, ◌<◌, if◌then◌else◌, ◌>>=◌,
}

abbrev pub Stream : Type 0
Stream = List (ℕ × ℕ)

-- One call of `fgetc`. At the end of the input it returns EOF, which is none of the markers. The
-- parts are the result, the time and the rest.
pub read_time_start_char : Stream → ℕ × ℕ × Stream
read_time_start_char [] = (0, 0, [])
read_time_start_char ((c, t) ∷ s) = (if (c == b'[') || (c == b'{') then c else 0, t, s)

-- The time at the target, and the rest. At the end of the input the loop does not end: `none`.
pub read_time_end_char : ℕ → Stream → Option (ℕ × Stream)
read_time_end_char target [] = none
read_time_end_char target ((c, t) ∷ s) = elim (c == target) [
  | true ↦ some (t, s)
  | false ↦ read_time_end_char target s
]

-- The two halves that `rdtsc` gives, put together: `((uint64_t)high << 32) | low`
abbrev pub cycles : ℕ → ℕ
cycles t = t / 2 ^ 32 % 2 ^ 32 * 2 ^ 32 + t % 2 ^ 32

-- The variables of the loop of `main`: they keep their values from the round before where a marker
-- is missing.
pub record Times : Type 0 where
  pub start : ℕ
  pub end : ℕ
  pub start1 : ℕ
  pub end1 : ℕ

read_control : Times → Stream → Option (Times × Stream)
read_control v s =
    let (c, t, s1) = read_time_start_char s in
    elim (c == b'{') [
      | true ↦ do
        (t', s2) ← read_time_end_char b'}' s1
        some (record v { start = cycles t; end = cycles t' }, s2)
      | false ↦ some (v, s1)
    ]

read_kernel : Times → Stream → Option (Times × Stream)
read_kernel v s =
    let (c, t, s1) = read_time_start_char s in
    elim (c == b'[') [
      | true ↦ do
        (t', s2) ← read_time_end_char b']' s1
        some (record v { start1 = cycles t; end1 = cycles t' }, s2)
      | false ↦ some (v, s1)
    ]

-- What `main` prints of one benchmark: the two times and their difference, as 64-bit patterns.
pub record Report : Type 0 where
  pub time_control : ℕ
  pub time_kernel : ℕ
  pub difference : ℕ

abbrev pub sub64 : ℕ → ℕ → ℕ
sub64 a b = (a + 2 ^ 64 - b) % 2 ^ 64

abbrev pub report_of : Times → Report
report_of v =
    let control = sub64 v.end v.start in
    let kernel = sub64 v.end1 v.start1 in
    record { time_control = control; time_kernel = kernel; difference = sub64 kernel control }

-- The body of `while (!read_benchmark())` behind `read_benchmark`.
pub measure : Times → Stream → Option (Times × Report × Stream)
measure v s = do
  (v1, s1) ← read_control v s
  (v2, s2) ← read_kernel v1 s1
  some (v2, report_of v2, s2)

-- `isspace` and `isdigit`
abbrev pub is_space : ℕ → Bool
is_space c = (c == b' ') || (leb 9 c && leb c 13)

abbrev pub is_digit : ℕ → Bool
is_digit c = leb b'0' c && leb c b'9'

pub skip_space : Stream → Stream
skip_space [] = []
skip_space ((c, t) ∷ s) = let rest = skip_space s in if is_space c then rest else (c, t) ∷ s

-- The bytes of `%s` behind the white space, and the rest.
pub scan_word : Stream → List ℕ × Stream
scan_word [] = ([], [])
scan_word ((c, t) ∷ s) =
    let (w, rest) = scan_word s in if is_space c then ([], (c, t) ∷ s) else (c ∷ w, rest)

pub scan_digits : ℕ → Stream → ℕ × Stream
scan_digits acc [] = (acc, [])
scan_digits acc ((c, t) ∷ s) =
    let next = scan_digits (acc * 10 + (c - b'0')) s in
    if is_digit c then next else (acc, (c, t) ∷ s)

-- What `fscanf(stdin, "%s%s%lld ", category, benchmark, &iterations)` does, and so `read_benchmark`:
-- three values and the rest, fewer than three, or undefined behaviour, where a word and its NUL do
-- not fit 128 bytes or the number does not fit `long long`. `iterations` is a 64-bit pattern.
pub data Scan : Type 0 where
  scanned : List ℕ → List ℕ → ℕ → Stream → Scan
  failed : Stream → Scan
  undefined : Scan

-- `%lld ` behind the white space.
pub scan_number : List ℕ → List ℕ → Stream → Scan
unfolding skip_space scan_digits
scan_number category benchmark [] = failed []
scan_number category benchmark ((c, t) ∷ s) =
    let digits = if (c == b'-') || (c == b'+') then s else (c, t) ∷ s in
    elim digits [
      | [] ↦ failed []
      | d ∷ ds ↦
          let (n, rest) = scan_digits 0 (d ∷ ds) in
          if is_digit d.0
          then if ltb n (2 ^ 63)
            then scanned category benchmark (if c == b'-' then (2 ^ 64 - n) % 2 ^ 64 else n)
                (skip_space rest)
            else undefined
          else failed (d ∷ ds)
    ]

pub read_benchmark : Stream → Scan
unfolding skip_space scan_word scan_number
read_benchmark s =
    let (category, s1) = scan_word (skip_space s) in
    let (benchmark, s2) = scan_word (skip_space s1) in
    if length category == 0
    then failed s1
    else if ltb 127 (length category)
    then undefined
    else if length benchmark == 0
    then failed s2
    else if ltb 127 (length benchmark)
    then undefined
    else scan_number category benchmark (skip_space s2)

-- `getline`: the bytes up to a line feed, and the rest.
pub get_line : Stream → List ℕ × Stream
get_line [] = ([], [])
get_line ((c, t) ∷ s) =
    let (line, rest) = get_line s in if c == 10 then (10 ∷ [], s) else (c ∷ line, rest)

-- `strcmp(str, lineptr)` is 0; a NUL ends the line.
pub is_line : List ℕ → List ℕ → Bool
is_line [] [] = true
is_line [] (c ∷ line) = c == 0
is_line (d ∷ str) [] = false
is_line (d ∷ str) (c ∷ line) = (d == c) && is_line str line

-- The result and the rest. A line takes at least one byte, and `none` is the end of the fuel.
pub read_start : ℕ → List ℕ → Stream → Option (ℕ × Stream)
unfolding get_line is_line
read_start zero str s = none
read_start (suc f) str [] = some (1, [])
read_start (suc f) str (b ∷ s) =
    let (line, rest) = get_line (b ∷ s) in
    elim (is_line str line) [ true ↦ some (0, rest) | false ↦ read_start f str rest ]

-- A line of the table that `main` prints.
pub record Row : Type 0 where
  pub category : List ℕ
  pub benchmark : List ℕ
  pub iterations : ℕ
  pub report : Report

-- `while (!read_benchmark())`: the rows and the rest. Undefined behaviour and the fuel's end are
-- `none`.
pub host_loop : ℕ → Times → Stream → Option (List Row × Stream)
unfolding read_benchmark measure
host_loop zero v s = none
host_loop (suc f) v s = elim (read_benchmark s) [
  | failed rest ↦ some ([], rest)
  | undefined ↦ none
  | scanned category benchmark iterations rest ↦ do
    (v', report, s') ← measure v rest
    (rows, s'') ← host_loop f v' s'
    some (
      record {
        category = category;
        benchmark = benchmark;
        iterations = iterations;
        report = report;
      }
          ∷ rows,
      s'',
    )
]
