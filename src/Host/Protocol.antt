-- ===== src/Host/Protocol.antt =====
-- The timing protocol of host/host.c.
use hyper_bench.Base.{
  ℕ, ◌-◌, ◌^◌, ◌<◌, ◌≤◌, ◌≡◌, ◌≢◌, arith, some, [], ◌∷◌, ◌++◌, ==_of_ne, ==_refl,
}
use hyper_bench.Host.{
  Stream, read_time_start_char, read_time_end_char, measure, read_control, read_kernel, Times,
  Report, report_of, cycles, sub64,
}

-- The byte is not in the stream.
abbrev pub Without : ℕ → Stream → Type 0
Without target [] = Unit {0}
Without target ((c, t) ∷ s) = (c ≢ target) × Without target s

read_time_end_char-Without :
    (target : ℕ) (s : Stream) (t : ℕ) (rest : Stream)
    → Without target s
    → read_time_end_char target (s ++ ((target, t) ∷ rest)) ≡ some (t, rest)
unfolding read_time_end_char
read_time_end_char-Without target [] t rest h = rw (==_refl target, read_time_end_char)
read_time_end_char-Without target ((c, u) ∷ s) t rest h =
    rw (==_of_ne c target h.0, read_time_end_char) (read_time_end_char-Without target s t rest h.1)

cycles-eq : (t : ℕ) → t < 2 ^ 64 → cycles t ≡ t
cycles-eq t h = omega arith

-- The bytes that a benchmark's two timed parts put on the stream, between their markers.
abbrev pub section_of : ℕ → Stream → ℕ → ℕ → Stream → ℕ → Stream → Stream
section_of t0 c t1 t2 k t3 rest =
    (b'{', t0) ∷ (c ++ ((b'}', t1) ∷ (b'[', t2) ∷ (k ++ ((b']', t3) ∷ rest))))

-- Where the control part prints no '}' and the kernel part no ']', and the time stamps of each part
-- are in order and fit 64 bits, the host ends its measurement behind the last marker and reports
-- the time between '{' and '}', that between '[' and ']', and their difference, whatever the two
-- parts print else.
pub measure_section :
    (v : Times) (t0 t1 t2 t3 : ℕ) (c k rest : Stream)
    → Without b'}' c
    → Without b']' k
    → t0 ≤ t1
    → t1 < 2 ^ 64
    → t2 ≤ t3
    → t3 < 2 ^ 64
    → (v' : Times) × (r : Report) × (measure v (section_of t0 c t1 t2 k t3 rest)
        ≡ some (v', r, rest))
      × (r.time_control ≡ t1 - t0)
      × (r.time_kernel ≡ t3 - t2)
      × (r.difference ≡ sub64 (t3 - t2) (t1 - t0))
unfolding measure read_control read_kernel read_time_start_char
measure_section v t0 t1 t2 t3 c k rest hc hk o1 s1 o2 s2 =
    let v' : Times = record {
      start = cycles t0;
      end = cycles t1;
      start1 = cycles t2;
      end1 = cycles t3;
    } in
    let ec : sub64 (cycles t1) (cycles t0) ≡ t1 - t0 = omega arith in
    let ek : sub64 (cycles t3) (cycles t2) ≡ t3 - t2 = omega arith in
    (
      v',
      report_of v',
      rw (read_time_end_char-Without b'}' c t1 ((b'[', t2) ∷ (k ++ ((b']', t3) ∷ rest))) hc)
          (rw (read_time_end_char-Without b']' k t3 rest hk)),
      ec,
      ek,
      rw (ec, ek),
    )
