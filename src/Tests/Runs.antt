-- ===== src/Tests/Runs.antt =====
-- The APICs, the measurement of one benchmark by the host, and a run of the harness over two
-- benchmarks.
use hyper_bench.Base.{
  ℕ, ◌/◌, ◌%◌, ◌^◌, ◌≡◌, refl, List, [], ◌∷◌, some, arith, true, false, ◌==◌, if◌then◌else◌,
}
use hyper_bench.Base.Memory.{Memory}
use hyper_bench.Apic.{Apic, bit, msr_ia32_apicbase, reset_apic, set_mask}
use hyper_bench.Apic.Mode.{reset_apic_bits}
use hyper_bench.Apic.Redir.{selects, writes, set_mask-words}
use hyper_bench.Host.{Stream, Times, Report, sub64, measure}
use hyper_bench.Host.Protocol.{section_of, measure_section}
use hyper_bench.Harness.{Benchmark, Event, execute_all, wait_pinned}
use hyper_bench.Harness.Order.{calls, phases, execute_all-phases}

abbrev ones : Memory
ones a = 0xc00

abbrev apic : Apic
apic = record { use_x2apic = true; mmio = ones; x2apic = ones; msr = ones; log = [] }

reset_apic_bits_example :
    ((reset_apic apic).use_x2apic ≡ false)
    × (bit 11 ((reset_apic apic).msr msr_ia32_apicbase) ≡ 1)
    × (bit 10 ((reset_apic apic).msr msr_ia32_apicbase) ≡ 0)
    × ((reset_apic apic).msr msr_ia32_apicbase % 2 ^ 10 ≡ 0xc00 % 2 ^ 10)
    × ((reset_apic apic).msr msr_ia32_apicbase / 2 ^ 12 ≡ 0xc00 / 2 ^ 12)
reset_apic_bits_example = reset_apic_bits apic

-- What the window reads: the entry of line 4 is masked and has the vector 0x20.
abbrev window : ℕ → ℕ
window reg = if reg == 0x18 then 0x10020 else 0x2000000

set_mask-words_example :
    (set_mask window apic 4 0).log
    ≡ selects 0x18
      ∷ selects 0x19
      ∷ selects 0x18
      ∷ writes 0x20
      ∷ selects 0x19
      ∷ writes 0x2000000
      ∷ []
set_mask-words_example = set_mask-words window apic 4 0

abbrev start : Times
start = record { start = 0; end = 0; start1 = 0; end1 = 0 }

abbrev dots : Stream
dots = (b'.', 1) ∷ (b'.', 2) ∷ []

measure_section_example :
    (v' : Times) × (r : Report) × (measure start (section_of 100 dots 130 200 dots 290 [])
      ≡ some (v', r, []))
    × (r.time_control ≡ 30)
    × (r.time_kernel ≡ 90)
    × (r.difference ≡ sub64 90 30)
measure_section_example =
    measure_section start 100 130 200 290 dots dots [] (omega arith, (omega arith, tt))
      (omega arith, (omega arith, tt)) (omega arith) (omega arith) (omega arith) (omega arith)

abbrev benchmarks : List Benchmark
benchmarks =
    record { name = 97 ∷ []; category = 98 ∷ []; has_init = 1; iteration_count = 10 }
    ∷ record { name = 99 ∷ []; category = 98 ∷ []; has_init = 0; iteration_count = 100000 }
    ∷ []

execute_all-phases_example :
    (es : List Event) × (execute_all benchmarks ≡ some es) × (calls es ≡ phases benchmarks)
execute_all-phases_example = execute_all-phases benchmarks (omega arith, (omega arith, tt))

pinned : wait_pinned (0 ∷ 30000000000 ∷ 60000000000 ∷ []) ≡ some []
unfolding wait_pinned
pinned = refl
