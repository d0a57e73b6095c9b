-- ===== src/Mp/Cpu.antt =====
-- `cpuid` of x86_64/proc.c.
use hyper_bench.Base.{
  ℕ, zero, suc, ◌+◌, ◌<◌, ◌≡◌, ◌≢◌, arith, some, List, [], ◌∷◌, get_elem?, ==_of_eq, ==_of_ne, ◌∙◌,
  ap,
}
use hyper_bench.Base.Memory.{Memory}
use hyper_bench.Mp.{Smp, find_cpu, cpuid, lapicid}

-- No two entries have one id.
abbrev pub AreDistinct : List ℕ → Type 0
AreDistinct cs = (i j : ℕ) (c : ℕ) → get_elem? cs i ≡ some c → get_elem? cs j ≡ some c → i ≡ j

find_cpu-get_elem? :
    (cs : List ℕ) (k i c : ℕ)
    → ((j : ℕ) → j < i → get_elem? cs j ≢ some c)
    → get_elem? cs i ≡ some c
    → find_cpu cs k c ≡ some (k + i)
unfolding find_cpu
find_cpu-get_elem? [] k i c first h = cc
find_cpu-get_elem? (d ∷ cs) k zero c first h =
    let e : d ≡ c = cc in rw (==_of_eq d c e) (ap some (omega arith))
find_cpu-get_elem? (d ∷ cs) k (suc i) c first h =
    let ne : d ≢ c = λ e. first 0 (omega arith) (ap some e) in
    rw (==_of_ne d c ne) (
      find_cpu-get_elem? cs (k + 1) i c (λ j lt. first (suc j) (omega arith)) h
      ∙ ap some (omega arith))

-- When the ids are distinct, the id of entry `i` is found there.
pub find_cpu-distinct :
    (cs : List ℕ) (i c : ℕ) → AreDistinct cs → get_elem? cs i ≡ some c → find_cpu cs 0 c ≡ some i
find_cpu-distinct cs i c distinct h =
    find_cpu-get_elem? cs 0 i c (λ j lt e. absurd (let same = distinct j i c e h in omega arith)) h
    ∙ ap some (omega arith)

-- When the ids are distinct, the processor whose local APIC id stands in entry `i` gets the index `i`.
pub cpuid-get_elem? :
    (regs : Memory) (s : Smp) (i : ℕ)
    → AreDistinct s.cpus
    → get_elem? s.cpus i ≡ some (lapicid regs s)
    → cpuid regs s ≡ some i
unfolding cpuid
cpuid-get_elem? regs s i distinct h = find_cpu-distinct s.cpus i (lapicid regs s) distinct h
