-- ===== src/Mp.antt =====
-- x86_64/mp.c, the search for the MP tables and their walk, over a byte memory, with the structs of
-- include/mp.h as offsets; and `mycpu` and `cpuid` of x86_64/proc.c. A word of bytes is put together
-- by sums: the fields of `hi << 8 | lo` do not overlap.
pub mod Search
pub mod Walk
pub mod Cpu
use hyper_bench.Base.{
  ℕ, zero, suc, ◌+◌, ◌-◌, ◌*◌, ◌/◌, ◌%◌, ◌^◌, Bool, true, false, not, ◌&&◌, ◌||◌, Option, none,
  some, List, [], ◌∷◌, ◌++◌, ◌==◌, ltb, if◌then◌else◌, ◌>>=◌, length,
}
use hyper_bench.Base.Memory.{Memory}

abbrev pub ncpu_max : ℕ
ncpu_max = 64

-- `uint16_t` and `uint32_t` in memory
abbrev pub read16 : Memory → ℕ → ℕ
read16 m a = m (a + 1) * 256 + m a

abbrev pub read32 : Memory → ℕ → ℕ
read32 m a = read16 m (a + 2) * 65536 + read16 m a

-- `memcmp(p, "…", n) == 0`
pub has_bytes : Memory → ℕ → List ℕ → Bool
has_bytes m p [] = true
has_bytes m p (c ∷ cs) = (m p == c) && has_bytes m (p + 1) cs

-- The `int` sum of the bytes, cut to a `uchar` by `sum`.
sum_loop : Memory → ℕ → ℕ → ℕ
sum_loop m addr zero = 0
sum_loop m addr (suc len) = m addr + sum_loop m (addr + 1) len

pub sum : Memory → ℕ → ℕ → ℕ
unfolding sum_loop
sum m addr len = sum_loop m addr len % 2 ^ 8

-- "_MP_" and "PCMP"
abbrev pub mp_signature : List ℕ
mp_signature = b'_' ∷ b'M' ∷ b'P' ∷ b'_' ∷ []

abbrev pub conf_signature : List ℕ
conf_signature = b'P' ∷ b'C' ∷ b'M' ∷ b'P' ∷ []

-- `sizeof(struct mp)` and `sizeof(struct mpconf)`
abbrev pub mp_size : ℕ
mp_size = 16

abbrev pub conf_size : ℕ
conf_size = 44

pub is_mp : Memory → ℕ → Bool
unfolding has_bytes sum
is_mp m p = has_bytes m p mp_signature && (sum m p mp_size == 0)

-- The loop from `p` up to `e`; 0 is the null pointer.
pub search_loop : ℕ → Memory → ℕ → ℕ → Option ℕ
unfolding is_mp
search_loop zero m p e = none
search_loop (suc f) m p e = elim (ltb p e) [
  | false ↦ some 0
  | true ↦ elim (is_mp m p) [ true ↦ some p | false ↦ search_loop f m (p + mp_size) e ]
]

-- A block of `len` bytes takes `len / 16 + 1` rounds at most; no block is longer than 0x10000.
abbrev pub search_fuel : ℕ
search_fuel = 4097

pub mpsearch1 : Memory → ℕ → ℕ → Option ℕ
unfolding search_loop
mpsearch1 m a len = search_loop search_fuel m a ((a + len) % 2 ^ 64)

-- The first block: the EBDA if the BIOS data area names one, or the last KB of base memory.
pub first_block : Memory → ℕ
first_block m =
    let ebda = read16 m 0x40e * 16 in
    if ebda == 0 then (read16 m 0x413 * 1024 + 2 ^ 64 - 1024) % 2 ^ 64 else ebda

pub mpsearch : Memory → Option ℕ
unfolding mpsearch1 first_block
mpsearch m = do
  mp ← mpsearch1 m (first_block m) 1024
  (if mp == 0 then mpsearch1 m 0xf0000 0x10000 else some mp)

-- The address of the configuration table that `mp` points to, or 0.
pub conf_of : Memory → ℕ → ℕ
unfolding has_bytes sum
conf_of m mp =
    let conf = read32 m (mp + 4) in
    if (mp == 0) || (conf == 0)
    then 0
    else if not (has_bytes m conf conf_signature)
    then 0
    else if not (m (conf + 6) == 1) && not (m (conf + 6) == 4)
    then 0
    else if not (sum m conf (read16 m (conf + 4)) == 0)
    then 0
    else conf

pub mpconfig : Memory → Option ℕ
unfolding mpsearch conf_of
mpconfig m = do mp ← mpsearch m; some (conf_of m mp)

-- `cpus` holds the field `apicid` of the first `ncpu` entries of the array.
pub record Smp : Type 0 where
  pub cpus : List ℕ
  pub ioapicid : ℕ
  pub lapic : ℕ

pub ncpu : Smp → ℕ
ncpu s = length s.cpus

add_cpu : Smp → ℕ → Smp
unfolding ncpu
add_cpu s apicid = if ltb (ncpu s) ncpu_max then record s { cpus = s.cpus ++ (apicid ∷ []) } else s

-- The loop of `mpinit` over the entries from `p` to `e`, with `ismp`. The `break` of the default case
-- leaves the `switch` only: the loop goes on with the same `p`.
pub entry_loop : ℕ → Memory → ℕ → ℕ → Smp → Bool → Option (Smp × Bool)
unfolding add_cpu
entry_loop zero m p e s ismp = none
entry_loop (suc f) m p e s ismp = elim (ltb p e) [
  | false ↦ some (s, ismp)
  | true ↦ elim (m p == 0) [
    | true ↦ entry_loop f m (p + 20) e (add_cpu s (m (p + 1))) ismp
    | false ↦ elim (m p == 2) [
      | true ↦ entry_loop f m (p + 8) e (record s { ioapicid = m (p + 1) }) ismp
      | false ↦ elim ((m p == 1) || ((m p == 3) || (m p == 4))) [
        | true ↦ entry_loop f m (p + 8) e s ismp
        | false ↦ entry_loop f m p e s false
      ]
    ]
  ]
]

-- A null `conf` is reported and then used all the same.
pub mpinit : ℕ → Memory → Smp → Option (Smp × Bool)
unfolding mpconfig entry_loop
mpinit f m s = do
  conf ← mpconfig m
  entry_loop f m (conf + conf_size) (conf + read16 m (conf + 4))
      (record s { lapic = read32 m (conf + 36) }) true

-- `lapicid` of x86_64/apic.c: the ID register at offset 0x20, bits 24 to 31.
unfoldable pub lapicid : Memory → Smp → ℕ
lapicid regs s = if s.lapic == 0 then 0 else regs (s.lapic + 0x20) / 2 ^ 24

-- The first index from `i` on whose entry has the id; `none` is the end of `mycpu` without a result.
unfoldable pub find_cpu : List ℕ → ℕ → ℕ → Option ℕ
find_cpu [] i apicid = none
find_cpu (c ∷ cs) i apicid = if c == apicid then some i else find_cpu cs (i + 1) apicid

-- The index in `cpus` of the processor that runs: `mycpu() - cpus`.
pub cpuid : Memory → Smp → Option ℕ
unfolding find_cpu lapicid
cpuid regs s = find_cpu s.cpus 0 (lapicid regs s)
