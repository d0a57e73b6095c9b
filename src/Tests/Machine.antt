-- ===== src/Tests/Machine.antt =====
-- The processor tables: a configuration table at 64 with two processors, an I/O APIC and a bus.
use hyper_bench.Base.{
  ℕ, ◌≡◌, ◌≢◌, ◌⊎◌, inl, refl, List, [], ◌∷◌, none, some, arith, true, ◌==◌, if◌then◌else◌,
}
use hyper_bench.Base.Memory.{Memory}
use hyper_bench.Mp.{Smp, entry_loop, mpsearch}
use hyper_bench.Mp.Walk.{Entry, processor, ioapic, other, entry_loop-read_entries, entry_loop-none}
use hyper_bench.Str.Compare.{IsBytes}
use hyper_bench.Mp.Search.{IsFirst, IsFirstBlock, mpsearch-IsFirst}

-- The types and ids at 64, 84, 104 and 112; the type of the byte at 120 is unknown.
abbrev m : Memory
m a =
    if a == 65
    then 3
    else if a == 85
    then 5
    else if a == 104
    then 2
    else if a == 105
    then 9
    else if a == 112
    then 1
    else if a == 120
    then 77
    else 0

abbrev boot : Smp
boot = record { cpus = []; ioapicid = 0; lapic = 0 }

abbrev two_cpus : Smp
two_cpus = record { cpus = 3 ∷ 5 ∷ []; ioapicid = 9; lapic = 0 }

abbrev entries : List Entry
entries = processor 3 ∷ processor 5 ∷ ioapic 9 ∷ other 1 ∷ []

entry_loop-read_entries_example : entry_loop 5 m 64 120 boot true ≡ some (two_cpus, true)
entry_loop-read_entries_example =
    entry_loop-read_entries 5 m 64 entries boot true
      ((refl, refl), ((refl, refl), ((refl, refl), ((refl, inl (inl refl)), tt)))) (omega arith)
      (omega arith)

entry_loop-none_example : entry_loop 1000 m 120 128 boot true ≡ none
entry_loop-none_example = entry_loop-none 1000 m 120 128 boot true (omega arith) (omega arith)

-- The EBDA is at 0x9fc00, and its second place holds "_MP_" and a byte that makes the sum 0.
abbrev bios : Memory
bios a =
    if a == 0x40e
    then 0xc0
    else if a == 0x40f
    then 0x9f
    else if a == 0x9fc10
    then b'_'
    else if a == 0x9fc11
    then b'M'
    else if a == 0x9fc12
    then b'P'
    else if a == 0x9fc13
    then b'_'
    else if a == 0x9fc14
    then 165
    else 0

bios-IsBytes : IsBytes bios
bios-IsBytes a = ground arith

mpsearch-IsFirst_example :
    (a : ℕ) × (n : ℕ) × IsFirstBlock bios a n
    × ((r : ℕ) × (mpsearch bios ≡ some r)
        × (((r ≢ 0) × IsFirst bios a n r) ⊎ (IsFirst bios a n 0 × IsFirst bios 0xf0000 4096 r)))
mpsearch-IsFirst_example = mpsearch-IsFirst bios bios-IsBytes
