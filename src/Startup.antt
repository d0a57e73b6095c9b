-- ===== src/Startup.antt =====
-- The start of the other processors: `startothers` and `mpenter` of x86_64/main.c with `mycpu` of
-- x86_64/proc.c and `enable_x2apic` and `lapicid` of x86_64/apic.c. The boot processor and the others run
-- interleaved, one access to shared state at a time. A processor goes by its APIC id.
pub mod Invariant
pub mod Entries
pub mod Keeps
pub mod Ready
pub mod Progress
use hyper_bench.Base.{
  ℕ, ◌+◌, ◌≤◌, ◌≡◌, ◌≢◌, Bool, true, false, List, length, get_elem?, Option, some, if◌then◌else◌,
}
use hyper_bench.Base.Memory.{update}
use hyper_bench.Mp.{find_cpu}

-- `cpus` holds the ids of the table in its order, and `boot` is the boot processor. `has_x2apic` is bit
-- 21 of ecx of `cpuid`. `stray c` is what a read of `lapic[ID]`, shifted, gives on the processor `c` in
-- x2APIC mode, where the registers are not in memory.
pub record Machine : Type 0 where
  pub cpus : List ℕ
  pub boot : ℕ
  pub has_x2apic : Bool
  pub stray : ℕ → ℕ

-- Where the boot processor stands in `startothers` and behind it in `main`.
pub data Bsp : Type 0 where
  looking : ℕ → Bsp  -- before `c < cpus+ncpu`, with the index of `c`
  waiting : ℕ → Bsp  -- `while(c->started == 0)`
  joined : Bsp  -- before `enable_x2apic`
  bsp_switching : Bsp  -- before `apic_ops = &x2apic_ops`
  measuring : Bsp  -- `harness_main`

-- Where another processor stands in `mpenter`, which ap_start64 of x86_64/cstart.S calls.
pub data Ap : Type 0 where
  off : Ap
  entered : Ap  -- before `cpuid()`
  loading : Ap  -- before `lidt`
  enabling : Ap  -- before `enable_apic`
  announcing : Ap  -- before `xchg(&(mycpu()->started), 1)`
  leaving : Ap
  switching : Ap
  masked : Ap  -- behind `mpenter`, before `sti`
  serving : Ap  -- takes interrupts

-- `started` goes by the index in `cpus`. `x2_mode c` is bit 10 of the base register of `c`, and
-- `x2_ops` tells whether `apic_ops` is `&x2apic_ops`.
pub record System : Type 0 where
  pub bsp : Bsp
  pub ap : ℕ → Ap
  pub started : ℕ → Bool
  pub x2_ops : Bool
  pub x2_mode : ℕ → Bool

-- `mycpu() - cpus` on the processor `c`: `lapicid` reads the register in memory.
abbrev pub my_index : Machine → System → ℕ → Option ℕ
my_index m s c = find_cpu m.cpus 0 (if s.x2_mode c then m.stray c else c)

pub data Step (m : Machine) (s : System) : System → Type 0 where
  skip :
      (i c : ℕ)
      → s.bsp ≡ looking i
      → get_elem? m.cpus i ≡ some c
      → my_index m s m.boot ≡ some i
      → Step m s (record s { bsp = looking (i + 1) })
  start :
      (i c : ℕ)
      → s.bsp ≡ looking i
      → get_elem? m.cpus i ≡ some c
      → my_index m s m.boot ≢ some i
      → Step m s (record s { bsp = waiting i; ap = update s.ap c entered })
  join : (i : ℕ) → s.bsp ≡ looking i → length m.cpus ≤ i → Step m s (record s { bsp = joined })
  poll : (i : ℕ) → s.bsp ≡ waiting i → s.started i ≡ false → Step m s s
  next :
      (i : ℕ)
      → s.bsp ≡ waiting i
      → s.started i ≡ true
      → Step m s (record s { bsp = looking (i + 1) })
  set_mode :
      s.bsp ≡ joined
      → m.has_x2apic ≡ true
      → Step m s (record s { bsp = bsp_switching; x2_mode = update s.x2_mode m.boot true })
  keep_mode : s.bsp ≡ joined → m.has_x2apic ≡ false → Step m s (record s { bsp = measuring })
  set_ops : s.bsp ≡ bsp_switching → Step m s (record s { bsp = measuring; x2_ops = true })
  greet : (c : ℕ) → s.ap c ≡ entered → Step m s (record s { ap = update s.ap c loading })
  load : (c : ℕ) → s.ap c ≡ loading → Step m s (record s { ap = update s.ap c enabling })
  enable : (c : ℕ) → s.ap c ≡ enabling → Step m s (record s { ap = update s.ap c announcing })
  announce :
      (c j : ℕ)
      → s.ap c ≡ announcing
      → my_index m s c ≡ some j
      → Step m s (record s { ap = update s.ap c leaving; started = update s.started j true })
  ap_set_mode :
      (c : ℕ)
      → s.ap c ≡ leaving
      → m.has_x2apic ≡ true
      → Step m s (record s { ap = update s.ap c switching; x2_mode = update s.x2_mode c true })
  ap_keep_mode :
      (c : ℕ)
      → s.ap c ≡ leaving
      → m.has_x2apic ≡ false
      → Step m s (record s { ap = update s.ap c masked })
  ap_set_ops :
      (c : ℕ)
      → s.ap c ≡ switching
      → Step m s (record s { ap = update s.ap c masked; x2_ops = true })
  unmask : (c : ℕ) → s.ap c ≡ masked → Step m s (record s { ap = update s.ap c serving })

abbrev pub init : System
init = record {
  bsp = looking 0;
  ap = λ c. off;
  started = λ i. false;
  x2_ops = false;
  x2_mode = λ c. false;
}

-- A run from one state to another.
pub data Run (m : Machine) (s : System) : System → Type 0 where
  here : Run m s s
  more : {t u : System} → Run m s t → Step m t u → Run m s u
