-- ===== src/Ipi.antt =====
-- x86_64/mp.c: calls on other processors (`on_cpu`, `__on_cpu`, `ipi`, `smp_init`), with
-- include/spinlock.h. Any number of processors run interleaved, one shared access at a time. An
-- interrupt that was sent is a bit of the target's request register until the target takes it.
pub mod Invariant
pub mod Served
pub mod Progress
use hyper_bench.Base.{ℕ, ◌+◌, ◌≡◌, Bool, true, false, List, get_elem?, some}
use hyper_bench.Base.Memory.{update}
use hyper_bench.Desc.{Desc, set_idt_entry, setup_idt}

abbrev pub ipi_vector : ℕ
ipi_vector = 0x20

-- APIC_INT_ASSERT | APIC_DEST_PHYSICAL | APIC_DM_FIXED | IPI_VECTOR
abbrev pub ipi_command : ℕ
ipi_command = 0x4000 + ipi_vector

-- Where a processor stands in `__on_cpu`, with the argument `cpu` of the call, an APIC id.
pub data Pc : Type 0 where
  outside : Pc
  locking : ℕ → Pc  -- `spin_lock`
  clearing : ℕ → Pc  -- before `ipi_done = 0`
  sending : ℕ → Pc  -- before `apic_icr_write`
  waiting : ℕ → Pc  -- `while(!ipi_done)`
  unlocking : Pc  -- `spin_unlock`

-- Where the interrupt handler `ipi` of a processor stands.
pub data Handler : Type 0 where
  ready : Handler
  entered : Handler  -- before `ipi_done = 1`
  acknowledging : Handler  -- before `apic_write(APIC_EOI, 0)`

-- `pc` goes by the index of a processor; `requested` and `handler` by its APIC id.
pub record System : Type 0 where
  pub locked : Bool
  pub ipi_done : Bool
  pub pc : ℕ → Pc
  pub requested : ℕ → Bool
  pub handler : ℕ → Handler

-- One step of one processor; `cpus` are the APIC ids of the processors in the order of the table.
pub data Step (cpus : List ℕ) (s : System) : System → Type 0 where
  on_cpu :
      (i cpu apicid : ℕ)
      → s.pc i ≡ outside
      → get_elem? cpus cpu ≡ some apicid
      → Step cpus s (record s { pc = update s.pc i (locking apicid) })
  spin : (i c : ℕ) → s.pc i ≡ locking c → s.locked ≡ true → Step cpus s s
  take :
      (i c : ℕ)
      → s.pc i ≡ locking c
      → s.locked ≡ false
      → Step cpus s (record s { locked = true; pc = update s.pc i (clearing c) })
  clear :
      (i c : ℕ)
      → s.pc i ≡ clearing c
      → Step cpus s (record s { ipi_done = false; pc = update s.pc i (sending c) })
  send :
      (i c : ℕ)
      → s.pc i ≡ sending c
      → Step cpus s
          (record s { requested = update s.requested c true; pc = update s.pc i (waiting c) })
  poll : (i c : ℕ) → s.pc i ≡ waiting c → s.ipi_done ≡ false → Step cpus s s
  proceed :
      (i c : ℕ)
      → s.pc i ≡ waiting c
      → s.ipi_done ≡ true
      → Step cpus s (record s { pc = update s.pc i unlocking })
  release :
      (i : ℕ)
      → s.pc i ≡ unlocking
      → Step cpus s (record s { locked = false; pc = update s.pc i outside })
  deliver :
      (c : ℕ)
      → s.requested c ≡ true
      → s.handler c ≡ ready
      → Step cpus s (record s {
        requested = update s.requested c false;
        handler = update s.handler c entered;
      })
  set_done :
      (c : ℕ)
      → s.handler c ≡ entered
      → Step cpus s (record s { ipi_done = true; handler = update s.handler c acknowledging })
  acknowledge :
      (c : ℕ)
      → s.handler c ≡ acknowledging
      → Step cpus s (record s { handler = update s.handler c ready })

-- The static variables are 0 when the processors start.
abbrev pub init : System
init = record {
  locked = false;
  ipi_done = false;
  pc = λ i. outside;
  requested = λ c. false;
  handler = λ c. ready;
}

-- A run from one state to another.
pub data Run (cpus : List ℕ) (s : System) : System → Type 0 where
  here : Run cpus s s
  more : {t u : System} → Run cpus s t → Step cpus t u → Run cpus s u

-- Between the end of `spin_lock` and the store of `spin_unlock`.
abbrev pub critical : Pc → Bool
critical outside = false
critical (locking c) = false
critical p = true

-- `smp_init`: the gate of the interrupt, behind those of the exceptions.
pub smp_init : ℕ → (ℕ → ℕ) → ℕ → Desc → Desc
smp_init cs fault ipi_entry d = set_idt_entry cs (setup_idt cs fault d) ipi_vector ipi_entry 0
