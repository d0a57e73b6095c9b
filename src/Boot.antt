-- ===== src/Boot.antt =====
-- x86_64/main.c without __BARE_METAL: the calls into the other parts, in order. The readings of
-- `c->started` that are to come are a list; `none` means that it ends before the wait does.
pub mod Start
use hyper_bench.Base.{
  ℕ, ◌+◌, ◌-◌, ◌*◌, ◌/◌, true, false, Option, none, some, List, [], ◌∷◌, ◌++◌, ◌==◌, ◌>>=◌,
}
use hyper_bench.Desc.{idt_bytes}

pub data Call : Type 0 where
  early_mem_init mask_pic_interrupts enable_apic mpinit sipi_entry_mov enable_x2apic harness_main :
      Call
  -- `lapicstartap` with the APIC id, and the entry address 0
  lapicstartap : ℕ → Call
  -- `lidt` with the limit
  lidt : ℕ → Call
  -- `xchg(&(mycpu()->started), 1)`
  set_started : Call
  outl outw outb : ℕ → ℕ → Call

-- `while(c->started == 0);`, and the readings left.
pub wait_started : List ℕ → Option (List ℕ)
wait_started [] = none
wait_started (r ∷ rest) = elim (r == 0) [ true ↦ wait_started rest | false ↦ some rest ]

-- The processors from index `i` on, by their APIC ids; `me` is the index of `mycpu()`.
pub start_loop : ℕ → ℕ → List ℕ → List ℕ → Option (List Call × List ℕ)
start_loop me i [] readings = some ([], readings)
start_loop me i (apicid ∷ cpus) readings = elim (i == me) [
  | true ↦ start_loop me (i + 1) cpus readings
  | false ↦ do
    rest ← wait_started readings
    (calls, left) ← start_loop me (i + 1) cpus rest
    some (lapicstartap apicid ∷ calls, left)
]

pub startothers : ℕ → List ℕ → List ℕ → Option (List Call × List ℕ)
unfolding start_loop
startothers me cpus readings = do
  (calls, left) ← start_loop me 0 cpus readings
  some (sipi_entry_mov ∷ calls, left)

-- The input of one byte at 0xcfc is the argument; `orb $1` sets its lowest bit.
pub platform_shutdown : ℕ → List Call
platform_shutdown al =
    outl 0x80000b80 0xcf8
    ∷ outb (2 * (al / 2) + 1) 0xcfc
    ∷ outl 0x80000b40 0xcf8
    ∷ outl 0x7001 0xcfc
    ∷ outw 0x2000 0x7004
    ∷ []

pub main : ℕ → List ℕ → List ℕ → ℕ → Option (List Call)
unfolding startothers platform_shutdown
main me cpus readings al = do
  (calls, left) ← startothers me cpus readings
  some (
      early_mem_init
      ∷ mask_pic_interrupts
      ∷ enable_apic
      ∷ mpinit
      ∷ (calls ++ (enable_x2apic ∷ harness_main ∷ platform_shutdown al)))

-- What a processor does that was started.
pub mpenter : List Call
mpenter = lidt (idt_bytes - 1) ∷ enable_apic ∷ set_started ∷ enable_x2apic ∷ []
