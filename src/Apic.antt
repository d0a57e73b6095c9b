-- ===== src/Apic.antt =====
-- x86_64/apic.c with the constants of include/apic.h: the local APIC in its two modes, the start of a
-- processor, and the I/O APIC. Each write to a device is logged in order; what a read of a device gives is
-- up to the device. Bits are set and cleared by arithmetic.
pub mod Redir
pub mod Mode
use hyper_bench.Base.{
  ℕ, zero, suc, ◌+◌, ◌-◌, ◌*◌, ◌/◌, ◌%◌, ◌^◌, bit_or, Bool, true, false, not, Option, none, some,
  List, [], ◌∷◌, ◌++◌, ◌==◌, leb, if◌then◌else◌, ◌>>=◌,
}
use hyper_bench.Base.Memory.{Memory, poke}

pub data Event : Type 0 where
  mmio_write : ℕ → ℕ → Event
  msr_write : ℕ → ℕ → Event
  port_write : ℕ → ℕ → Event

-- `use_x2apic` is which table `apic_ops` points to. `mmio` is what the registers of the local APIC read by
-- their addresses, and `x2apic` by their MSRs; a write is sent to the device, which alone changes what
-- they read. `msr` holds the other MSRs, which read what was written last.
pub record Apic : Type 0 where
  pub use_x2apic : Bool
  pub mmio : Memory
  pub x2apic : Memory
  pub msr : Memory
  pub log : List Event

abbrev pub g_apic : ℕ
g_apic = 0xfee00000

abbrev pub g_ioapic : ℕ
g_ioapic = 0xfec00000

-- Registers of the local APIC
abbrev pub apic_id_reg : ℕ
apic_id_reg = 0x20

abbrev pub apic_eoi : ℕ
apic_eoi = 0xb0

abbrev pub apic_icr : ℕ
apic_icr = 0x300

abbrev pub apic_icr2 : ℕ
apic_icr2 = 0x310

abbrev pub apic_base_msr : ℕ
apic_base_msr = 0x800

abbrev pub msr_ia32_apicbase : ℕ
msr_ia32_apicbase = 0x1b

abbrev pub bit : ℕ → ℕ → ℕ
bit k x = x / 2 ^ k % 2

-- `x | 1 << k` and `x & ~(1 << k)`
abbrev pub set_bit : ℕ → ℕ → ℕ
set_bit k x = x + (1 - bit k x) * 2 ^ k

abbrev pub clear_bit : ℕ → ℕ → ℕ
clear_bit k x = x - bit k x * 2 ^ k

pub write_mmio : Apic → ℕ → ℕ → Apic
write_mmio s a v = record s { log = s.log ++ (mmio_write a v ∷ []) }

pub wrmsr : Apic → ℕ → ℕ → Apic
wrmsr s i v = record s { msr = poke s.msr i v; log = s.log ++ (msr_write i v ∷ []) }

pub outb : Apic → ℕ → ℕ → Apic
outb s v port = record s { log = s.log ++ (port_write v port ∷ []) }

-- `lapic[index] = value`, for a register index; `lapic` comes from the MP tables.
pub lapicw : ℕ → Apic → ℕ → ℕ → Apic
unfolding write_mmio
lapicw lapic s index value = write_mmio s (lapic + 4 * index) (value % 2 ^ 32)

-- The writes of `lapicinit` up to the version check.
init_first : ℕ → Apic → Apic
unfolding lapicw
init_first lapic s =
    let s1 = lapicw lapic s (0xf0 / 4) (0x100 + (32 + 31)) in
    let s2 = lapicw lapic s1 (0x3e0 / 4) 0xb in
    let s3 = lapicw lapic s2 (0x320 / 4) (0x20000 + (32 + 0)) in
    let s4 = lapicw lapic s3 (0x380 / 4) 10000000 in
    let s5 = lapicw lapic s4 (0x350 / 4) 0x10000 in lapicw lapic s5 (0x360 / 4) 0x10000

init_rest : ℕ → Apic → Apic
unfolding lapicw
init_rest lapic s =
    let s1 = lapicw lapic s (0x370 / 4) (32 + 19) in
    let s2 = lapicw lapic s1 (0x280 / 4) 0 in
    let s3 = lapicw lapic s2 (0x280 / 4) 0 in
    let s4 = lapicw lapic s3 (0xb0 / 4) 0 in lapicw lapic s4 (0x80 / 4) 0

pub lapicinit : ℕ → Apic → Apic
unfolding init_first init_rest lapicw
lapicinit lapic s =
    if lapic == 0
    then s
    else (let s1 = init_first lapic s in
        init_rest lapic (
          if leb 4 (s1.mmio (lapic + 0x30) / 2 ^ 16 % 2 ^ 8)
          then lapicw lapic s1 (0x340 / 4) 0x10000
          else s1))

-- One round of the loop of `lapicstartap`: the startup IPI.
startup_ipi : ℕ → Apic → ℕ → ℕ → Apic
unfolding lapicw
startup_ipi lapic s apicid addr =
    lapicw lapic (lapicw lapic s (apic_icr2 / 4) (apicid * 2 ^ 24)) (apic_icr / 4)
      (bit_or 0x600 (addr / 2 ^ 12))

-- The writes to the ports 0x70 and 0x71, the warm reset vector at 0x467, the INIT interrupt and its
-- end, and two startup interrupts. `microdelay` does nothing.
pub lapicstartap : ℕ → Apic → ℕ → ℕ → Apic
unfolding write_mmio outb lapicw startup_ipi
lapicstartap lapic s apicid addr =
    let s1 = outb (outb s 0xf 0x70) 0xa 0x71 in
    let s2 = write_mmio (write_mmio s1 0x467 0) 0x469 (addr / 2 ^ 4 % 2 ^ 16) in
    let s3 = lapicw lapic s2 (apic_icr2 / 4) (apicid * 2 ^ 24) in
    let s4 = lapicw lapic s3 (apic_icr / 4) (0x500 + 0x8000 + 0x4000) in
    let s5 = lapicw lapic s4 (apic_icr / 4) (0x500 + 0x8000) in
    startup_ipi lapic (startup_ipi lapic s5 apicid addr) apicid addr

pub xapic_read : Apic → ℕ → ℕ
xapic_read s reg = s.mmio (g_apic + reg)

pub xapic_write : Apic → ℕ → ℕ → Apic
unfolding write_mmio
xapic_write s reg val = write_mmio s (g_apic + reg) val

-- `while (xapic_read(APIC_ICR) & APIC_ICR_BUSY);` over what the register reads, round by round;
-- `none` means that it stays busy.
wait_icr : List ℕ → Option (List ℕ)
wait_icr [] = none
wait_icr (v ∷ rest) = elim (bit 12 v == 1) [ true ↦ wait_icr rest | false ↦ some rest ]

pub xapic_icr_write : List ℕ → Apic → ℕ → ℕ → Option Apic
unfolding wait_icr xapic_write
xapic_icr_write reads s val dest = do
  rest ← wait_icr reads
  some (xapic_write (xapic_write s apic_icr2 (dest * 2 ^ 24 % 2 ^ 32)) apic_icr val)

-- The `rdmsr` of both halves, cut to the `u32` result.
pub x2apic_read : Apic → ℕ → ℕ
x2apic_read s reg = s.x2apic (apic_base_msr + reg / 16) % 2 ^ 32

pub x2apic_write : Apic → ℕ → ℕ → Apic
unfolding wrmsr
x2apic_write s reg val = wrmsr s (apic_base_msr + reg / 16) val

pub x2apic_icr_write : Apic → ℕ → ℕ → Apic
unfolding wrmsr
x2apic_icr_write s val dest = wrmsr s (apic_base_msr + apic_icr / 16) (dest * 2 ^ 32 + val)

pub apic_read : Apic → ℕ → ℕ
unfolding xapic_read x2apic_read
apic_read s reg = if s.use_x2apic then x2apic_read s reg else xapic_read s reg

pub apic_write : Apic → ℕ → ℕ → Apic
unfolding xapic_write x2apic_write
apic_write s reg val = if s.use_x2apic then x2apic_write s reg val else xapic_write s reg val

pub apic_icr_write : List ℕ → Apic → ℕ → ℕ → Option Apic
unfolding xapic_icr_write x2apic_icr_write
apic_icr_write reads s val dest =
    if s.use_x2apic then some (x2apic_icr_write s val dest) else xapic_icr_write reads s val dest

pub eoi : Apic → Apic
unfolding apic_write
eoi s = apic_write s apic_eoi 0

pub apic_id : Apic → ℕ
unfolding apic_read
apic_id s = if s.use_x2apic then x2apic_read s apic_id_reg else xapic_read s apic_id_reg / 2 ^ 24

-- Bit `n` of a register file of 32-bit registers that stand 16 bytes apart.
pub apic_read_bit : Apic → ℕ → ℕ → Bool
unfolding apic_read
apic_read_bit s reg n = bit (n % 32) (apic_read s (reg + n / 32 * 16)) == 1

-- `ecx` is what `cpuid` leaves in that register for leaf 1.
pub enable_x2apic : ℕ → Apic → Apic × ℕ
unfolding wrmsr
enable_x2apic ecx s =
    if bit 21 ecx == 1
    then (
      record (wrmsr s msr_ia32_apicbase (set_bit 10 (s.msr msr_ia32_apicbase))) {
        use_x2apic = true;
      },
      1,
    )
    else (s, 0)

-- APIC_EN is bit 11, APIC_EXTD bit 10.
pub disable_apic : Apic → Apic
unfolding wrmsr
disable_apic s =
    record (wrmsr s msr_ia32_apicbase (clear_bit 10 (clear_bit 11 (s.msr msr_ia32_apicbase)))) {
      use_x2apic = false;
    }

pub reset_apic : Apic → Apic
unfolding disable_apic wrmsr
reset_apic s =
    let s' = disable_apic s in wrmsr s' msr_ia32_apicbase (set_bit 11 (s'.msr msr_ia32_apicbase))

-- `printf` left out
pub enable_apic : Apic → Apic
unfolding xapic_write
enable_apic s = xapic_write s 0xf0 0x1ff

pub mask_pic_interrupts : Apic → Apic
unfolding outb
mask_pic_interrupts s = outb (outb s 0xff 0x21) 0xff 0xa1

pub set_irq_line : Apic → ℕ → ℕ → Apic
unfolding outb
set_irq_line s line val = outb s (val % 2 ^ 8) ((0x2000 + line) % 2 ^ 16)

-- The register is selected, then the window is read or written. `window` is what the window reads by the
-- selected register.
pub ioapic_read_reg : (ℕ → ℕ) → Apic → ℕ → Apic × ℕ
unfolding write_mmio
ioapic_read_reg window s reg = (write_mmio s g_ioapic reg, window reg % 2 ^ 32)

pub ioapic_write_reg : Apic → ℕ → ℕ → Apic
unfolding write_mmio
ioapic_write_reg s reg value = write_mmio (write_mmio s g_ioapic reg) (g_ioapic + 0x10) value

-- `ioapic_redir_entry_t`; `reserved` are its four bytes as one number.
pub record RedirEntry : Type 0 where
  pub vector : ℕ
  pub delivery_mode : ℕ
  pub dest_mode : ℕ
  pub delivery_status : ℕ
  pub polarity : ℕ
  pub remote_irr : ℕ
  pub trig_mode : ℕ
  pub mask : ℕ
  pub reserve : ℕ
  pub reserved : ℕ
  pub dest_id : ℕ

-- The two 32-bit words of the struct in memory, lowest byte first.
pub low_word : RedirEntry → ℕ
low_word e =
    e.vector
    + e.delivery_mode * 2 ^ 8
    + e.dest_mode * 2 ^ 11
    + e.delivery_status * 2 ^ 12
    + e.polarity * 2 ^ 13
    + e.remote_irr * 2 ^ 14
    + e.trig_mode * 2 ^ 15
    + e.mask * 2 ^ 16
    + e.reserve * 2 ^ 17
    + e.reserved % 2 ^ 8 * 2 ^ 24

pub high_word : RedirEntry → ℕ
high_word e = e.reserved / 2 ^ 8 + e.dest_id * 2 ^ 24

pub from_words : ℕ → ℕ → RedirEntry
from_words lo hi = record {
  vector = lo % 2 ^ 8;
  delivery_mode = lo / 2 ^ 8 % 2 ^ 3;
  dest_mode = lo / 2 ^ 11 % 2;
  delivery_status = lo / 2 ^ 12 % 2;
  polarity = lo / 2 ^ 13 % 2;
  remote_irr = lo / 2 ^ 14 % 2;
  trig_mode = lo / 2 ^ 15 % 2;
  mask = lo / 2 ^ 16 % 2;
  reserve = lo / 2 ^ 17 % 2 ^ 7;
  reserved = lo / 2 ^ 24 % 2 ^ 8 + hi % 2 ^ 24 * 2 ^ 8;
  dest_id = hi / 2 ^ 24 % 2 ^ 8;
}

-- `0x10 + line * 2 + k`, an `unsigned`.
abbrev pub redir_reg : ℕ → ℕ → ℕ
redir_reg line k = (0x10 + line * 2 + k) % 2 ^ 32

pub ioapic_write_redir : Apic → ℕ → RedirEntry → Apic
unfolding ioapic_write_reg
ioapic_write_redir s line e =
    ioapic_write_reg (ioapic_write_reg s (redir_reg line 0) (low_word e)) (redir_reg line 1)
      (high_word e)

pub ioapic_read_redir : (ℕ → ℕ) → Apic → ℕ → Apic × RedirEntry
unfolding ioapic_read_reg
ioapic_read_redir window s line =
    let (s1, lo) = ioapic_read_reg window s (redir_reg line 0) in
    let (s2, hi) = ioapic_read_reg window s1 (redir_reg line 1) in (s2, from_words lo hi)

pub ioapic_set_redir : Apic → ℕ → ℕ → ℕ → Apic
unfolding ioapic_write_redir
ioapic_set_redir s line vec trig_mode = ioapic_write_redir s line (record {
  vector = vec % 2 ^ 8;
  delivery_mode = 0;
  dest_mode = 0;
  delivery_status = 0;
  polarity = 0;
  remote_irr = 0;
  trig_mode = trig_mode % 2;
  mask = 0;
  reserve = 0;
  reserved = 0;
  dest_id = 0;
})

pub set_mask : (ℕ → ℕ) → Apic → ℕ → ℕ → Apic
unfolding ioapic_read_redir ioapic_write_redir
set_mask window s line mask =
    let (s1, e) = ioapic_read_redir window s line in
    ioapic_write_redir s1 line (record e { mask = mask % 2 })
