-- ===== src/Desc.antt =====
-- x86_64/desc.c and the structs of include/desc.h: the interrupt descriptor table and the dispatch of
-- exceptions. The addresses that the linker gives (the entry points and the exception table) are
-- arguments, and so is the code selector that `read_cs` reads.
pub mod Gate
pub mod Dispatch
use hyper_bench.Base.{
  ℕ, zero, suc, ◌+◌, ◌-◌, ◌*◌, ◌/◌, ◌%◌, ◌^◌, bit_or, Bool, true, false, ◌&&◌, Option, none, some,
  List, [], ◌∷◌, ◌==◌, ltb, if◌then◌else◌, length,
}

-- `idt_entry_t`, with its bit fields
pub record IdtEntry : Type 0 where
  pub offset0 : ℕ
  pub selector : ℕ
  pub ist : ℕ
  pub kind : ℕ
  pub dpl : ℕ
  pub p : ℕ
  pub offset1 : ℕ
  pub offset2 : ℕ
  pub reserved : ℕ

-- The fields of `struct ex_regs` that the dispatch uses.
pub record ExRegs : Type 0 where
  pub vector : ℕ
  pub error_code : ℕ
  pub rip : ℕ
  pub rflags : ℕ

-- `struct ex_record`
pub record ExRecord : Type 0 where
  pub rip : ℕ
  pub handler : ℕ

-- The handlers that the program installs: there is one.
pub data Handler : Type 0 where
  check_exception_table : Handler

-- The table, the handlers by vector, `idt_initialized`, the limit that `lidt` loaded last, and the
-- word at `%gs:4`.
pub record Desc : Type 0 where
  pub boot_idt : ℕ → IdtEntry
  pub exception_handlers : ℕ → Option Handler
  pub idt_initialized : Bool
  pub idt_limit : Option ℕ
  pub gs4 : ℕ

-- A field of `w` bits.
abbrev pub bits : ℕ → ℕ → ℕ
bits w x = x % 2 ^ w

pub gate : ℕ → ℕ → ℕ → IdtEntry
gate cs addr dpl = record {
  offset0 = bits 16 addr;
  selector = cs;
  ist = 0;
  kind = 14;
  dpl = bits 2 dpl;
  p = 1;
  offset1 = bits 16 (addr / 2 ^ 16);
  offset2 = bits 32 (addr / 2 ^ 32);
  reserved = 0;
}

pub set_idt_entry : ℕ → Desc → ℕ → ℕ → ℕ → Desc
unfolding gate
set_idt_entry cs d vec addr dpl = record d {
  boot_idt = λ i. if i == vec then gate cs addr dpl else d.boot_idt i;
}

-- The vectors that `idt_handlers` has an entry for.
abbrev pub has_handler : ℕ → Bool
has_handler v =
    if ltb v 9 then true else if ltb v 10 then false else if v == 15 then false else ltb v 20

-- The old handler is the result. `v` is a `u8`.
pub handle_exception : Desc → ℕ → Handler → Desc × Option Handler
handle_exception d v fn = (
  record d { exception_handlers = λ i. if i == v then some fn else d.exception_handlers i },
  d.exception_handlers v,
)

-- `for (i = 0; i < 32; i++)`, with `left` rounds to go; `fault` has the address of each entry point.
set_gates : ℕ → ℕ → ℕ → (ℕ → ℕ) → Desc → Desc
unfolding set_idt_entry
set_gates zero i cs fault d = d
set_gates (suc left) i cs fault d =
    set_gates left (i + 1) cs fault (if has_handler i then set_idt_entry cs d i (fault i) 0 else d)

-- `sizeof(boot_idt)`: 256 entries of 16 bytes
abbrev pub idt_bytes : ℕ
idt_bytes = 256 * 16

pub lidt : Desc → ℕ → Desc
lidt d size = record d { idt_limit = some (bits 16 size) }

pub setup_idt : ℕ → (ℕ → ℕ) → Desc → Desc
unfolding set_gates handle_exception lidt
setup_idt cs fault d =
    if d.idt_initialized
    then d
    else (let d1 = set_gates 32 0 cs fault (record d { idt_initialized = true }) in
        let d2 = (handle_exception d1 0 check_exception_table).0 in
        let d3 = (handle_exception d2 6 check_exception_table).0 in
        let d4 = (handle_exception d3 13 check_exception_table).0 in lidt d4 idt_bytes)

-- `ex_val`, an `unsigned`
pub ex_val : ExRegs → ℕ
ex_val r = bit_or (bit_or r.vector (r.error_code * 2 ^ 16)) (r.rflags / 2 ^ 16 % 2 * 2 ^ 8) % 2 ^ 32

-- The handler address for `rip`, in the table between the two linker symbols.
pub find_record : List ExRecord → ℕ → Option ℕ
find_record [] rip = none
find_record (x ∷ xs) rip = if x.rip == rip then some x.handler else find_record xs rip

-- What becomes of an exception: the saved registers that `iretq` goes back with, or the endless loop
-- of `unhandled_exception` with its argument `cpu`.
pub data Outcome : Type 0 where
  resume : Desc → ExRegs → Outcome
  hang : Bool → Outcome

pub check_table : List ExRecord → Desc → ExRegs → Outcome
unfolding ex_val find_record
check_table table d r = elim (find_record table r.rip) [
  | none ↦ hang false
  | some to ↦ resume (record d { gs4 = ex_val r }) (record r { rip = to })
]

pub do_handle_exception : List ExRecord → Desc → ExRegs → Outcome
do_handle_exception table d r = elim (ltb r.vector 256) [
  | false ↦ hang true
  | true ↦ elim (d.exception_handlers r.vector) [
    | none ↦ hang true
    | some check_exception_table ↦ check_table table d r
  ]
]

-- The bytes at `%gs:4` and `%gs:5`
pub exception_vector : Desc → ℕ
exception_vector d = d.gs4 % 2 ^ 8

pub exception_rflags_rf : Desc → Bool
exception_rflags_rf d = d.gs4 / 2 ^ 8 % 2 == 1

-- The letters behind '#' in the name of a vector.
pub exception_mnemonic : ℕ → List ℕ
exception_mnemonic v =
    if v == 0
    then b'D' ∷ b'E' ∷ []
    else if v == 1
    then b'D' ∷ b'B' ∷ []
    else if v == 2
    then b'N' ∷ b'M' ∷ b'I' ∷ []
    else if v == 3
    then b'B' ∷ b'P' ∷ []
    else if v == 4
    then b'O' ∷ b'F' ∷ []
    else if v == 5
    then b'B' ∷ b'R' ∷ []
    else if v == 6
    then b'U' ∷ b'D' ∷ []
    else if v == 7
    then b'N' ∷ b'M' ∷ []
    else if v == 8
    then b'D' ∷ b'F' ∷ []
    else if v == 10
    then b'T' ∷ b'S' ∷ []
    else if v == 11
    then b'N' ∷ b'P' ∷ []
    else if v == 12
    then b'S' ∷ b'S' ∷ []
    else if v == 13
    then b'G' ∷ b'P' ∷ []
    else if v == 14
    then b'P' ∷ b'F' ∷ []
    else if v == 16
    then b'M' ∷ b'F' ∷ []
    else if v == 17
    then b'A' ∷ b'C' ∷ []
    else if v == 18
    then b'M' ∷ b'C' ∷ []
    else if v == 19
    then b'X' ∷ b'M' ∷ []
    else b'?' ∷ b'?' ∷ []
