-- ===== src/Tests/Devices.antt =====
-- The screen with the cursor in its last cell, and a fault in the exception table.
use hyper_bench.Base.{
  ℕ, ◌+◌, ◌*◌, ◌%◌, ◌^◌, ◌≡◌, refl, List, [], ◌∷◌, none, some, arith, true, false,
}
use hyper_bench.Base.Memory.{Memory}
use hyper_bench.Console.{Console, console_puts}
use hyper_bench.Console.Put.{IsOnScreen, StaysOnScreen, console_puts-StaysOnScreen}
use hyper_bench.Desc.{
  IdtEntry, ExRegs, ExRecord, Desc, setup_idt, ex_val, find_record, resume, hang,
  do_handle_exception,
}
use hyper_bench.Desc.Dispatch.{IsRecovered, do_handle_exception_recovers}

abbrev screen : Memory
screen i = i

abbrev last_cell : Console
last_cell = record { vga = screen; cur_x = 79; cur_y = 24; console_cleared = true; ports = [] }

last_cell-IsOnScreen : IsOnScreen last_cell
last_cell-IsOnScreen = record { in_row = omega arith; in_column = omega arith }

console_puts-StaysOnScreen_example : StaysOnScreen (console_puts last_cell (65 ∷ 10 ∷ 66 ∷ []))
console_puts-StaysOnScreen_example =
    console_puts-StaysOnScreen last_cell (65 ∷ 10 ∷ 66 ∷ []) (λ cleared. last_cell-IsOnScreen)

abbrev gate_zero : IdtEntry
gate_zero = record {
  offset0 = 0;
  selector = 0;
  ist = 0;
  kind = 0;
  dpl = 0;
  p = 0;
  offset1 = 0;
  offset2 = 0;
  reserved = 0;
}

abbrev fresh : Desc
fresh = record {
  boot_idt = λ v. gate_zero;
  exception_handlers = λ v. none;
  idt_initialized = false;
  idt_limit = none;
  gs4 = 0;
}

-- The entry points stand 16 bytes apart, above 2 ^ 33.
abbrev fault : ℕ → ℕ
fault v = 2 ^ 33 + (v % 32) * 16

abbrev table : List ExRecord
table = record { rip = 500; handler = 600 } ∷ []

-- A general protection fault at 500, where the table has a fixup.
abbrev regs : ExRegs
regs = record { vector = 13; error_code = 0; rip = 500; rflags = 2 }

do_handle_exception_recovers_example :
    ((to : ℕ)
      → IsRecovered 13
      → find_record table 500 ≡ some to
      → do_handle_exception table (setup_idt 8 fault fresh) regs
        ≡ resume
            (record (setup_idt 8 fault fresh) { gs4 = ex_val regs })
            (record regs { rip = to }))
    × (IsRecovered 13
        → find_record table 500 ≡ none
        → do_handle_exception table (setup_idt 8 fault fresh) regs ≡ hang false)
    × (¬ (IsRecovered 13) → do_handle_exception table (setup_idt 8 fault fresh) regs ≡ hang true)
do_handle_exception_recovers_example =
    do_handle_exception_recovers 8 fault fresh table regs refl (λ v. refl)
