-- ===== src/Serial.antt =====
-- x86_64/serial.c with USE_SERIAL. The readings of the line status register that are to come are a
-- list; `none` means that it ends before the transmitter is ready.
pub mod Output
use hyper_bench.Base.{
  ℕ, ◌+◌, ◌-◌, ◌/◌, ◌%◌, ◌^◌, Bool, true, false, Option, none, some, List, [], ◌∷◌, ◌++◌, ◌==◌,
  if◌then◌else◌, ◌>>=◌,
}

-- The line control register, `serial_inited`, the readings to come and the writes done: port and
-- value.
pub record Serial : Type 0 where
  pub lcr : ℕ
  pub serial_inited : Bool
  pub readings : List ℕ
  pub writes : List (ℕ × ℕ)

abbrev pub serial_iobase : ℕ
serial_iobase = 0x3f8

-- `outb`; a write to the line control register is kept there.
pub write_port : Serial → ℕ → ℕ → Serial
write_port s v port =
    let s' = record s { writes = s.writes ++ ((port, v) ∷ []) } in
    if port == serial_iobase + 3 then record s' { lcr = v } else s'

-- `lsr & 0x20`
abbrev pub is_ready : ℕ → Bool
is_ready lsr = (lsr / 2 ^ 5) % 2 == 1

-- `do lsr = inb(serial_iobase + 0x05); while (!(lsr & 0x20));`, and the readings left.
pub wait_ready : List ℕ → Option (List ℕ)
wait_ready [] = none
wait_ready (lsr ∷ rest) = elim (is_ready lsr) [ true ↦ some rest | false ↦ wait_ready rest ]

pub serial_outb : Serial → ℕ → Option Serial
serial_outb s ch = do
  rest ← wait_ready s.readings
  some (write_port (record s { readings = rest }) ch serial_iobase)

-- `lcr | 0x80` and `lcr & ~0x80`
abbrev pub set_dlab : ℕ → ℕ
set_dlab lcr = if (lcr / 2 ^ 7) % 2 == 1 then lcr else lcr + 0x80

abbrev pub clear_dlab : ℕ → ℕ
clear_dlab lcr = if (lcr / 2 ^ 7) % 2 == 1 then lcr - 0x80 else lcr

pub serial_init : Serial → Serial
unfolding write_port
serial_init s =
    let s1 = write_port s (set_dlab s.lcr) (serial_iobase + 3) in
    let s2 = write_port (write_port s1 0x01 serial_iobase) 0x00 (serial_iobase + 1) in
    write_port s2 (clear_dlab s2.lcr) (serial_iobase + 3)

pub send_all : Serial → List ℕ → Option Serial
unfolding serial_outb
send_all s [] = some s
send_all s (c ∷ cs) = do s' ← serial_outb s c; send_all s' cs

-- The string is the list of its bytes.
pub print_serial : Serial → List ℕ → Option Serial
unfolding serial_init send_all
print_serial s buf =
    send_all (if s.serial_inited then s else record (serial_init s) { serial_inited = true }) buf

-- `puts` is `print_serial` between taking and leaving the lock.
unfoldable pub puts : Serial → List ℕ → Option Serial
unfolding print_serial
puts s buf = print_serial s buf

-- `serial_putc`: the loop tests the same bit before the write.
unfoldable pub serial_putc : Serial → ℕ → Option Serial
unfolding serial_outb
serial_putc s ch = serial_outb s ch

-- "Shutdown", one byte after the other, to the port 0x8900
pub exit_loop : Serial → List ℕ → Serial
unfolding write_port
exit_loop s [] = s
exit_loop s (c ∷ cs) = exit_loop (write_port s c 0x8900) cs

pub exit : Serial → ℕ → Serial
unfolding exit_loop
exit s code =
    exit_loop (write_port s code 0xf4) (b'S' ∷ b'h' ∷ b'u' ∷ b't' ∷ b'd' ∷ b'o' ∷ b'w' ∷ b'n' ∷ [])

-- `abort` of lib/abort.c
pub abort : Serial → Serial
unfolding exit
abort s = exit s 63
