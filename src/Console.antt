-- ===== src/Console.antt =====
-- x86_64/console.c: the text screen. `vga` holds the cells by their index in the array; a write
-- through the null pointer that `slot_from_xy` may return is a fault, `none`.
pub mod Scroll
pub mod Put
use hyper_bench.Base.{
  ℕ, zero, suc, ◌+◌, ◌-◌, ◌*◌, ◌%◌, ◌^◌, bit_or, Bool, true, false, Option, none, some, List, [],
  ◌∷◌, ◌++◌, ◌==◌, ltb, leb, if◌then◌else◌, ◌>>=◌,
}
use hyper_bench.Base.Memory.{Memory, poke}

abbrev pub rows : ℕ
rows = 25

abbrev pub columns : ℕ
columns = 80

-- `ports` is the list of the port writes, value and port, in order.
pub record Console : Type 0 where
  pub vga : Memory
  pub cur_x : ℕ
  pub cur_y : ℕ
  pub console_cleared : Bool
  pub ports : List (ℕ × ℕ)

pub slot_from_xy : ℕ → ℕ → Option ℕ
slot_from_xy x y =
    if leb columns x then none else if leb rows y then none else some (x + y * columns)

clear_loop : ℕ → ℕ → Memory → Memory
clear_loop zero i vga = vga
clear_loop (suc left) i vga = clear_loop left (i + 1) (poke vga i 0)

pub console_clear : Console → Console
unfolding clear_loop
console_clear c = record c { vga = clear_loop (rows * columns) 0 c.vga; cur_x = 0; cur_y = 0 }

write_reg : Console → ℕ → ℕ → Console
write_reg c reg val = record c { ports = c.ports ++ ((reg, 0x3d4) ∷ (val, 0x3d5) ∷ []) }

pub console_init : Console → Console
unfolding write_reg console_clear
console_init c = console_clear (write_reg c 0x0a 0x20)

-- The row `y` from column `x` on, `left` columns: `*slot_from_xy(x, y) = *slot_from_xy(x, y + 1)`
pub copy_row : ℕ → ℕ → ℕ → Memory → Option Memory
unfolding slot_from_xy
copy_row zero x y vga = some vga
copy_row (suc left) x y vga = do
  to ← slot_from_xy x y
  from ← slot_from_xy x (y + 1)
  copy_row left (x + 1) y (poke vga to (vga from))

pub copy_rows : ℕ → ℕ → Memory → Option Memory
unfolding copy_row
copy_rows zero y vga = some vga
copy_rows (suc left) y vga = do vga' ← copy_row columns 0 y vga; copy_rows left (y + 1) vga'

pub clear_row : ℕ → ℕ → Memory → Option Memory
unfolding slot_from_xy
clear_row zero x vga = some vga
clear_row (suc left) x vga = do
  to ← slot_from_xy x (rows - 1)
  clear_row left (x + 1) (poke vga to 0)

pub scroll : Memory → Option Memory
scroll vga = do vga' ← copy_rows (rows - 1) 0 vga; clear_row columns 0 vga'

pub new_line : Console → Option Console
new_line c = elim (leb rows (c.cur_y + 1)) [
  | true ↦ do vga ← scroll c.vga; some (record c { vga = vga; cur_x = 0; cur_y = rows - 1 })
  | false ↦ some (record c { cur_x = 0; cur_y = c.cur_y + 1 })
]

-- `0x0700 | ch` cut to 16 bits. A `char` is signed, so a byte from 0x80 on is extended by ones.
pub cell : ℕ → ℕ
cell ch = bit_or 0x0700 (if ltb ch 0x80 then ch else 0xff00 + ch) % 2 ^ 16

put_cell : Console → ℕ → Option Console
put_cell c ch = do
  i ← slot_from_xy c.cur_x c.cur_y
  (let c' = record c { vga = poke c.vga i (cell ch); cur_x = c.cur_x + 1 } in
      if leb columns c'.cur_x then new_line c' else some c')

pub console_putc : Console → ℕ → Option Console
console_putc c ch =
    if ch == 10
    then new_line c
    else if ch == 13
    then some (record c { cur_x = 0 })
    else put_cell c ch

put_all : Console → List ℕ → Option Console
put_all c [] = some c
put_all c (ch ∷ s) = do c' ← console_putc c ch; put_all c' s

-- `console_puts` on the bytes of a string, with the lock held.
pub console_puts : Console → List ℕ → Option Console
console_puts c s =
    put_all (if c.console_cleared then c else record (console_init c) { console_cleared = true }) s
