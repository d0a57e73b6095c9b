-- ===== src/Console/Put.antt =====
-- Characters on the screen of x86_64/console.c.
use hyper_bench.Base.{
  ℕ, ◌+◌, ◌*◌, ◌<◌, ◌≡◌, ◌≢◌, inl, inr, refl, arith, Option, some, List, [], ◌∷◌, leb, ◌==◌,
  if◌then◌else◌, Bool-cases, Bool, true, false, ==_of_ne, leb_of_lt,
}
use hyper_bench.Base.Memory.{poke, poke_self, poke_ne}
use hyper_bench.Console.{
  Console, new_line, cell, put_cell, console_putc, put_all, console_puts, console_init,
}
use hyper_bench.Console.Scroll.{slot_inside, scroll_rows}

-- The cursor stands on the screen.
pub record IsOnScreen (c : Console) : Type 0 where
  pub in_row : c.cur_x < 80
  pub in_column : c.cur_y < 25

-- A result that is no fault and keeps the cursor on the screen.
abbrev pub StaysOnScreen : Option Console → Type 0
StaysOnScreen r = (c : Console) × (r ≡ some c) × IsOnScreen c

new_line-StaysOnScreen : (c : Console) → StaysOnScreen (new_line c)
unfolding new_line
new_line-StaysOnScreen c = elim (Bool-cases (leb 25 (c.cur_y + 1))) [
  | inl last ↦
      let (out, e, _, _, _) = scroll_rows c.vga in
      rw (last, new_line)
        (rw e (
          record c { vga = out; cur_x = 0; cur_y = 24 },
          refl,
          record { in_row = omega arith; in_column = omega arith },
        ))
  | inr room ↦
      rw (room, new_line)
        (
          record c { cur_x = 0; cur_y = c.cur_y + 1 },
          refl,
          record { in_row = omega arith; in_column = ground arith },
        )
]

-- `console_putc` with the cursor on the screen writes through no null pointer, and leaves the cursor
-- on the screen.
pub console_putc-StaysOnScreen :
    (c : Console) (ch : ℕ) → IsOnScreen c → StaysOnScreen (console_putc c ch)
unfolding console_putc put_cell
console_putc-StaysOnScreen c ch on = elim (Bool-cases (ch == 10)) [
  | inl e ↦ rw e (new_line-StaysOnScreen c)
  | inr e1 ↦ elim (Bool-cases (ch == 13)) [
    | inl e ↦
        rw (e1, e)
          (record c { cur_x = 0 }, refl, record { in_row = omega arith; in_column = on.in_column })
    | inr e2 ↦
        rw (e1, e2)
          (rw (slot_inside c.cur_x c.cur_y on.in_row on.in_column)
            (elim (Bool-cases (leb 80 (c.cur_x + 1))) [
              | inl e ↦ rw e (new_line-StaysOnScreen _)
              | inr e ↦ rw e (
                record c {
                  vga = poke c.vga (c.cur_x + c.cur_y * 80) (cell ch);
                  cur_x = c.cur_x + 1;
                },
                refl,
                record { in_row = ground arith; in_column = on.in_column },
              )
            ]))
  ]
]

put_all-StaysOnScreen : (s : List ℕ) (c : Console) → IsOnScreen c → StaysOnScreen (put_all c s)
unfolding put_all
put_all-StaysOnScreen [] c on = (c, refl, on)
put_all-StaysOnScreen (ch ∷ s) c on =
    let (c', e, on') = console_putc-StaysOnScreen c ch on in rw e (put_all-StaysOnScreen s c' on')

-- `console_puts` prints every string without a fault: from the first call, which clears the screen,
-- or from any state with the cursor on the screen.
pub console_puts-StaysOnScreen :
    (c : Console) (s : List ℕ)
    → (c.console_cleared ≡ true → IsOnScreen c)
    → StaysOnScreen (console_puts c s)
unfolding console_puts
console_puts-StaysOnScreen c s on = go c.console_cleared on
  where
    go :
        (b : Bool)
        → (b ≡ true → IsOnScreen c)
        → StaysOnScreen
            (put_all (if b then c else record (console_init c) { console_cleared = true }) s)
    go true h = put_all-StaysOnScreen s c (h refl)
    go false h =
        put_all-StaysOnScreen s (record (console_init c) { console_cleared = true })
          (record {
            in_row = unfold console_init in omega arith;
            in_column = unfold console_init in omega arith;
          })

-- A printing character inside a row goes to the cell under the cursor, all other cells stay, and
-- the cursor moves one place to the right.
pub console_putc_printing :
    (c : Console) (ch : ℕ)
    → ch ≢ 10
    → ch ≢ 13
    → c.cur_x < 79
    → c.cur_y < 25
    → (c' : Console) × (console_putc c ch ≡ some c')
      × (c'.vga (c.cur_x + c.cur_y * 80) ≡ cell ch)
      × ((i : ℕ) → i ≢ c.cur_x + c.cur_y * 80 → c'.vga i ≡ c.vga i)
      × (c'.cur_x ≡ c.cur_x + 1)
      × (c'.cur_y ≡ c.cur_y)
unfolding console_putc put_cell
console_putc_printing c ch n1 n2 hx hy =
    rw (==_of_ne ch 10 n1, ==_of_ne ch 13 n2)
      (rw (slot_inside c.cur_x c.cur_y (omega arith) hy) (
        rw (leb_of_lt 80 (c.cur_x + 1) (omega arith)) (
          record c { vga = poke c.vga (c.cur_x + c.cur_y * 80) (cell ch); cur_x = c.cur_x + 1 },
          refl,
          poke_self c.vga (c.cur_x + c.cur_y * 80) (cell ch),
          λ i ne. poke_ne c.vga (c.cur_x + c.cur_y * 80) (cell ch) i ne,
          refl,
          refl,
        )))
