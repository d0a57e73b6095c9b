-- ===== src/Console/Scroll.antt =====
-- Scrolling of x86_64/console.c.
use hyper_bench.Base.{
  ℕ, zero, suc, ◌+◌, ◌*◌, ◌≤◌, ◌<◌, ◌≡◌, ◌⊎◌, inl, inr, refl, arith, Option, some, leb, ltb, ◌∙◌,
  ap, Bool-cases, leb_of_lt, sym,
}
use hyper_bench.Base.Memory.{Memory, poke, poke_self, poke_ne}
use hyper_bench.Console.{slot_from_xy, copy_row, copy_rows, clear_row, scroll}

pub slot_inside : (x y : ℕ) → x < 80 → y < 25 → slot_from_xy x y ≡ some (x + y * 80)
unfolding slot_from_xy
slot_inside x y hx hy = rw (leb_of_lt 80 x hx, leb_of_lt 25 y hy)

-- The cells from `lo` up to `hi` hold what stood `by` cells further on, and the others are as before.
pub record IsShifted (lo hi by : ℕ) (vga : Memory) (r : Option Memory) : Type 0 where
  pub out : Memory
  pub returns : r ≡ some out
  pub moved : (i : ℕ) → lo ≤ i → i < hi → out i ≡ vga (i + by)
  pub same : (i : ℕ) → (i < lo) ⊎ (hi ≤ i) → out i ≡ vga i

copy_row-IsShifted :
    (left x y : ℕ) (vga : Memory)
    → x + left ≡ 80
    → y < 24
    → IsShifted (x + y * 80) (80 + y * 80) 80 vga (copy_row left x y vga)
unfolding copy_row
copy_row-IsShifted zero x y vga e hy = record {
  out = vga;
  returns = refl;
  moved = λ i lo hi. absurd (omega arith);
  same = λ i o. refl;
}
copy_row-IsShifted (suc left) x y vga e hy =
    let to = x + y * 80 in
    let v = vga (x + (y + 1) * 80) in
    let rest = copy_row-IsShifted left (x + 1) y (poke vga to v) (omega arith) hy in
    record {
      out = rest.out;
      returns =
          rw
            (
              slot_inside x y (omega arith) (omega arith),
              slot_inside x (y + 1) (omega arith) (omega arith),
            )
            rest.returns;
      moved = λ i lo hi. elim (Bool-cases (leb i to)) [
        | inl at_to ↦
            let ei : i ≡ x + y * 80 = ground arith in
            let es : i + 80 ≡ x + (y + 1) * 80 = omega arith in
            rest.same i (omega arith) ∙ ap (poke vga to v) ei ∙ poke_self vga to v ∙ ap vga (sym es)
        | inr past ↦
            let h : x + y * 80 < i = ground arith in
            rest.moved i (omega arith) hi ∙ poke_ne vga to v (i + 80) (omega arith)
      ];
      same = λ i o. rest.same i (omega arith) ∙ poke_ne vga to v i (omega arith);
    }

copy_rows-IsShifted :
    (left y : ℕ) (vga : Memory)
    → y + left ≡ 24
    → IsShifted (y * 80) (24 * 80) 80 vga (copy_rows left y vga)
unfolding copy_rows
copy_rows-IsShifted zero y vga e = record {
  out = vga;
  returns = refl;
  moved = λ i lo hi. absurd (omega arith);
  same = λ i o. refl;
}
copy_rows-IsShifted (suc left) y vga e =
    let row = copy_row-IsShifted 80 0 y vga refl (omega arith) in
    let rest = copy_rows-IsShifted left (y + 1) row.out (omega arith) in
    record {
      out = rest.out;
      returns = rw row.returns rest.returns;
      moved = λ i lo hi. elim (Bool-cases (ltb i ((y + 1) * 80))) [
        | inl here ↦
            let h : i < (y + 1) * 80 = ground arith in
            rest.same i (omega arith) ∙ row.moved i (omega arith) (omega arith)
        | inr below ↦
            let h : (y + 1) * 80 ≤ i = ground arith in
            rest.moved i (omega arith) hi ∙ row.same (i + 80) (omega arith)
      ];
      same = λ i o. rest.same i (omega arith) ∙ row.same i (omega arith);
    }

-- The cells of the last row from column `x` on are 0, and the others are as before.
pub record IsCleared (x : ℕ) (vga : Memory) (r : Option Memory) : Type 0 where
  pub out : Memory
  pub returns : r ≡ some out
  pub zeros : (i : ℕ) → x + 24 * 80 ≤ i → i < 25 * 80 → out i ≡ 0
  pub same : (i : ℕ) → (i < x + 24 * 80) ⊎ (25 * 80 ≤ i) → out i ≡ vga i

clear_row-IsCleared :
    (left x : ℕ) (vga : Memory) → x + left ≡ 80 → IsCleared x vga (clear_row left x vga)
unfolding clear_row
clear_row-IsCleared zero x vga e = record {
  out = vga;
  returns = refl;
  zeros = λ i lo hi. absurd (omega arith);
  same = λ i o. refl;
}
clear_row-IsCleared (suc left) x vga e =
    let to = x + 24 * 80 in
    let rest = clear_row-IsCleared left (x + 1) (poke vga to 0) (omega arith) in
    record {
      out = rest.out;
      returns = rw (slot_inside x 24 (omega arith) (omega arith)) rest.returns;
      zeros = λ i lo hi. elim (Bool-cases (leb i (x + 24 * 80))) [
        | inl at_to ↦
            let ei : i ≡ x + 24 * 80 = ground arith in
            rest.same i (omega arith) ∙ ap (poke vga to 0) ei ∙ poke_self vga to 0
        | inr past ↦ rest.zeros i (ground arith) hi
      ];
      same = λ i o. rest.same i (omega arith) ∙ poke_ne vga to 0 i (omega arith);
    }

-- Scrolling never leaves the screen: each of the first 24 rows becomes the row below it, the last
-- row becomes blank, and no cell outside the screen changes.
pub scroll_rows :
    (vga : Memory)
    → (out : Memory) × (scroll vga ≡ some out)
      × ((i : ℕ) → i < 24 * 80 → out i ≡ vga (i + 80))
      × ((i : ℕ) → 24 * 80 ≤ i → i < 25 * 80 → out i ≡ 0)
      × ((i : ℕ) → 25 * 80 ≤ i → out i ≡ vga i)
unfolding scroll
scroll_rows vga =
    let up = copy_rows-IsShifted 24 0 vga refl in
    let last = clear_row-IsCleared 80 0 up.out refl in
    (
      last.out,
      rw up.returns last.returns,
      λ i lt. last.same i (omega arith) ∙ up.moved i (omega arith) lt,
      λ i lo hi. last.zeros i lo hi,
      λ i lo. last.same i (omega arith) ∙ up.same i (omega arith),
    )
