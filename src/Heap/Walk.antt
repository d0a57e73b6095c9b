-- ===== src/Heap/Walk.antt =====
-- The processor's walk through the page tables that x86_64/heap.c builds, for pages of 4 KB, and the
-- tables that it finds.
use hyper_bench.Base.{
  ℕ, zero, suc, ◌+◌, ◌*◌, ◌/◌, ◌%◌, ◌^◌, ◌≤◌, ◌<◌, ◌≡◌, ◌≢◌, inl, inr, sym, ap, ◌∙◌, true, Option,
  none, some, arith, if◌then◌else◌, Bool-cases,
}
use native.Mathlib.Decide.{dec_le}
use hyper_bench.Base.Memory.{Memory}
use hyper_bench.Heap.{pgdir_offset, slot, is_present, pt_addr}

-- What the walk finds for `virt` from the table `pt` on, which has `k` tables below it: the page, or
-- `none` where an entry is not present.
abbrev pub translate : ℕ → Memory → ℕ → ℕ → Option ℕ
translate zero m pt virt =
    if is_present (m (slot pt virt 1)) then some (pt_addr (m (slot pt virt 1))) else none
translate (suc k) m pt virt =
    if is_present (m (slot pt virt (k + 2)))
    then translate k m (pt_addr (m (slot pt virt (k + 2)))) virt
    else none

-- The place of the last entry of the walk.
abbrev pub leaf : ℕ → Memory → ℕ → ℕ → Option ℕ
leaf zero m pt virt = some (slot pt virt 1)
leaf (suc k) m pt virt =
    if is_present (m (slot pt virt (k + 2)))
    then leaf k m (pt_addr (m (slot pt virt (k + 2)))) virt
    else none

-- The tables form trees: `level p` is 0 where `p` is no table, and else 1 more than the number of
-- tables below it; `up p` is the place of the one entry that leads to it.
pub record AreTables (m : Memory) (level up : ℕ → ℕ) : Type 0 where
  pub aligned : (p : ℕ) → level p ≢ 0 → (p % 4096 ≡ 0) × (p < 2 ^ 52) × (p ≢ 0)
  pub links :
      (p i : ℕ)
      → i < 512
      → 1 < level p
      → is_present (m (p + 8 * i)) ≡ true
      → (level (pt_addr (m (p + 8 * i))) + 1 ≡ level p) × (up (pt_addr (m (p + 8 * i))) ≡ p + 8 * i)

pub pgdir_offset_lt : (virt lvl : ℕ) → pgdir_offset virt lvl < 512
pgdir_offset_lt virt lvl = omega arith

same_entry : (p i j : ℕ) → p + 8 * i ≡ p + 8 * j → i ≡ j
same_entry p i j h = omega arith

-- A place in a table, and the table that it is in.
pub page_of : ℕ → ℕ
page_of a = a / 4096 * 4096

pub page_of-slot : (p i : ℕ) → p % 4096 ≡ 0 → i < 512 → page_of (p + 8 * i) ≡ p
unfolding page_of
page_of-slot p i al lt = omega arith

-- The table `k` levels above the one with the place `s`.
abbrev climb : (ℕ → ℕ) → ℕ → ℕ → ℕ
climb up zero s = page_of s
climb up (suc k) s = page_of (up (climb up k s))

module _ (m : Memory) (level up : ℕ → ℕ) (tables : AreTables m level up) where
  -- The place of the last entry names the table that the walk set out from.
  pub leaf-climb :
      (k p virt s : ℕ)
      → level p ≡ suc k
      → leaf k m p virt ≡ some s
      → (climb up k s ≡ p) × (level (page_of s) ≡ 1)
  leaf-climb zero p virt s l e =
      let al = tables.aligned p (omega arith) in
      let d : page_of (slot p virt 1) ≡ p = page_of-slot p _ al.0 (pgdir_offset_lt virt 1) in
      let f : slot p virt 1 ≡ s = cc in let g : page_of s ≡ p = rw f at d in (g, ap level g ∙ l)
  leaf-climb (suc k) p virt s l e = elim (Bool-cases (is_present (m (slot p virt (k + 2))))) [
    | inl h ↦
        let al = tables.aligned p (omega arith) in
        let o = pgdir_offset_lt virt (k + 2) in
        let link = tables.links p (pgdir_offset virt (k + 2)) o (omega arith) h in
        let below =
          leaf-climb k (pt_addr (m (slot p virt (k + 2)))) virt s (omega arith) (rw h at e) in
        (ap (λ q. page_of (up q)) below.0 ∙ ap page_of link.1 ∙ page_of-slot p _ al.0 o, below.1)
    | inr h ↦ absurd (let f = rw h at e in cc)
  ]

  -- Two walks that end at the same place took the same entry at every level.
  pub same_offset :
      (k p virt virt' s : ℕ)
      → level p ≡ suc k
      → leaf k m p virt ≡ some s
      → leaf k m p virt' ≡ some s
      → (j : ℕ) → j ≤ k
      → pgdir_offset virt (j + 1) ≡ pgdir_offset virt' (j + 1)
  same_offset zero p virt virt' s l e e' j le =
      let z : j ≡ 0 = omega arith in
      let f : slot p virt 1 ≡ slot p virt' 1 = cc in rw z (omega arith)
  same_offset (suc k) p virt virt' s l e e' j le =
      elim (Bool-cases (is_present (m (slot p virt (k + 2))))) [
        | inr h ↦ absurd (let f = rw h at e in cc)
        | inl h ↦ elim (Bool-cases (is_present (m (slot p virt' (k + 2))))) [
          | inr h' ↦ absurd (let f = rw h' at e' in cc)
          | inl h' ↦
              let o = pgdir_offset_lt virt (k + 2) in
              let o' = pgdir_offset_lt virt' (k + 2) in
              let link = tables.links p (pgdir_offset virt (k + 2)) o (omega arith) h in
              let link' = tables.links p (pgdir_offset virt' (k + 2)) o' (omega arith) h' in
              let q : ℕ = pt_addr (m (slot p virt (k + 2))) in
              let q' : ℕ = pt_addr (m (slot p virt' (k + 2))) in
              let below : leaf k m q virt ≡ some s = rw h at e in
              let below' : leaf k m q' virt' ≡ some s = rw h' at e' in
              let c = leaf-climb k q virt s (omega arith) below in
              let c' = leaf-climb k q' virt' s (omega arith) below' in
              let same : q ≡ q' = sym c.0 ∙ c'.0 in
              let top : p + 8 * pgdir_offset virt (k + 2) ≡ p + 8 * pgdir_offset virt' (k + 2) =
                sym link.1 ∙ ap up same ∙ link'.1 in
              let here : pgdir_offset virt (k + 2) ≡ pgdir_offset virt' (k + 2) =
                same_entry p (pgdir_offset virt (k + 2)) (pgdir_offset virt' (k + 2)) top in
              elim (dec_le j k) [
                | yes lower ↦
                    same_offset k q virt virt' s (omega arith) below (rw same below') j lower
                | no above ↦ (let t : j + 1 ≡ k + 2 = omega arith in rw t here)
              ]
        ]
      ]
