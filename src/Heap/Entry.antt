-- ===== src/Heap/Entry.antt =====
-- What the write of a last entry changes of the translation by the tables of x86_64/heap.c.
use hyper_bench.Base.{
  ℕ, zero, suc, ◌+◌, ◌*◌, ◌<◌, ◌≡◌, ◌≢◌, refl, sym, ap, ◌∙◌, none, some, arith, if◌then◌else◌,
  Bool-cases, inl, inr,
}
use hyper_bench.Base.Memory.{Memory}
use hyper_bench.Heap.{pgdir_offset, slot, is_present, pt_addr}
use hyper_bench.Heap.Walk.{translate, leaf, AreTables, page_of, pgdir_offset_lt, page_of-slot}

module _ (m m' : Memory) (level up : ℕ → ℕ) (tables : AreTables m level up) (s : ℕ)
    (last : level (page_of s) ≡ 1) (same : (a : ℕ) → a ≢ s → m' a ≡ m a) where
  -- No entry of a higher table stands at `s`.
  higher : (r j : ℕ) → j < 512 → 1 < level r → r + 8 * j ≢ s
  higher r j lt l e =
      let al = tables.aligned r (omega arith) in
      let d : page_of s ≡ r = ap page_of (sym e) ∙ page_of-slot r j al.0 lt in
      absurd (omega (arith, ap level d, last))

  pub entry-AreTables : AreTables m' level up
  entry-AreTables = record {
    aligned = tables.aligned;
    links = λ r j lt l h.
        let kept = same (r + 8 * j) (higher r j lt l) in
        rw kept (tables.links r j lt l (rw kept at h));
  }

  pub translate-other :
      (k r virt : ℕ)
      → level r ≡ suc k
      → leaf k m r virt ≢ some s
      → translate k m' r virt ≡ translate k m r virt
  translate-other zero r virt l ne =
      let kept = same (slot r virt 1) (λ e. ne (ap some e)) in rw kept refl
  translate-other (suc k) r virt l ne =
      let o = pgdir_offset_lt virt (k + 2) in
      let kept =
        same (slot r virt (k + 2)) (higher r (pgdir_offset virt (k + 2)) o (omega arith)) in
      rw kept (elim (Bool-cases (is_present (m (slot r virt (k + 2))))) [
        | inl h ↦
            let link = tables.links r (pgdir_offset virt (k + 2)) o (omega arith) h in
            rw h (
              translate-other k (pt_addr (m (slot r virt (k + 2)))) virt (omega arith) (rw h at ne))
        | inr h ↦ rw h refl
      ])

  pub translate-here :
      (k r virt : ℕ)
      → level r ≡ suc k
      → leaf k m r virt ≡ some s
      → translate k m' r virt ≡ (if is_present (m' s) then some (pt_addr (m' s)) else none)
  translate-here zero r virt l e = let f : slot r virt 1 ≡ s = cc in rw f refl
  translate-here (suc k) r virt l e =
      let o = pgdir_offset_lt virt (k + 2) in
      let kept =
        same (slot r virt (k + 2)) (higher r (pgdir_offset virt (k + 2)) o (omega arith)) in
      rw kept (elim (Bool-cases (is_present (m (slot r virt (k + 2))))) [
        | inl h ↦
            let link = tables.links r (pgdir_offset virt (k + 2)) o (omega arith) h in
            rw h
              (translate-here k (pt_addr (m (slot r virt (k + 2)))) virt (omega arith) (rw h at e))
        | inr h ↦ absurd (let f = rw h at e in cc)
      ])

  -- The walk still ends where it did.
  pub leaf-entry : (k r virt : ℕ) → level r ≡ suc k → leaf k m' r virt ≡ leaf k m r virt
  leaf-entry zero r virt l = refl
  leaf-entry (suc k) r virt l =
      let o = pgdir_offset_lt virt (k + 2) in
      let kept =
        same (slot r virt (k + 2)) (higher r (pgdir_offset virt (k + 2)) o (omega arith)) in
      rw kept (elim (Bool-cases (is_present (m (slot r virt (k + 2))))) [
        | inl h ↦
            let link = tables.links r (pgdir_offset virt (k + 2)) o (omega arith) h in
            rw h (leaf-entry k (pt_addr (m (slot r virt (k + 2)))) virt (omega arith))
        | inr h ↦ rw h refl
      ])
