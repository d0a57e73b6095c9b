-- ===== src/Heap/Grow.antt =====
-- What a new table or a new last entry changes of the translation that the tables of x86_64/heap.c
-- give.
use hyper_bench.Base.{
  ℕ, zero, suc, ◌+◌, ◌-◌, ◌*◌, ◌%◌, ◌^◌, ◌≤◌, ◌<◌, ◌≡◌, ◌≢◌, ◌⊎◌, inl, inr, refl, sym, ap, ◌∙◌,
  true, false, Option, none, arith, if◌then◌else◌, ◌==◌, Bool-cases, ==_iff, ==_refl, ==_of_ne,
}
use hyper_bench.Base.Memory.{Memory, update}
use hyper_bench.Heap.{pgdir_offset, slot, is_present, pt_addr}
use hyper_bench.Heap.Walk.{translate, AreTables, pgdir_offset_lt}

-- The walk from the entry at `x` on.
abbrev entry_step : ℕ → Memory → ℕ → ℕ → Option ℕ
entry_step k m x virt = if is_present (m x) then translate k m (pt_addr (m x)) virt else none

same_table :
    (r p o i : ℕ) → r % 4096 ≡ 0 → p % 4096 ≡ 0 → o < 512 → i < 512 → r + 8 * o ≡ p + 8 * i → r ≡ p
same_table r p o i hr hp ho hi e = omega arith

==_false : (a b : ℕ) → (a == b) ≡ false → a ≢ b
==_false a b h = ground arith

-- The memory `m'` has at `p + 8 * i` an entry that leads to the page `q`, which is clear, and is
-- `m` elsewhere.
pub record IsLinked (m m' : Memory) (p i q : ℕ) : Type 0 where
  pub entry : m' (p + 8 * i) ≡ q + 7
  pub clear : (a : ℕ) → q ≤ a → a < q + 4096 → m' a ≡ 0
  pub same : (a : ℕ) → (a < q) ⊎ (q + 4096 ≤ a) → a ≢ p + 8 * i → m' a ≡ m a

-- What a new table `q` at the entry `p + 8 * i` leaves: tables with it, and all that held without it.
pub record Grows (m m' : Memory) (level up : ℕ → ℕ) (p i q : ℕ) : Type 0 where
  pub tables : AreTables m' (update level q (level p - 1)) (update up q (p + 8 * i))
  pub keeps : (t : ℕ) → level t ≢ 0 → update level q (level p - 1) t ≡ level t
  pub same : (k t virt : ℕ) → level t ≡ suc k → translate k m' t virt ≡ translate k m t virt
  pub present :
      (t j : ℕ)
      → level t ≢ 0
      → j < 512
      → is_present (m (t + 8 * j)) ≡ true
      → m' (t + 8 * j) ≡ m (t + 8 * j)
  pub child : pt_addr (m' (p + 8 * i)) ≡ q
  pub child_present : is_present (m' (p + 8 * i)) ≡ true
  pub child_level : update level q (level p - 1) q ≡ level p - 1

module _ (m m' : Memory) (level up : ℕ → ℕ) (tables : AreTables m level up) (p i q : ℕ)
    (p_level : 1 < level p) (i_lt : i < 512) (absent : is_present (m (p + 8 * i)) ≡ false)
    (q_free : level q ≡ 0) (q_aligned : q % 4096 ≡ 0) (q_small : q < 2 ^ 52) (q_some : q ≢ 0)
    (linked : IsLinked m m' p i q) where
  abbrev level' : ℕ → ℕ
  level' = update level q (level p - 1)

  abbrev up' : ℕ → ℕ
  up' = update up q (p + 8 * i)

  entry_addr : pt_addr (m' (p + 8 * i)) ≡ q
  entry_addr = let e = linked.entry in rw e (omega arith)

  -- A place in a table other than the new one.
  outside_q : (r j : ℕ) → level r ≢ 0 → j < 512 → (r + 8 * j < q) ⊎ (q + 4096 ≤ r + 8 * j)
  outside_q r j l lt =
      let al = tables.aligned r l in let ne : r ≢ q = λ e. l (ap level e ∙ q_free) in omega arith

  q_zero : (j : ℕ) → j < 512 → m' (q + 8 * j) ≡ 0
  q_zero j lt = linked.clear (q + 8 * j) (omega arith) (omega arith)

  translate_q : (k virt : ℕ) → translate k m' q virt ≡ none
  translate_q zero virt = rw (q_zero (pgdir_offset virt 1) (pgdir_offset_lt virt 1)) refl
  translate_q (suc k) virt =
      rw (q_zero (pgdir_offset virt (k + 2)) (pgdir_offset_lt virt (k + 2))) refl

  new_entry : (k virt : ℕ) → entry_step k m' (p + 8 * i) virt ≡ none
  new_entry k virt =
      let e = linked.entry in
      let here : is_present (m' (p + 8 * i)) ≡ true = rw e (ground arith) in
      rw here (rw entry_addr (translate_q k virt))

  old_entry : (k virt : ℕ) → entry_step k m (p + 8 * i) virt ≡ none
  old_entry k virt = rw absent refl

  -- No translation changes.
  translate-linked : (k r virt : ℕ) → level r ≡ suc k → translate k m' r virt ≡ translate k m r virt
  translate-linked zero r virt l =
      let o = pgdir_offset_lt virt 1 in
      let al = tables.aligned r (omega arith) in
      let alp = tables.aligned p (omega arith) in
      let ne : slot r virt 1 ≢ p + 8 * i = λ e. absurd (
        omega (
          arith,
          same_table r p (pgdir_offset virt 1) i al.0 alp.0 o i_lt e,
          ap level (same_table r p (pgdir_offset virt 1) i al.0 alp.0 o i_lt e),
        )) in
      rw (linked.same (slot r virt 1) (outside_q r (pgdir_offset virt 1) (omega arith) o) ne) refl
  translate-linked (suc k) r virt l =
      let x : ℕ = slot r virt (k + 2) in
      let o = pgdir_offset_lt virt (k + 2) in
      elim (Bool-cases (x == p + 8 * i)) [
        | inl e ↦
            let at_entry : x ≡ p + 8 * i = (==_iff x (p + 8 * i)).0 e in
            ap (λ y. entry_step k m' y virt) at_entry
            ∙ new_entry k virt
            ∙ sym (ap (λ y. entry_step k m y virt) at_entry ∙ old_entry k virt)
        | inr e ↦
            let ne : x ≢ p + 8 * i = λ f. ==_false x (p + 8 * i) e f in
            let kept = linked.same x (outside_q r (pgdir_offset virt (k + 2)) (omega arith) o) ne in
            rw kept (elim (Bool-cases (is_present (m x))) [
              | inl h ↦
                  let link = tables.links r (pgdir_offset virt (k + 2)) o (omega arith) h in
                  rw h (translate-linked k (pt_addr (m x)) virt (omega arith))
              | inr h ↦ rw h refl
            ])
      ]

  other_level : (r : ℕ) → level r ≢ 0 → (level' r ≡ level r) × (up' r ≡ up r)
  other_level r l =
      let ne : (r == q) ≡ false = ==_of_ne r q (λ e. l (ap level e ∙ q_free)) in
      (rw ne refl, rw ne refl)

  new_level : (level' q ≡ level p - 1) × (up' q ≡ p + 8 * i)
  new_level = let e = ==_refl q in (rw e refl, rw e refl)

  LinksTo : ℕ → ℕ → ℕ → Type 0
  LinksTo r j c = (level' c + 1 ≡ level' r) × (up' c ≡ r + 8 * j)

  links_new : (r j : ℕ) → r ≡ p → j ≡ i → LinksTo r j (pt_addr (m' (r + 8 * j)))
  unfolding LinksTo
  links_new r j er ej =
      let o = other_level p (omega arith) in
      rw (er, ej, entry_addr) (omega (arith, new_level.0, o.0), new_level.1)

  links_old :
      (r j : ℕ)
      → j < 512
      → 1 < level r
      → r + 8 * j ≢ p + 8 * i
      → is_present (m' (r + 8 * j)) ≡ true
      → LinksTo r j (pt_addr (m' (r + 8 * j)))
  unfolding LinksTo
  links_old r j lt l ne h =
      let kept = linked.same (r + 8 * j) (outside_q r j (omega arith) lt) ne in
      let link = tables.links r j lt l (rw kept at h) in
      let o = other_level r (omega arith) in
      let c = other_level (pt_addr (m (r + 8 * j))) (omega arith) in
      rw kept (omega (arith, link.0, o.0, c.0), c.1 ∙ link.1)

  -- The tables with the new one are tables.
  linked-AreTables : AreTables m' level' up'
  linked-AreTables = record {
    aligned = λ r l. elim (Bool-cases (r == q)) [
      | inl e ↦ (let s : r ≡ q = (==_iff r q).0 e in rw s (q_aligned, q_small, q_some))
      | inr e ↦ tables.aligned r (rw e at l)
    ];
    links = λ r j lt l h. elim (Bool-cases (r == q)) [
      | inl e ↦
          let s : r ≡ q = (==_iff r q).0 e in
          let z : m' (r + 8 * j) ≡ 0 = rw s (q_zero j lt) in absurd (let h' = rw z at h in cc)
      | inr e ↦
          let old : 1 < level r = rw e at l in
          elim (Bool-cases (r + 8 * j == p + 8 * i)) [
            | inl f ↦
                let t = (==_iff (r + 8 * j) (p + 8 * i)).0 f in
                let al = tables.aligned r (omega arith) in
                let alp = tables.aligned p (omega arith) in
                unfold LinksTo in
                links_new r j (same_table r p j i al.0 alp.0 lt i_lt t) (omega arith)
            | inr f ↦ unfold LinksTo in links_old r j lt old (==_false (r + 8 * j) (p + 8 * i) f) h
          ]
    ];
  }

  pub linked-Grows : Grows m m' level up p i q
  linked-Grows = record {
    tables = linked-AreTables;
    keeps = λ t l. (other_level t l).0;
    same = translate-linked;
    present = λ t j l lt pr.
        linked.same (t + 8 * j) (outside_q t j l lt) (λ e. (let f = rw e at pr in cc));
    child = entry_addr;
    child_present = (let e = linked.entry in rw e (ground arith));
    child_level = new_level.0;
  }
