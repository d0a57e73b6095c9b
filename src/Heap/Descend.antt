-- ===== src/Heap/Descend.antt =====
-- The walk of `install_pte` (x86_64/heap.c) down to the table of last entries.
use hyper_bench.Base.{
  ℕ, zero, suc, ◌+◌, ◌-◌, ◌*◌, ◌≤◌, ◌<◌, ◌≡◌, ◌≢◌, inl, inr, refl, sym, ap, ◌∙◌, true, false, some,
  List, [], ◌∷◌, arith, Bool-cases, length,
}
use mathlib.Core.Path.{subst}
use hyper_bench.Base.Memory.{update}
use hyper_bench.Heap.{Heap, pgdir_offset, slot, is_present, pt_addr, install_table, walk_loop}
use hyper_bench.Heap.FreeList.{IsFreeList}
use hyper_bench.Heap.Walk.{translate, leaf, AreTables, pgdir_offset_lt}
use hyper_bench.Heap.Grow.{Grows, linked-Grows}
use hyper_bench.Heap.Install.{
  AreFree, Space, NotIn-AreFree, AreFree-update, Installed, install_table-Installed,
}

-- What the walk from the table `p`, with `k` tables below it, leaves: the table of last entries, and
-- everything that the tables said before.
pub record Walked (h : Heap) (level : ℕ → ℕ) (n k p virt : ℕ) (r : Heap × ℕ) : Type 0 where
  pub space : Space r.0 n
  pub arrives : leaf k r.0.mem p virt ≡ some (slot r.1 virt 1)
  pub last : space.level r.1 ≡ 1
  pub keeps : (t : ℕ) → level t ≢ 0 → space.level t ≡ level t
  pub same : (j t v : ℕ) → level t ≡ suc j → translate j r.0.mem t v ≡ translate j h.mem t v
  pub present :
      (t i : ℕ)
      → level t ≢ 0
      → i < 512
      → is_present (h.mem (t + 8 * i)) ≡ true
      → r.0.mem (t + 8 * i) ≡ h.mem (t + 8 * i)

-- A heap page more than is needed.
abbrev pub weaken : (h : Heap) (n k : ℕ) → Space h n → k ≤ n → Space h k
weaken h n k s le = record {
  level = s.level;
  up = s.up;
  pages = s.pages;
  tables = s.tables;
  free = s.free;
  outside = s.outside;
  room = omega (arith, s.room);
}

-- One level further up, where the entry is present in the state `h'` that the rest starts from.
above :
    (h h' : Heap) (level level1 : ℕ → ℕ) (n k p virt : ℕ) (r : Heap × ℕ)
    → level p ≢ 0
    → ((t : ℕ) → level t ≢ 0 → level1 t ≡ level t)
    → ((j t v : ℕ) → level t ≡ suc j → translate j h'.mem t v ≡ translate j h.mem t v)
    → ((t i : ℕ)
        → level t ≢ 0
        → i < 512
        → is_present (h.mem (t + 8 * i)) ≡ true
        → h'.mem (t + 8 * i) ≡ h.mem (t + 8 * i))
    → is_present (h'.mem (slot p virt (k + 2))) ≡ true
    → Walked h' level1 n k (pt_addr (h'.mem (slot p virt (k + 2)))) virt r
    → Walked h level n (suc k) p virt r
above h h' level level1 n k p virt r lp keeps same present here w =
    let nz : (t : ℕ) → level t ≢ 0 → level1 t ≢ 0 = λ t l e. l (sym (keeps t l) ∙ e) in
    let o = pgdir_offset_lt virt (k + 2) in
    let top = w.present p (pgdir_offset virt (k + 2)) (nz p lp) o here in
    record {
      space = w.space;
      arrives = rw (top, here) w.arrives;
      last = w.last;
      keeps = λ t l. w.keeps t (nz t l) ∙ keeps t l;
      same = λ j t v l. w.same j t v (keeps t (omega arith) ∙ l) ∙ same j t v l;
      present = λ t i l lt pr.
          let kept = present t i l lt pr in w.present t i (nz t l) lt (rw kept pr) ∙ kept;
    }

-- The state behind the new table.
module _ (h : Heap) (level up : ℕ → ℕ) (q : ℕ) (qs : List ℕ) (n p virt k : ℕ)
    (tables : AreTables h.mem level up) (free : IsFreeList h (q ∷ qs))
    (outside : AreFree level (q ∷ qs)) (room : n ≤ length qs) (lp : level p ≡ suc (suc k))
    (absent : is_present (h.mem (slot p virt (k + 2))) ≡ false) where
  abbrev i : ℕ
  i = pgdir_offset virt (k + 2)

  abbrev grown : Heap
  grown = install_table h (slot p virt (k + 2)) 0

  installed : Installed h grown p i q qs
  installed =
      let al = tables.aligned p (omega arith) in
      let ni = NotIn-AreFree level p (q ∷ qs) (omega arith) outside in
      install_table-Installed h p i q qs free al.0 (pgdir_offset_lt virt (k + 2)) ni.0 ni.1

  pub grows : Grows h.mem grown.mem level up p i q
  grows =
      linked-Grows h.mem grown.mem level up tables p i q (omega arith)
        (pgdir_offset_lt virt (k + 2)) absent outside.0 free.pages.0 outside.1 free.pages.1
        installed.linked

  abbrev grown_space : Space grown n
  grown_space = record {
    level = update level q (level p - 1);
    up = update up q (p + 8 * i);
    pages = qs;
    tables = grows.tables;
    free = installed.free;
    outside = AreFree-update level q (level p - 1) qs free.pages.2 outside.2;
    room = room;
  }

-- The rest of the walk, with `k` tables to go.
abbrev Rest : ℕ → ℕ → ℕ → Type 0
Rest n k virt =
    (h : Heap) (p : ℕ) (s : Space h (n + k))
    → s.level p ≡ suc k
    → Walked h s.level n k p virt (walk_loop k (k + 1) h p virt 0)

through_new :
    (h : Heap) (level up : ℕ → ℕ) (pages : List ℕ) (n p virt k : ℕ)
    → AreTables h.mem level up
    → IsFreeList h pages
    → AreFree level pages
    → n + suc k ≤ length pages
    → level p ≡ suc (suc k)
    → is_present (h.mem (slot p virt (k + 2))) ≡ false
    → Rest n k virt
    → Walked h level n (suc k) p virt (
        walk_loop k
          (k + 1)
          (install_table h (slot p virt (k + 2)) 0)
          (pt_addr ((install_table h (slot p virt (k + 2)) 0).mem (slot p virt (k + 2))))
          virt
          0)
through_new h level up [] n p virt k tables free outside room lp ab rest = absurd (omega arith)
through_new h level up (q ∷ qs) n p virt k tables free outside room lp ab rest =
    let r : n + k ≤ length qs = omega arith in
    let g = grows h level up q qs (n + k) p virt k tables free outside r lp ab in
    let s1 = grown_space h level up q qs (n + k) p virt k tables free outside r lp ab in
    let l1 : s1.level q ≡ suc k = omega (arith, g.child_level) in
    above h (install_table h (slot p virt (k + 2)) 0) level s1.level n k p virt _ (omega arith)
      g.keeps g.same g.present g.child_present (rest _ _ s1 (rw g.child l1))

pub step_present :
    (k l : ℕ) (h : Heap) (p virt : ℕ)
    → is_present (h.mem (slot p virt l)) ≡ true
    → walk_loop (suc k) l h p virt 0
      ≡ walk_loop k (l - 1) h (pt_addr (h.mem (slot p virt l))) virt 0
unfolding walk_loop
step_present k l h p virt e = rw e refl

step_absent :
    (k l : ℕ) (h : Heap) (p virt : ℕ)
    → is_present (h.mem (slot p virt l)) ≡ false
    → walk_loop (suc k) l h p virt 0
      ≡ walk_loop k
          (l - 1)
          (install_table h (slot p virt l) 0)
          (pt_addr ((install_table h (slot p virt l) 0).mem (slot p virt l)))
          virt
          0
unfolding walk_loop
step_absent k l h p virt e = rw e refl

-- The walk goes down to a table of last entries, and its new tables change no translation.
pub walk_loop-Walked : (k n virt : ℕ) → Rest n k virt
walk_loop-Walked zero n virt h p s l =
    unfold walk_loop in
    record {
      space = weaken h (n + 0) n s (omega arith);
      arrives = refl;
      last = l;
      keeps = λ t _. refl;
      same = λ j t v _. refl;
      present = λ t i _ _ _. refl;
    }
walk_loop-Walked (suc k) n virt h p s l =
    let up_one : suc k + 1 ≡ k + 2 = omega arith in
    let down_one : k + 2 - 1 ≡ k + 1 = omega arith in
    let x : ℕ = slot p virt (k + 2) in
    elim (Bool-cases (is_present (h.mem x))) [
      | inl pr ↦
          let o = pgdir_offset_lt virt (k + 2) in
          let link = s.tables.links p (pgdir_offset virt (k + 2)) o (omega arith) pr in
          let eq =
            ap (λ l. walk_loop (suc k) l h p virt 0) up_one
            ∙ step_present k (k + 2) h p virt pr
            ∙ ap (λ l. walk_loop k l h (pt_addr (h.mem x)) virt 0) down_one in
          let rest =
            walk_loop-Walked k n virt h (pt_addr (h.mem x))
              (weaken h (n + suc k) (n + k) s (omega arith)) (omega arith) in
          subst (Walked h s.level n (suc k) p virt) (sym eq) (
            above h h s.level s.level n k p virt _ (omega arith) (λ t _. refl) (λ j t v _. refl)
              (λ t i _ _ _. refl) pr rest)
      | inr ab ↦
          let h1 : Heap = install_table h x 0 in
          let eq =
            ap (λ l. walk_loop (suc k) l h p virt 0) up_one
            ∙ step_absent k (k + 2) h p virt ab
            ∙ ap (λ l. walk_loop k l h1 (pt_addr (h1.mem x)) virt 0) down_one in
          subst (Walked h s.level n (suc k) p virt) (sym eq) (
            through_new h s.level s.up s.pages n p virt k s.tables s.free s.outside s.room l ab
              (walk_loop-Walked k n virt))
    ]

-- Where the walk already arrives, it takes no page.
pub walk_loop-Walked_ready :
    (k n virt x : ℕ) (h : Heap) (p : ℕ) (s : Space h n)
    → s.level p ≡ suc k
    → leaf k h.mem p virt ≡ some x
    → Walked h s.level n k p virt (walk_loop k (k + 1) h p virt 0)
walk_loop-Walked_ready zero n virt x h p s l e =
    unfold walk_loop in
    record {
      space = s;
      arrives = refl;
      last = l;
      keeps = λ t _. refl;
      same = λ j t v _. refl;
      present = λ t i _ _ _. refl;
    }
walk_loop-Walked_ready (suc k) n virt x h p s l e =
    let up_one : suc k + 1 ≡ k + 2 = omega arith in
    let down_one : k + 2 - 1 ≡ k + 1 = omega arith in
    let y : ℕ = slot p virt (k + 2) in
    elim (Bool-cases (is_present (h.mem y))) [
      | inl pr ↦
          let o = pgdir_offset_lt virt (k + 2) in
          let link = s.tables.links p (pgdir_offset virt (k + 2)) o (omega arith) pr in
          let eq =
            ap (λ l. walk_loop (suc k) l h p virt 0) up_one
            ∙ step_present k (k + 2) h p virt pr
            ∙ ap (λ l. walk_loop k l h (pt_addr (h.mem y)) virt 0) down_one in
          let rest =
            walk_loop-Walked_ready k n virt x h (pt_addr (h.mem y)) s (omega arith) (rw pr at e) in
          subst (Walked h s.level n (suc k) p virt) (sym eq) (
            above h h s.level s.level n k p virt _ (omega arith) (λ t _. refl) (λ j t v _. refl)
              (λ t i _ _ _. refl) pr rest)
      | inr ab ↦ absurd (let f = rw ab at e in cc)
    ]
