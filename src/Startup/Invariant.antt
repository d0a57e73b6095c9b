-- ===== src/Startup/Invariant.antt =====
-- What holds in every state that the start of the other processors (x86_64/main.c) reaches.
use hyper_bench.Base.{
  ℕ, zero, suc, [], ◌∷◌, ◌≡◌, ◌≢◌, ◌<◌, inl, inr, refl, ◌∙◌, Bool, true, false, List, arith, length,
  get_elem?, some, leb, ltb, Bool-cases, ap,
}
use hyper_bench.Base.Memory.{update}
use hyper_bench.Mp.Cpu.{AreDistinct, find_cpu-distinct}
use hyper_bench.Startup.{
  Machine, Bsp, looking, waiting, bsp_switching, measuring, Ap, off, entered, loading, enabling,
  announcing, leaving, switching, masked, serving, System, my_index, init,
}

-- The table holds each id once, the boot processor's among them.
pub record IsTable (m : Machine) : Type 0 where
  pub distinct : AreDistinct m.cpus
  pub boot_index : ℕ
  pub boot_entry : get_elem? m.cpus boot_index ≡ some m.boot

pub get_elem?-lt : (cs : List ℕ) (i c : ℕ) → get_elem? cs i ≡ some c → i < length cs
get_elem?-lt [] i c e = absurd cc
get_elem?-lt (d ∷ cs) zero c e = omega arith
get_elem?-lt (d ∷ cs) (suc i) c e = omega (arith, get_elem?-lt cs i c e)

-- The boot processor has not come to the entry `j` yet; it has left the entry behind.
abbrev pub future : Bsp → ℕ → Bool
future (looking i) j = leb i j
future (waiting i) j = ltb i j
future b j = false

abbrev pub past : Bsp → ℕ → Bool
past (looking i) j = ltb j i
past (waiting i) j = ltb j i
past b j = true

-- Between the start and `xchg`; behind `xchg`; with the bit for x2APIC set.
abbrev pub active : Ap → Bool
active entered = true
active loading = true
active enabling = true
active announcing = true
active a = false

abbrev pub announced : Ap → Bool
announced off = false
announced entered = false
announced loading = false
announced enabling = false
announced announcing = false
announced a = true

abbrev pub switched : Ap → Bool
switched off = false
switched entered = false
switched loading = false
switched enabling = false
switched announcing = false
switched leaving = false
switched a = true

abbrev pub bsp_switched : Bsp → Bool
bsp_switched bsp_switching = true
bsp_switched measuring = true
bsp_switched b = false

-- Behind `enable_x2apic`.
abbrev pub settled : Ap → Bool
settled masked = true
settled serving = true
settled a = false

pub record Inv (m : Machine) (s : System) : Type 0 where
  pub later : (j c : ℕ) → get_elem? m.cpus j ≡ some c → future s.bsp j ≡ true → s.ap c ≡ off
  pub flag :
      (j c : ℕ) → get_elem? m.cpus j ≡ some c → s.started j ≡ true → announced (s.ap c) ≡ true
  pub done :
      (j c : ℕ)
      → get_elem? m.cpus j ≡ some c
      → c ≢ m.boot
      → past s.bsp j ≡ true
      → s.started j ≡ true
  pub mode : (c : ℕ) → c ≢ m.boot → s.x2_mode c ≡ true → switched (s.ap c) ≡ true
  pub boot_off : s.ap m.boot ≡ off
  pub boot_mode : s.x2_mode m.boot ≡ true → bsp_switched s.bsp ≡ true
  pub awaited :
      (c : ℕ)
      → active (s.ap c) ≡ true
      → (i : ℕ) × (s.bsp ≡ waiting i) × (get_elem? m.cpus i ≡ some c)
  pub expected :
      (i : ℕ)
      → s.bsp ≡ waiting i
      → (c : ℕ) × (get_elem? m.cpus i ≡ some c)
        × (c ≢ m.boot)
        × (s.started i ≡ false → active (s.ap c) ≡ true)
  pub ops : s.x2_ops ≡ true → m.has_x2apic ≡ true
  pub moded : (c : ℕ) → s.ap c ≡ switching → (s.x2_mode c ≡ true) × (m.has_x2apic ≡ true)
  pub bsp_moded : s.bsp ≡ bsp_switching → m.has_x2apic ≡ true
  pub ready :
      (c : ℕ) → settled (s.ap c) ≡ true → (s.x2_mode c ≡ m.has_x2apic) × (s.x2_ops ≡ m.has_x2apic)

pub init-Inv : (m : Machine) → Inv m init
init-Inv m = record {
  later = λ j c e f. refl;
  flag = λ j c e f. cc;
  done = λ j c e n p. ground arith;
  mode = λ c n x. cc;
  boot_off = refl;
  boot_mode = λ x. cc;
  awaited = λ c a. absurd cc;
  expected = λ i e. absurd cc;
  ops = λ x. cc;
  moded = λ c e. absurd cc;
  bsp_moded = λ e. cc;
  ready = λ c h. absurd cc;
}

module _ {m : Machine} {s : System} (table : IsTable m) (inv : Inv m s) where
  pub plain_mode : (c : ℕ) → c ≢ m.boot → switched (s.ap c) ≡ false → s.x2_mode c ≡ false
  plain_mode c ne h = elim (Bool-cases (s.x2_mode c)) [
    | inl x ↦ absurd (let y = inv.mode c ne x in cc)
    | inr x ↦ x
  ]

  pub plain_boot : bsp_switched s.bsp ≡ false → s.x2_mode m.boot ≡ false
  plain_boot h = elim (Bool-cases (s.x2_mode m.boot)) [
    | inl x ↦ absurd (let y = inv.boot_mode x in cc)
    | inr x ↦ x
  ]

  pub not_boot : (c : ℕ) → s.ap c ≢ off → c ≢ m.boot
  not_boot c h = λ e. h (ap s.ap e ∙ inv.boot_off)

  -- A processor in xAPIC mode finds its own entry.
  pub own_index :
      (i c : ℕ) → s.x2_mode c ≡ false → get_elem? m.cpus i ≡ some c → my_index m s c ≡ some i
  own_index i c plain g = rw plain (find_cpu-distinct m.cpus i c table.distinct g)

  pub started_boot :
      (i c : ℕ)
      → s.bsp ≡ looking i
      → get_elem? m.cpus i ≡ some c
      → my_index m s m.boot ≢ some i
      → c ≢ m.boot
  started_boot i c e g x = λ b. x (own_index i m.boot (plain_boot (rw e refl)) (g ∙ ap some b))

  -- The processor that announces itself is the one that the boot processor waits for.
  pub announced_index :
      (d k : ℕ)
      → s.ap d ≡ announcing
      → my_index m s d ≡ some k
      → (s.bsp ≡ waiting k) × (get_elem? m.cpus k ≡ some d)
  announced_index d k e x =
      let (i, w, g) = inv.awaited d (rw e refl) in
      let ne : d ≢ m.boot = not_boot d (λ h. cc) in
      let own = own_index i d (plain_mode d ne (rw e refl)) g in
      let same : i ≡ k = cc in (rw same at w, rw same at g)

  pub past_end : (i j : ℕ) → s.bsp ≡ looking i → j < i → past s.bsp j ≡ true
  past_end i j e lt = rw e (ground arith)

  pub skip_index : (i : ℕ) → s.bsp ≡ looking i → my_index m s m.boot ≡ some i → table.boot_index ≡ i
  skip_index i e x =
      let own = own_index table.boot_index m.boot (plain_boot (rw e refl)) table.boot_entry in cc

  -- While the boot processor looks for the next one, no other is between its start and `xchg`.
  pub started_active :
      (i c b : ℕ) → s.bsp ≡ looking i → active (update s.ap c entered b) ≡ true → b ≡ c
  started_active i c b e a = elim (Bool-cases (active (s.ap b))) [
    | inl h ↦ (let (n, w, q) = inv.awaited b h in absurd cc)
    | inr h ↦ ground arith
  ]
