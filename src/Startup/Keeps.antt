-- ===== src/Startup/Keeps.antt =====
-- Every step of the start of the other processors (x86_64/main.c) keeps the invariant.
use hyper_bench.Base.{ℕ, ◌≡◌, ◌≢◌, refl, true, false, arith, get_elem?, some}
use hyper_bench.Startup.{
  Machine, waiting, bsp_switching, switching, System, Step, skip, start, join, poll, next, set_mode,
  keep_mode, set_ops, greet, load, enable, announce, ap_set_mode, ap_keep_mode, ap_set_ops, unmask,
  Run, here, more,
}
use hyper_bench.Startup.Invariant.{
  IsTable, Inv, active, settled, started_boot, announced_index, started_active,
}
use hyper_bench.Startup.Entries.{
  Step-later, Step-flag, Step-done, Step-mode, Step-boot_off, Step-boot_mode,
}

module _ {m : Machine} {s : System} (table : IsTable m) (inv : Inv m s) where
  Step-awaited :
      {t : System}
      → Step m s t
      → (b : ℕ) → active (t.ap b) ≡ true
      → (n : ℕ) × (t.bsp ≡ waiting n) × (get_elem? m.cpus n ≡ some b)
  Step-awaited (skip i c e g x) b a = let (n, w, q) = inv.awaited b a in absurd cc
  Step-awaited (start i c e g x) b a =
      let same : b ≡ c = started_active table inv i c b e a in (i, refl, rw same g)
  Step-awaited (join i e l) b a = let (n, w, q) = inv.awaited b a in absurd cc
  Step-awaited (poll i e f) b a =
      let (n, w, q) = inv.awaited b (ground arith) in (n, ground arith, q)
  Step-awaited (next i e f) b a =
      let (n, w, q) = inv.awaited b a in absurd (ground (arith, inv.flag n b q))
  Step-awaited (set_mode e h) b a = let (n, w, q) = inv.awaited b a in absurd cc
  Step-awaited (keep_mode e h) b a = let (n, w, q) = inv.awaited b a in absurd cc
  Step-awaited (set_ops e) b a = let (n, w, q) = inv.awaited b a in absurd cc
  Step-awaited (greet d e) b a =
      let (n, w, q) = inv.awaited b (ground arith) in (n, ground arith, q)
  Step-awaited (load d e) b a = let (n, w, q) = inv.awaited b (ground arith) in (n, ground arith, q)
  Step-awaited (enable d e) b a =
      let (n, w, q) = inv.awaited b (ground arith) in (n, ground arith, q)
  Step-awaited (announce d k e x) b a =
      let (n, w, q) = inv.awaited b (ground arith) in (n, ground arith, q)
  Step-awaited (ap_set_mode d e h) b a =
      let (n, w, q) = inv.awaited b (ground arith) in (n, ground arith, q)
  Step-awaited (ap_keep_mode d e h) b a =
      let (n, w, q) = inv.awaited b (ground arith) in (n, ground arith, q)
  Step-awaited (ap_set_ops d e) b a =
      let (n, w, q) = inv.awaited b (ground arith) in (n, ground arith, q)
  Step-awaited (unmask d e) b a =
      let (n, w, q) = inv.awaited b (ground arith) in (n, ground arith, q)

  Step-expected :
      {t : System}
      → Step m s t
      → (n : ℕ) → t.bsp ≡ waiting n
      → (b : ℕ) × (get_elem? m.cpus n ≡ some b)
        × (b ≢ m.boot)
        × (t.started n ≡ false → active (t.ap b) ≡ true)
  Step-expected (skip i c e g x) n w = absurd cc
  Step-expected (start i c e g x) n w =
      let same : i ≡ n = ground arith in
      (c, rw same at g, started_boot table inv i c e g x, λ f'. ground arith)
  Step-expected (join i e l) n w = absurd cc
  Step-expected (poll i e f) n w =
      let (b, q, ne, a) = inv.expected n w in (b, q, ne, λ f'. ground (arith, a))
  Step-expected (next i e f) n w = absurd cc
  Step-expected (set_mode e h) n w = absurd cc
  Step-expected (keep_mode e h) n w = absurd cc
  Step-expected (set_ops e) n w = absurd cc
  Step-expected (greet d e) n w =
      let (b, q, ne, a) = inv.expected n w in (b, q, ne, λ f'. ground (arith, a))
  Step-expected (load d e) n w =
      let (b, q, ne, a) = inv.expected n w in (b, q, ne, λ f'. ground (arith, a))
  Step-expected (enable d e) n w =
      let (b, q, ne, a) = inv.expected n w in (b, q, ne, λ f'. ground (arith, a))
  Step-expected (announce d k e x) n w =
      let (b, q, ne, a) = inv.expected n w in
      (b, q, ne, λ f'. ground (arith, a, announced_index table inv d k e x))
  Step-expected (ap_set_mode d e h) n w =
      let (b, q, ne, a) = inv.expected n w in (b, q, ne, λ f'. ground (arith, a))
  Step-expected (ap_keep_mode d e h) n w =
      let (b, q, ne, a) = inv.expected n w in (b, q, ne, λ f'. ground (arith, a))
  Step-expected (ap_set_ops d e) n w =
      let (b, q, ne, a) = inv.expected n w in (b, q, ne, λ f'. ground (arith, a))
  Step-expected (unmask d e) n w =
      let (b, q, ne, a) = inv.expected n w in (b, q, ne, λ f'. ground (arith, a))

  Step-ops : {t : System} → Step m s t → t.x2_ops ≡ true → m.has_x2apic ≡ true
  Step-ops (skip i c e g x) x' = inv.ops x'
  Step-ops (start i c e g x) x' = inv.ops x'
  Step-ops (join i e l) x' = inv.ops x'
  Step-ops (poll i e f) x' = inv.ops x'
  Step-ops (next i e f) x' = inv.ops x'
  Step-ops (set_mode e h) x' = inv.ops x'
  Step-ops (keep_mode e h) x' = inv.ops x'
  Step-ops (set_ops e) x' = inv.bsp_moded e
  Step-ops (greet d e) x' = inv.ops x'
  Step-ops (load d e) x' = inv.ops x'
  Step-ops (enable d e) x' = inv.ops x'
  Step-ops (announce d k e x) x' = inv.ops x'
  Step-ops (ap_set_mode d e h) x' = inv.ops x'
  Step-ops (ap_keep_mode d e h) x' = inv.ops x'
  Step-ops (ap_set_ops d e) x' = (inv.moded d e).1
  Step-ops (unmask d e) x' = inv.ops x'

  Step-moded :
      {t : System}
      → Step m s t
      → (b : ℕ) → t.ap b ≡ switching
      → (t.x2_mode b ≡ true) × (m.has_x2apic ≡ true)
  Step-moded (skip i c e g x) b y = grind (arith, inv.moded b)
  Step-moded (start i c e g x) b y = grind (arith, inv.moded b)
  Step-moded (join i e l) b y = grind (arith, inv.moded b)
  Step-moded (poll i e f) b y = grind (arith, inv.moded b)
  Step-moded (next i e f) b y = grind (arith, inv.moded b)
  Step-moded (set_mode e h) b y = grind (arith, inv.moded b)
  Step-moded (keep_mode e h) b y = grind (arith, inv.moded b)
  Step-moded (set_ops e) b y = grind (arith, inv.moded b)
  Step-moded (greet d e) b y = grind (arith, inv.moded b)
  Step-moded (load d e) b y = grind (arith, inv.moded b)
  Step-moded (enable d e) b y = grind (arith, inv.moded b)
  Step-moded (announce d k e x) b y = grind (arith, inv.moded b)
  Step-moded (ap_set_mode d e h) b y = grind (arith, inv.moded b)
  Step-moded (ap_keep_mode d e h) b y = grind (arith, inv.moded b)
  Step-moded (ap_set_ops d e) b y = grind (arith, inv.moded b)
  Step-moded (unmask d e) b y = grind (arith, inv.moded b)

  Step-bsp_moded : {t : System} → Step m s t → t.bsp ≡ bsp_switching → m.has_x2apic ≡ true
  Step-bsp_moded (skip i c e g x) y = cc
  Step-bsp_moded (start i c e g x) y = cc
  Step-bsp_moded (join i e l) y = cc
  Step-bsp_moded (poll i e f) y = inv.bsp_moded y
  Step-bsp_moded (next i e f) y = cc
  Step-bsp_moded (set_mode e h) y = h
  Step-bsp_moded (keep_mode e h) y = cc
  Step-bsp_moded (set_ops e) y = cc
  Step-bsp_moded (greet d e) y = inv.bsp_moded y
  Step-bsp_moded (load d e) y = inv.bsp_moded y
  Step-bsp_moded (enable d e) y = inv.bsp_moded y
  Step-bsp_moded (announce d k e x) y = inv.bsp_moded y
  Step-bsp_moded (ap_set_mode d e h) y = inv.bsp_moded y
  Step-bsp_moded (ap_keep_mode d e h) y = inv.bsp_moded y
  Step-bsp_moded (ap_set_ops d e) y = inv.bsp_moded y
  Step-bsp_moded (unmask d e) y = inv.bsp_moded y

  Step-ready :
      {t : System}
      → Step m s t
      → (b : ℕ) → settled (t.ap b) ≡ true
      → (t.x2_mode b ≡ m.has_x2apic) × (t.x2_ops ≡ m.has_x2apic)
  Step-ready (skip i c e g x) b y = grind (arith, inv.ready b, inv.moded b, inv.ops)
  Step-ready (start i c e g x) b y = grind (arith, inv.ready b, inv.moded b, inv.ops)
  Step-ready (join i e l) b y = grind (arith, inv.ready b, inv.moded b, inv.ops)
  Step-ready (poll i e f) b y = grind (arith, inv.ready b, inv.moded b, inv.ops)
  Step-ready (next i e f) b y = grind (arith, inv.ready b, inv.moded b, inv.ops)
  Step-ready (set_mode e h) b y = grind (arith, inv.ready b, inv.moded b, inv.ops)
  Step-ready (keep_mode e h) b y = grind (arith, inv.ready b, inv.moded b, inv.ops)
  Step-ready (set_ops e) b y = grind (arith, inv.ready b, inv.moded b, inv.ops)
  Step-ready (greet d e) b y = grind (arith, inv.ready b, inv.moded b, inv.ops)
  Step-ready (load d e) b y = grind (arith, inv.ready b, inv.moded b, inv.ops)
  Step-ready (enable d e) b y = grind (arith, inv.ready b, inv.moded b, inv.ops)
  Step-ready (announce d k e x) b y = grind (arith, inv.ready b, inv.moded b, inv.ops)
  Step-ready (ap_set_mode d e h) b y = grind (arith, inv.ready b, inv.moded b, inv.ops)
  Step-ready (ap_keep_mode d e h) b y = grind (arith, inv.ready b, inv.moded b, inv.ops)
  Step-ready (ap_set_ops d e) b y = grind (arith, inv.ready b, inv.moded b, inv.ops)
  Step-ready (unmask d e) b y = grind (arith, inv.ready b, inv.moded b, inv.ops)

  pub Step-Inv : {t : System} → Step m s t → Inv m t
  Step-Inv st = record {
    later = Step-later table inv st;
    flag = Step-flag table inv st;
    done = Step-done table inv st;
    mode = Step-mode table inv st;
    boot_off = Step-boot_off table inv st;
    boot_mode = Step-boot_mode table inv st;
    awaited = Step-awaited st;
    expected = Step-expected st;
    ops = Step-ops st;
    moded = Step-moded st;
    bsp_moded = Step-bsp_moded st;
    ready = Step-ready st;
  }

pub Run-Inv : {m : Machine} {s t : System} → IsTable m → Inv m s → Run m s t → Inv m t
Run-Inv table inv here = inv
Run-Inv table inv (more r st) = Step-Inv table (Run-Inv table inv r) st
