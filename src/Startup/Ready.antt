-- ===== src/Startup/Ready.antt =====
-- What the start of the other processors (x86_64/main.c) ensures before the benchmarks run.
use hyper_bench.Base.{
  ℕ, ◌+◌, ◌≡◌, ◌≢◌, ◌⊎◌, inl, inr, refl, true, false, get_elem?, some, arith, ◌==◌, if◌then◌else◌,
}
use hyper_bench.Startup.{
  Machine, looking, measuring, Ap, off, serving, System, Step, skip, start, join, poll, next,
  set_mode, keep_mode, set_ops, greet, load, enable, announce, ap_set_mode, ap_keep_mode,
  ap_set_ops, unmask, init, Run, here, more,
}
use hyper_bench.Startup.Invariant.{
  IsTable, Inv, active, announced, switched, init-Inv, plain_mode, plain_boot, not_boot,
}
use hyper_bench.Startup.Keeps.{Run-Inv}

-- How often the run sends the start-up interrupts to `c`.
abbrev starts_by : {m : Machine} {s t : System} → ℕ → Step m s t → ℕ
starts_by c (start i d e g x) = if c == d then 1 else 0
starts_by c _ = 0

abbrev pub starts : {m : Machine} {s t : System} → ℕ → Run m s t → ℕ
starts c here = 0
starts c (more r st) = starts c r + starts_by c st

abbrev is_on : Ap → ℕ
is_on off = 0
is_on a = 1

Step-is_on :
    {m : Machine} {s t : System} (inv : Inv m s) (c : ℕ) (st : Step m s t)
    → is_on (s.ap c) + starts_by c st ≡ is_on (t.ap c)
Step-is_on inv c (skip i d e g x) = omega arith
Step-is_on inv c (start i d e g x) = grind (arith, inv.later i d g)
Step-is_on inv c (join i e l) = omega arith
Step-is_on inv c (poll i e f) = omega arith
Step-is_on inv c (next i e f) = omega arith
Step-is_on inv c (set_mode e h) = omega arith
Step-is_on inv c (keep_mode e h) = omega arith
Step-is_on inv c (set_ops e) = omega arith
Step-is_on inv c (greet d e) = ground arith
Step-is_on inv c (load d e) = ground arith
Step-is_on inv c (enable d e) = ground arith
Step-is_on inv c (announce d k e x) = ground arith
Step-is_on inv c (ap_set_mode d e h) = ground arith
Step-is_on inv c (ap_keep_mode d e h) = ground arith
Step-is_on inv c (ap_set_ops d e) = ground arith
Step-is_on inv c (unmask d e) = ground arith

active_plain : (a : Ap) → active a ≡ true → switched a ≡ false
active_plain a h = ground arith

starts-is_on :
    {m : Machine} {t : System} (table : IsTable m) (c : ℕ) (r : Run m init t)
    → starts c r ≡ is_on (t.ap c)
starts-is_on {m} table c here = refl
starts-is_on {m} table c (more r st) =
    omega (arith, starts-is_on table c r, Step-is_on (Run-Inv table (init-Inv m) r) c st)

-- When the ids of the table are distinct and the boot processor is one of them, and the boot processor runs
-- the benchmarks, each other processor of the table has set its flag `started`
-- and was started exactly once.
pub measuring-started :
    {m : Machine} {t : System} (table : IsTable m) (r : Run m init t) (j c : ℕ)
    → get_elem? m.cpus j ≡ some c
    → c ≢ m.boot
    → t.bsp ≡ measuring
    → (t.started j ≡ true) × (announced (t.ap c) ≡ true) × (starts c r ≡ 1)
measuring-started {m} {t} table r j c g ne e =
    let inv = Run-Inv table (init-Inv m) r in
    let s = inv.done j c g ne (rw e refl) in
    let a = inv.flag j c g s in
    (s, a, omega (arith, starts-is_on table c r, announced_on (t.ap c) a))
  where
    announced_on : (a : Ap) → announced a ≡ true → is_on a ≡ 1
    announced_on a h = ground arith

-- `c` is to read or write the registers of its local APIC in memory: the boot processor in `mycpu` and
-- `lapicstartap`, another one in `mpenter` up to `xchg`.
abbrev pub UsesMemory : Machine → System → ℕ → Type 0
UsesMemory m t c = (active (t.ap c) ≡ true) ⊎ ((c ≡ m.boot) × (i : ℕ) × (t.bsp ≡ looking i))

-- A processor that is to use the registers of its local APIC in memory is in xAPIC mode, where they are
-- there; and of any two such processors one is the boot processor, or they are the same.
pub UsesMemory-xapic :
    {m : Machine} {t : System} (table : IsTable m) (r : Run m init t) (c d : ℕ)
    → UsesMemory m t c
    → UsesMemory m t d
    → (t.x2_mode c ≡ false) × ((c ≡ m.boot) ⊎ (d ≡ m.boot) ⊎ (c ≡ d))
UsesMemory-xapic {m} {t} table r c d u v = (plain u, alone u v)
  where
    inv : Inv m t
    inv = Run-Inv table (init-Inv m) r

    alone : UsesMemory m t c → UsesMemory m t d → (c ≡ m.boot) ⊎ (d ≡ m.boot) ⊎ (c ≡ d)
    alone (inr u) v = inl u.0
    alone u (inr v) = inr (inl v.0)
    alone (inl a) (inl b) =
        let (i, w, g) = inv.awaited c a in
        let (j, w', g') = inv.awaited d b in let same : i ≡ j = cc in inr (inr cc)

    plain : UsesMemory m t c → t.x2_mode c ≡ false
    plain (inl a) =
        plain_mode table inv c (not_boot table inv c (λ h. cc)) (active_plain (t.ap c) a)
    plain (inr v) = rw v.0 (plain_boot table inv (rw v.2 refl))

-- A processor that takes interrupts is in the mode whose functions `apic_ops` names: the write that ends
-- an interrupt goes to the registers of its own mode.
pub serving-x2_ops :
    {m : Machine} {t : System} (table : IsTable m) (r : Run m init t) (c : ℕ)
    → t.ap c ≡ serving
    → t.x2_mode c ≡ t.x2_ops
serving-x2_ops {m} table r c e = let h = (Run-Inv table (init-Inv m) r).ready c (rw e refl) in cc
