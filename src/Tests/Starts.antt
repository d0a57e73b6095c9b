-- ===== src/Tests/Starts.antt =====
-- Two processors with the APIC ids 0 and 4, of which 0 is the boot processor, with x2APIC.
use hyper_bench.Base.{ℕ, zero, suc, ◌≡◌, ◌⊎◌, inl, refl, true, false, [], ◌∷◌, arith}
use hyper_bench.Base.Memory.{update}
use hyper_bench.Mp.{find_cpu}
use hyper_bench.Mp.Cpu.{AreDistinct}
use hyper_bench.Startup.{
  Machine, looking, waiting, joined, bsp_switching, measuring, entered, loading, enabling,
  announcing, leaving, switching, masked, serving, System, skip, start, join, next, set_mode,
  set_ops, greet, load, enable, announce, ap_set_mode, ap_set_ops, unmask, init, Run, here, more,
}
use hyper_bench.Startup.Invariant.{IsTable, announced}
use hyper_bench.Startup.Ready.{starts, measuring-started, UsesMemory-xapic, serving-x2_ops}
use hyper_bench.Startup.Progress.{measuring_reached}

abbrev m : Machine
m = record { cpus = 0 ∷ 4 ∷ []; boot = 0; has_x2apic = true; stray = λ c. 99 }

distinct : AreDistinct m.cpus
distinct zero zero c ei ej = refl
distinct zero (suc zero) c ei ej = cc
distinct zero (suc (suc j)) c ei ej = cc
distinct (suc zero) zero c ei ej = cc
distinct (suc zero) (suc zero) c ei ej = refl
distinct (suc zero) (suc (suc j)) c ei ej = cc
distinct (suc (suc i)) j c ei ej = cc

abbrev table : IsTable m
table = record { distinct = distinct; boot_index = 0; boot_entry = refl }

abbrev s1 : System
s1 = record init { bsp = looking 1 }

abbrev s2 : System
s2 = record s1 { bsp = waiting 1; ap = update s1.ap 4 entered }

abbrev s3 : System
s3 = record s2 { ap = update s2.ap 4 loading }

abbrev s4 : System
s4 = record s3 { ap = update s3.ap 4 enabling }

abbrev s5 : System
s5 = record s4 { ap = update s4.ap 4 announcing }

abbrev s6 : System
s6 = record s5 { ap = update s5.ap 4 leaving; started = update s5.started 1 true }

-- The other processor goes on to its interrupts while the boot processor leaves its loop.
abbrev s7 : System
s7 = record s6 { bsp = looking 2 }

abbrev s8 : System
s8 = record s7 { ap = update s7.ap 4 switching; x2_mode = update s7.x2_mode 4 true }

abbrev s9 : System
s9 = record s8 { ap = update s8.ap 4 masked; x2_ops = true }

abbrev s10 : System
s10 = record s9 { ap = update s9.ap 4 serving }

abbrev s11 : System
s11 = record s10 { bsp = joined }

abbrev s12 : System
s12 = record s11 { bsp = bsp_switching; x2_mode = update s11.x2_mode 0 true }

abbrev s13 : System
s13 = record s12 { bsp = measuring; x2_ops = true }

to_s2 : Run m init s2
unfolding find_cpu
to_s2 = more (more here (skip 0 0 refl refl refl)) (start 1 4 refl refl (λ e. cc))

to_s6 : Run m init s6
unfolding find_cpu
to_s6 =
    more (more (more (more to_s2 (greet 4 refl)) (load 4 refl)) (enable 4 refl))
      (announce 4 1 refl refl)

to_s10 : Run m init s10
to_s10 =
    more (more (more (more to_s6 (next 1 refl refl)) (ap_set_mode 4 refl refl)) (ap_set_ops 4 refl))
      (unmask 4 refl)

to_s13 : Run m init s13
to_s13 = more (more (more to_s10 (join 2 refl (omega arith))) (set_mode refl refl)) (set_ops refl)

measuring-started_example :
    (s13.started 1 ≡ true) × (announced (s13.ap 4) ≡ true) × (starts 4 to_s13 ≡ 1)
measuring-started_example = measuring-started table to_s13 1 4 refl (omega arith) refl

UsesMemory-xapic_example :
    (s2.x2_mode 4 ≡ false) × ((◌≡◌ {A = ℕ} 4 0) ⊎ (◌≡◌ {A = ℕ} 4 0) ⊎ (◌≡◌ {A = ℕ} 4 4))
UsesMemory-xapic_example = UsesMemory-xapic table to_s2 4 4 (inl refl) (inl refl)

serving-x2_ops_example : s10.x2_mode 4 ≡ s10.x2_ops
serving-x2_ops_example = serving-x2_ops table to_s10 4 refl

measuring_reached_example : (u : System) × Run m s2 u × (u.bsp ≡ measuring)
measuring_reached_example = measuring_reached table to_s2
