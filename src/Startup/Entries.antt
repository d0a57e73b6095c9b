-- ===== src/Startup/Entries.antt =====
-- Steps of the start of the other processors (x86_64/main.c), on the entries of the table, the flags
-- and the modes.
use hyper_bench.Base.{ℕ, ◌≡◌, ◌≢◌, true, arith, get_elem?, some}
use hyper_bench.Startup.{
  Machine, off, System, Step, skip, start, join, poll, next, set_mode, keep_mode, set_ops, greet,
  load, enable, announce, ap_set_mode, ap_keep_mode, ap_set_ops, unmask,
}
use hyper_bench.Startup.Invariant.{
  IsTable, Inv, announced, switched, bsp_switched, future, past, get_elem?-lt, started_boot,
  announced_index, past_end, skip_index,
}

module _ {m : Machine} {s : System} (table : IsTable m) (inv : Inv m s) where
  pub Step-later :
      {t : System}
      → Step m s t
      → (j b : ℕ) → get_elem? m.cpus j ≡ some b
      → future t.bsp j ≡ true
      → t.ap b ≡ off
  Step-later (skip i c e g x) j b q f' = grind (arith, inv.later j b q)
  Step-later (start i c e g x) j b q f' = grind (arith, inv.later j b q, table.distinct i j b)
  Step-later (join i e l) j b q f' = grind (arith, inv.later j b q)
  Step-later (poll i e f) j b q f' = grind (arith, inv.later j b q)
  Step-later (next i e f) j b q f' = grind (arith, inv.later j b q)
  Step-later (set_mode e h) j b q f' = grind (arith, inv.later j b q)
  Step-later (keep_mode e h) j b q f' = grind (arith, inv.later j b q)
  Step-later (set_ops e) j b q f' = grind (arith, inv.later j b q)
  Step-later (greet d e) j b q f' = grind (arith, inv.later j b q)
  Step-later (load d e) j b q f' = grind (arith, inv.later j b q)
  Step-later (enable d e) j b q f' = grind (arith, inv.later j b q)
  Step-later (announce d k e x) j b q f' = grind (arith, inv.later j b q)
  Step-later (ap_set_mode d e h) j b q f' = grind (arith, inv.later j b q)
  Step-later (ap_keep_mode d e h) j b q f' = grind (arith, inv.later j b q)
  Step-later (ap_set_ops d e) j b q f' = grind (arith, inv.later j b q)
  Step-later (unmask d e) j b q f' = grind (arith, inv.later j b q)

  pub Step-flag :
      {t : System}
      → Step m s t
      → (j b : ℕ) → get_elem? m.cpus j ≡ some b
      → t.started j ≡ true
      → announced (t.ap b) ≡ true
  Step-flag (skip i c e g x) j b q f' = grind (arith, inv.flag j b q)
  Step-flag (start i c e g x) j b q f' = grind (arith, inv.flag j b q, inv.later i c g)
  Step-flag (join i e l) j b q f' = grind (arith, inv.flag j b q)
  Step-flag (poll i e f) j b q f' = grind (arith, inv.flag j b q)
  Step-flag (next i e f) j b q f' = grind (arith, inv.flag j b q)
  Step-flag (set_mode e h) j b q f' = grind (arith, inv.flag j b q)
  Step-flag (keep_mode e h) j b q f' = grind (arith, inv.flag j b q)
  Step-flag (set_ops e) j b q f' = grind (arith, inv.flag j b q)
  Step-flag (greet d e) j b q f' = grind (arith, inv.flag j b q)
  Step-flag (load d e) j b q f' = grind (arith, inv.flag j b q)
  Step-flag (enable d e) j b q f' = grind (arith, inv.flag j b q)
  Step-flag (announce d k e x) j b q f' =
      grind (arith, inv.flag j b q, announced_index table inv d k e x)
  Step-flag (ap_set_mode d e h) j b q f' = grind (arith, inv.flag j b q)
  Step-flag (ap_keep_mode d e h) j b q f' = grind (arith, inv.flag j b q)
  Step-flag (ap_set_ops d e) j b q f' = grind (arith, inv.flag j b q)
  Step-flag (unmask d e) j b q f' = grind (arith, inv.flag j b q)

  pub Step-done :
      {t : System}
      → Step m s t
      → (j b : ℕ) → get_elem? m.cpus j ≡ some b
      → b ≢ m.boot
      → past t.bsp j ≡ true
      → t.started j ≡ true
  Step-done (skip i c e g x) j b q n p = grind (arith, inv.done j b q n, skip_index table inv i e x)
  Step-done (start i c e g x) j b q n p = grind (arith, inv.done j b q n)
  Step-done (join i e l) j b q n p =
      inv.done j b q n (past_end table inv i j e (omega (arith, get_elem?-lt m.cpus j b q)))
  Step-done (poll i e f) j b q n p = grind (arith, inv.done j b q n)
  Step-done (next i e f) j b q n p = grind (arith, inv.done j b q n)
  Step-done (set_mode e h) j b q n p = grind (arith, inv.done j b q n)
  Step-done (keep_mode e h) j b q n p = grind (arith, inv.done j b q n)
  Step-done (set_ops e) j b q n p = grind (arith, inv.done j b q n)
  Step-done (greet d e) j b q n p = grind (arith, inv.done j b q n)
  Step-done (load d e) j b q n p = grind (arith, inv.done j b q n)
  Step-done (enable d e) j b q n p = grind (arith, inv.done j b q n)
  Step-done (announce d k e x) j b q n p = grind (arith, inv.done j b q n)
  Step-done (ap_set_mode d e h) j b q n p = grind (arith, inv.done j b q n)
  Step-done (ap_keep_mode d e h) j b q n p = grind (arith, inv.done j b q n)
  Step-done (ap_set_ops d e) j b q n p = grind (arith, inv.done j b q n)
  Step-done (unmask d e) j b q n p = grind (arith, inv.done j b q n)

  pub Step-mode :
      {t : System}
      → Step m s t
      → (b : ℕ) → b ≢ m.boot
      → t.x2_mode b ≡ true
      → switched (t.ap b) ≡ true
  Step-mode (skip i c e g x) b n x' = grind (arith, inv.mode b n)
  Step-mode (start i c e g x) b n x' = grind (arith, inv.mode b n, inv.later i c g)
  Step-mode (join i e l) b n x' = grind (arith, inv.mode b n)
  Step-mode (poll i e f) b n x' = grind (arith, inv.mode b n)
  Step-mode (next i e f) b n x' = grind (arith, inv.mode b n)
  Step-mode (set_mode e h) b n x' = grind (arith, inv.mode b n)
  Step-mode (keep_mode e h) b n x' = grind (arith, inv.mode b n)
  Step-mode (set_ops e) b n x' = grind (arith, inv.mode b n)
  Step-mode (greet d e) b n x' = grind (arith, inv.mode b n)
  Step-mode (load d e) b n x' = grind (arith, inv.mode b n)
  Step-mode (enable d e) b n x' = grind (arith, inv.mode b n)
  Step-mode (announce d k e x) b n x' = grind (arith, inv.mode b n)
  Step-mode (ap_set_mode d e h) b n x' = grind (arith, inv.mode b n)
  Step-mode (ap_keep_mode d e h) b n x' = grind (arith, inv.mode b n)
  Step-mode (ap_set_ops d e) b n x' = grind (arith, inv.mode b n)
  Step-mode (unmask d e) b n x' = grind (arith, inv.mode b n)

  pub Step-boot_off : {t : System} → Step m s t → t.ap m.boot ≡ off
  Step-boot_off (skip i c e g x) = ground (arith, inv.boot_off)
  Step-boot_off (start i c e g x) = ground (arith, inv.boot_off, started_boot table inv i c e g x)
  Step-boot_off (join i e l) = ground (arith, inv.boot_off)
  Step-boot_off (poll i e f) = ground (arith, inv.boot_off)
  Step-boot_off (next i e f) = ground (arith, inv.boot_off)
  Step-boot_off (set_mode e h) = ground (arith, inv.boot_off)
  Step-boot_off (keep_mode e h) = ground (arith, inv.boot_off)
  Step-boot_off (set_ops e) = ground (arith, inv.boot_off)
  Step-boot_off (greet d e) = ground (arith, inv.boot_off)
  Step-boot_off (load d e) = ground (arith, inv.boot_off)
  Step-boot_off (enable d e) = ground (arith, inv.boot_off)
  Step-boot_off (announce d k e x) = ground (arith, inv.boot_off)
  Step-boot_off (ap_set_mode d e h) = ground (arith, inv.boot_off)
  Step-boot_off (ap_keep_mode d e h) = ground (arith, inv.boot_off)
  Step-boot_off (ap_set_ops d e) = ground (arith, inv.boot_off)
  Step-boot_off (unmask d e) = ground (arith, inv.boot_off)

  pub Step-boot_mode :
      {t : System} → Step m s t → t.x2_mode m.boot ≡ true → bsp_switched t.bsp ≡ true
  Step-boot_mode (skip i c e g x) x' = ground (arith, inv.boot_mode, inv.boot_off)
  Step-boot_mode (start i c e g x) x' = ground (arith, inv.boot_mode, inv.boot_off)
  Step-boot_mode (join i e l) x' = ground (arith, inv.boot_mode, inv.boot_off)
  Step-boot_mode (poll i e f) x' = ground (arith, inv.boot_mode, inv.boot_off)
  Step-boot_mode (next i e f) x' = ground (arith, inv.boot_mode, inv.boot_off)
  Step-boot_mode (set_mode e h) x' = ground (arith, inv.boot_mode, inv.boot_off)
  Step-boot_mode (keep_mode e h) x' = ground (arith, inv.boot_mode, inv.boot_off)
  Step-boot_mode (set_ops e) x' = ground (arith, inv.boot_mode, inv.boot_off)
  Step-boot_mode (greet d e) x' = ground (arith, inv.boot_mode, inv.boot_off)
  Step-boot_mode (load d e) x' = ground (arith, inv.boot_mode, inv.boot_off)
  Step-boot_mode (enable d e) x' = ground (arith, inv.boot_mode, inv.boot_off)
  Step-boot_mode (announce d k e x) x' = ground (arith, inv.boot_mode, inv.boot_off)
  Step-boot_mode (ap_set_mode d e h) x' = ground (arith, inv.boot_mode, inv.boot_off)
  Step-boot_mode (ap_keep_mode d e h) x' = ground (arith, inv.boot_mode, inv.boot_off)
  Step-boot_mode (ap_set_ops d e) x' = ground (arith, inv.boot_mode, inv.boot_off)
  Step-boot_mode (unmask d e) x' = ground (arith, inv.boot_mode, inv.boot_off)
