-- ===== src/Ipi/Invariant.antt =====
-- What holds in every state that the calls on other processors (x86_64/mp.c) reach.
use hyper_bench.Base.{ℕ, ◌≡◌, ◌≢◌, ◌⊎◌, inr, refl, true, false, List, arith}
use hyper_bench.Base.Memory.{update}
use hyper_bench.Ipi.{
  Pc, clearing, sending, waiting, unlocking, entered, System, Step, on_cpu, spin, take, clear, send,
  poll, proceed, release, deliver, set_done, acknowledge, init, Run, here, more, critical,
}

-- A call that the processor `c` has still to answer.
abbrev pub IsOpen : System → ℕ → Type 0
IsOpen s c = (s.requested c ≡ true) ⊎ (s.handler c ≡ entered)

pub record Inv (s : System) : Type 0 where
  pub owner : (i j : ℕ) → critical (s.pc i) ≡ true → critical (s.pc j) ≡ true → i ≡ j
  pub free : (i : ℕ) → critical (s.pc i) ≡ true → s.locked ≡ true
  pub held : s.locked ≡ true → (i : ℕ) × (critical (s.pc i) ≡ true)
  pub asked : (c : ℕ) → IsOpen s c → (i : ℕ) × (s.pc i ≡ waiting c) × (s.ipi_done ≡ false)
  pub once : (c : ℕ) → s.requested c ≡ true → s.handler c ≢ entered
  pub pending : (i c : ℕ) → s.pc i ≡ waiting c → s.ipi_done ≡ false → IsOpen s c
  pub cleared : (i c : ℕ) → s.pc i ≡ sending c → s.ipi_done ≡ false

pub init-Inv : Inv init
init-Inv = record {
  owner = λ i j p q. cc;
  free = λ i p. cc;
  held = λ p. cc;
  asked = λ c o. grind arith;
  once = λ c p. cc;
  pending = λ i c p. cc;
  cleared = λ i c p. cc;
}

-- A processor whose step ends in the critical section is there.
stays :
    (pc : ℕ → Pc) (k : ℕ) (p : Pc)
    → critical p ≡ true
    → (i : ℕ) × (critical (update pc k p i) ≡ true)
stays pc k p e = (k, ground arith)

-- While a processor in the critical section does not wait, no call is open.
pub none-IsOpen :
    {s : System} (inv : Inv s) (k c : ℕ)
    → critical (s.pc k) ≡ true
    → ((d : ℕ) → s.pc k ≢ waiting d)
    → ¬ (IsOpen s c)
none-IsOpen {s} inv k c p nw o =
    let (i, w, d) = inv.asked c o in
    let e : i ≡ k = inv.owner i k (ground arith) p in nw c (ground arith)

module _ {cpus : List ℕ} {s : System} (inv : Inv s) where
  Step-owner :
      {t : System}
      → Step cpus s t
      → (i j : ℕ) → critical (t.pc i) ≡ true
      → critical (t.pc j) ≡ true
      → i ≡ j
  Step-owner (on_cpu k cpu c e g) i j p q = ground (arith, inv.owner i j)
  Step-owner (take k c e f) i j p q = ground (arith, inv.owner i j, inv.free i, inv.free j)
  Step-owner (spin k c e f) i j p q = inv.owner i j p q
  Step-owner (poll k c e f) i j p q = inv.owner i j p q
  Step-owner (clear k c e) i j p q = ground (arith, inv.owner i j, inv.owner i k, inv.owner k j)
  Step-owner (send k c e) i j p q = ground (arith, inv.owner i j, inv.owner i k, inv.owner k j)
  Step-owner (proceed k c e d) i j p q = ground (arith, inv.owner i j, inv.owner i k, inv.owner k j)
  Step-owner (release k e) i j p q = ground (arith, inv.owner i j)
  Step-owner (deliver c r h) i j p q = inv.owner i j p q
  Step-owner (set_done c h) i j p q = inv.owner i j p q
  Step-owner (acknowledge c h) i j p q = inv.owner i j p q

  Step-free : {t : System} → Step cpus s t → (i : ℕ) → critical (t.pc i) ≡ true → t.locked ≡ true
  Step-free (on_cpu k cpu c e g) i p = ground (arith, inv.free i)
  Step-free (take k c e f) i p = refl
  Step-free (spin k c e f) i p = inv.free i p
  Step-free (poll k c e f) i p = inv.free i p
  Step-free (clear k c e) i p = ground (arith, inv.free i, inv.free k)
  Step-free (send k c e) i p = ground (arith, inv.free i, inv.free k)
  Step-free (proceed k c e d) i p = ground (arith, inv.free i, inv.free k)
  Step-free (release k e) i p = ground (arith, inv.owner i k)
  Step-free (deliver c r h) i p = inv.free i p
  Step-free (set_done c h) i p = inv.free i p
  Step-free (acknowledge c h) i p = inv.free i p

  Step-held : {t : System} → Step cpus s t → t.locked ≡ true → (i : ℕ) × (critical (t.pc i) ≡ true)
  Step-held (on_cpu k cpu c e g) l = let (i, p) = inv.held l in (i, ground arith)
  Step-held (take k c e f) l = stays s.pc k (clearing c) refl
  Step-held (spin k c e f) l = inv.held l
  Step-held (poll k c e f) l = inv.held l
  Step-held (clear k c e) l = stays s.pc k (sending c) refl
  Step-held (send k c e) l = stays s.pc k (waiting c) refl
  Step-held (proceed k c e d) l = stays s.pc k unlocking refl
  Step-held (release k e) l = cc
  Step-held (deliver c r h) l = inv.held l
  Step-held (set_done c h) l = inv.held l
  Step-held (acknowledge c h) l = inv.held l

  Step-asked :
      {t : System}
      → Step cpus s t
      → (c : ℕ) → IsOpen t c
      → (i : ℕ) × (t.pc i ≡ waiting c) × (t.ipi_done ≡ false)
  Step-asked (on_cpu k cpu d e g) c o = let (i, w, f) = inv.asked c o in (i, ground arith, f)
  Step-asked (take k d e f) c o = let (i, w, f') = inv.asked c o in (i, ground arith, f')
  Step-asked (spin k d e f) c o = inv.asked c o
  Step-asked (poll k d e f) c o = inv.asked c o
  Step-asked (clear k d e) c o = absurd (none-IsOpen inv k c (ground arith) (λ d'. cc) o)
  Step-asked (send k d e) c o =
      (k, ground (arith, none-IsOpen inv k c (ground arith) (λ d'. cc)), inv.cleared k d e)
  Step-asked (proceed k d e f) c o = let (i, w, f') = inv.asked c o in absurd cc
  Step-asked (release k e) c o = absurd (none-IsOpen inv k c (ground arith) (λ d'. cc) o)
  Step-asked (deliver d r h) c o = inv.asked c (grind arith)
  Step-asked (set_done d h) c o = absurd (grind (arith, inv.asked d (inr h), inv.once d))
  Step-asked (acknowledge d h) c o = inv.asked c (grind arith)

  Step-once : {t : System} → Step cpus s t → (c : ℕ) → t.requested c ≡ true → t.handler c ≢ entered
  Step-once (on_cpu k cpu d e g) c r = inv.once c r
  Step-once (take k d e f) c r = inv.once c r
  Step-once (spin k d e f) c r = inv.once c r
  Step-once (poll k d e f) c r = inv.once c r
  Step-once (clear k d e) c r = inv.once c r
  Step-once (send k d e) c r = λ h. none-IsOpen inv k c (ground arith) (λ d'. cc) (inr h)
  Step-once (proceed k d e f) c r = inv.once c r
  Step-once (release k e) c r = inv.once c r
  Step-once (deliver d q h) c r = ground (arith, inv.once c)
  Step-once (set_done d h) c r = ground (arith, inv.once c)
  Step-once (acknowledge d h) c r = ground (arith, inv.once c)

  Step-pending :
      {t : System}
      → Step cpus s t
      → (i c : ℕ) → t.pc i ≡ waiting c
      → t.ipi_done ≡ false
      → IsOpen t c
  Step-pending (on_cpu k cpu d e g) i c w f = inv.pending i c (ground arith) f
  Step-pending (take k d e l) i c w f = inv.pending i c (ground arith) f
  Step-pending (spin k d e l) i c w f = inv.pending i c w f
  Step-pending (poll k d e l) i c w f = inv.pending i c w f
  Step-pending (clear k d e) i c w f = absurd (ground (arith, inv.owner i k (ground arith)))
  Step-pending (send k d e) i c w f = grind (arith, inv.owner i k)
  Step-pending (proceed k d e l) i c w f = cc
  Step-pending (release k e) i c w f = inv.pending i c (ground arith) f
  Step-pending (deliver d q h) i c w f = grind (arith, inv.pending i c w f)
  Step-pending (set_done d h) i c w f = cc
  Step-pending (acknowledge d h) i c w f = grind (arith, inv.pending i c w f)

  Step-cleared : {t : System} → Step cpus s t → (i c : ℕ) → t.pc i ≡ sending c → t.ipi_done ≡ false
  Step-cleared (on_cpu k cpu d e g) i c p = inv.cleared i c (ground arith)
  Step-cleared (take k d e l) i c p = inv.cleared i c (ground arith)
  Step-cleared (spin k d e l) i c p = inv.cleared i c p
  Step-cleared (poll k d e l) i c p = inv.cleared i c p
  Step-cleared (clear k d e) i c p = refl
  Step-cleared (send k d e) i c p = inv.cleared i c (ground arith)
  Step-cleared (proceed k d e l) i c p = inv.cleared i c (ground arith)
  Step-cleared (release k e) i c p = inv.cleared i c (ground arith)
  Step-cleared (deliver d q h) i c p = inv.cleared i c p
  Step-cleared (set_done d h) i c p = absurd (none-IsOpen inv i d (ground arith) (λ d'. cc) (inr h))
  Step-cleared (acknowledge d h) i c p = inv.cleared i c p

  pub Step-Inv : {t : System} → Step cpus s t → Inv t
  Step-Inv st = record {
    owner = Step-owner st;
    free = Step-free st;
    held = Step-held st;
    asked = Step-asked st;
    once = Step-once st;
    pending = Step-pending st;
    cleared = Step-cleared st;
  }

pub Run-Inv : {cpus : List ℕ} {s t : System} → Inv s → Run cpus s t → Inv t
Run-Inv inv here = inv
Run-Inv inv (more r st) = Step-Inv (Run-Inv inv r) st
