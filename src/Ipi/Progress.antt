-- ===== src/Ipi/Progress.antt =====
-- No call on another processor (`on_cpu` of x86_64/mp.c) can be stuck.
use hyper_bench.Base.{ℕ, ◌≡◌, ◌≢◌, inl, inr, refl, ◌∙◌, true, false, List, arith, Bool-cases}
use hyper_bench.Base.Memory.{update}
use hyper_bench.Ipi.{
  Pc, outside, locking, clearing, sending, waiting, unlocking, Handler, ready, entered,
  acknowledging, System, Step, take, clear, send, proceed, release, deliver, set_done, acknowledge,
  init, Run, here, more, critical,
}
use hyper_bench.Ipi.Invariant.{Inv, init-Inv, Step-Inv, Run-Inv}

pub before : {cpus : List ℕ} {s t u : System} → Step cpus s t → Run cpus t u → Run cpus s u
before st here = more here st
before st (more r st') = more (before st r) st'

-- A run on which the processor `i` comes out of the critical section and leaves the lock free, while
-- no other processor moves, interrupt handlers excepted.
pub record Returns (cpus : List ℕ) (s : System) (i : ℕ) : Type 0 where
  pub out : System
  pub run : Run cpus s out
  pub left : out.pc i ≡ outside
  pub unlocked : out.locked ≡ false
  pub others : (k : ℕ) → k ≢ i → out.pc k ≡ s.pc k

-- One more step before it, which moves `i` at most.
before-Returns :
    {cpus : List ℕ} {s t : System} {i : ℕ}
    → Step cpus s t
    → ((k : ℕ) → k ≢ i → t.pc k ≡ s.pc k)
    → Returns cpus t i
    → Returns cpus s i
before-Returns st same r = record {
  out = r.out;
  run = before st r.run;
  left = r.left;
  unlocked = r.unlocked;
  others = λ k ne. r.others k ne ∙ same k ne;
}

update_self {ℓ} : {A : Type ℓ} (f : ℕ → A) (i : ℕ) (a : A) → update f i a i ≡ a
update_self f i a = ground arith

update_ne {ℓ} : {A : Type ℓ} (f : ℕ → A) (i : ℕ) (a : A) (k : ℕ) → k ≢ i → update f i a k ≡ f k
update_ne f i a k ne = ground arith

module _ {cpus : List ℕ} (i : ℕ) where
  from_unlocking : (s : System) → s.pc i ≡ unlocking → Returns cpus s i
  from_unlocking s p = record {
    out = _;
    run = more here (release i p);
    left = update_self s.pc i outside;
    unlocked = refl;
    others = update_ne s.pc i outside;
  }

  from_done : (s : System) (c : ℕ) → s.pc i ≡ waiting c → s.ipi_done ≡ true → Returns cpus s i
  from_done s c p d =
      before-Returns (proceed i c p d) (update_ne s.pc i unlocking)
        (from_unlocking _ (update_self s.pc i unlocking))

  from_entered :
      (s : System) (c : ℕ) → s.pc i ≡ waiting c → s.handler c ≡ entered → Returns cpus s i
  from_entered s c p h = before-Returns (set_done c h) (λ k ne. refl) (from_done _ c p refl)

  from_ready :
      (s : System) (c : ℕ)
      → s.pc i ≡ waiting c
      → s.requested c ≡ true
      → s.handler c ≡ ready
      → Returns cpus s i
  from_ready s c p q h =
      before-Returns (deliver c q h) (λ k ne. refl)
        (from_entered _ c p (update_self s.handler c entered))

  from_requested :
      (s : System) (c : ℕ) (h : Handler)
      → s.handler c ≡ h
      → s.pc i ≡ waiting c
      → s.requested c ≡ true
      → Returns cpus s i
  from_requested s c ready e p q = from_ready s c p q e
  from_requested s c entered e p q = from_entered s c p e
  from_requested s c acknowledging e p q =
      before-Returns (acknowledge c e) (λ k ne. refl)
        (from_ready _ c p q (update_self s.handler c ready))

  from_waiting : (s : System) (c : ℕ) → Inv s → s.pc i ≡ waiting c → Returns cpus s i
  from_waiting s c inv p = elim (Bool-cases s.ipi_done) [
    | inl d ↦ from_done s c p d
    | inr d ↦ elim (inv.pending i c p d) [
      | inl q ↦ from_requested s c (s.handler c) refl p q
      | inr h ↦ from_entered s c p h
    ]
  ]

  from_sending : (s : System) (c : ℕ) → Inv s → s.pc i ≡ sending c → Returns cpus s i
  from_sending s c inv p =
      before-Returns (send i c p) (update_ne s.pc i (waiting c)) (
        from_waiting _ c (Step-Inv {cpus = cpus} inv (send i c p)) (update_self s.pc i (waiting c)))

  from_clearing : (s : System) (c : ℕ) → Inv s → s.pc i ≡ clearing c → Returns cpus s i
  from_clearing s c inv p =
      before-Returns (clear i c p) (update_ne s.pc i (sending c)) (
        from_sending _ c (Step-Inv {cpus = cpus} inv (clear i c p))
          (update_self s.pc i (sending c)))

  critical-Returns :
      (s : System) (p : Pc) → Inv s → s.pc i ≡ p → critical p ≡ true → Returns cpus s i
  critical-Returns s outside inv e h = absurd cc
  critical-Returns s (locking c) inv e h = absurd cc
  critical-Returns s (clearing c) inv e h = from_clearing s c inv e
  critical-Returns s (sending c) inv e h = from_sending s c inv e
  critical-Returns s (waiting c) inv e h = from_waiting s c inv e
  critical-Returns s unlocking inv e h = from_unlocking s e

  from_free :
      (s : System) (c : ℕ) → Inv s → s.pc i ≡ locking c → s.locked ≡ false → Returns cpus s i
  from_free s c inv p l = before-Returns (take i c p l) (update_ne s.pc i (clearing c)) (
      from_clearing _ c (Step-Inv {cpus = cpus} inv (take i c p l))
        (update_self s.pc i (clearing c)))

pub Run-trans : {cpus : List ℕ} {s t u : System} → Run cpus s t → Run cpus t u → Run cpus s u
Run-trans r here = r
Run-trans r (more q st) = more (Run-trans r q) st

-- From every reachable state, a processor that called `on_cpu` can come out of it by steps of the
-- processors, whoever holds the lock and wherever the handlers stand.
pub call_returns :
    {cpus : List ℕ} {s : System} (i : ℕ)
    → Run cpus init s
    → s.pc i ≢ outside
    → (u : System) × Run cpus s u × (u.pc i ≡ outside)
call_returns {cpus} {s} i r ne = by_pc (s.pc i) refl
  where
    inv : Inv s
    inv = Run-Inv init-Inv r

    from_critical : Returns cpus s i → (u : System) × Run cpus s u × (u.pc i ≡ outside)
    from_critical q = (q.out, q.run, q.left)

    by_pc : (p : Pc) → s.pc i ≡ p → (u : System) × Run cpus s u × (u.pc i ≡ outside)
    by_pc outside e = absurd (ne e)
    by_pc (locking c) e = elim (Bool-cases s.locked) [
      | inr l ↦ from_critical (from_free i s c inv e l)
      | inl l ↦
          let (j, h) = inv.held l in
          let first = critical-Returns {cpus = cpus} j s (s.pc j) inv refl h in
          let apart : i ≢ j = λ q. (let n : critical (s.pc i) ≡ false = rw e refl in cc) in
          let second =
            from_free {cpus = cpus} i first.out c (Run-Inv inv first.run) (first.others i apart ∙ e)
              first.unlocked in
          (second.out, Run-trans first.run second.run, second.left)
    ]
    by_pc (clearing c) e = from_critical (from_clearing i s c inv e)
    by_pc (sending c) e = from_critical (from_sending i s c inv e)
    by_pc (waiting c) e = from_critical (from_waiting i s c inv e)
    by_pc unlocking e = from_critical (from_unlocking i s e)
