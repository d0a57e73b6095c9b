-- ===== src/Startup/Progress.antt =====
-- The start of the other processors (x86_64/main.c) cannot be stuck.
use hyper_bench.Base.{
  ℕ, zero, suc, ◌+◌, ◌≡◌, ◌≢◌, ◌≤◌, ◌⊎◌, [], ◌∷◌, refl, ap, ◌∙◌, true, inl, inr, Bool-cases, List,
  get_elem?, length, some, arith, ◌==◌,
}
use hyper_bench.Base.Memory.{update}
use hyper_bench.Startup.{
  Machine, Bsp, looking, waiting, joined, bsp_switching, measuring, Ap, off, entered, loading,
  enabling, announcing, leaving, switching, masked, serving, System, my_index, Step, skip, start,
  join, next, set_mode, keep_mode, set_ops, greet, load, enable, announce, init, Run, here, more,
}
use hyper_bench.Startup.Invariant.{
  IsTable, Inv, active, init-Inv, plain_mode, plain_boot, not_boot, own_index,
}
use hyper_bench.Startup.Keeps.{Step-Inv, Run-Inv}

before : {m : Machine} {s t u : System} → Step m s t → Run m t u → Run m s u
before st here = more here st
before st (more r st') = more (before st r) st'

-- A run on which the boot processor comes to the benchmarks.
abbrev Arrives : Machine → System → Type 0
Arrives m s = (u : System) × Run m s u × (u.bsp ≡ measuring)

before-Arrives : {m : Machine} {s t : System} → Step m s t → Arrives m t → Arrives m s
before-Arrives st (u, r, e) = (u, before st r, e)

from_switching : {m : Machine} (s : System) → s.bsp ≡ bsp_switching → Arrives m s
from_switching s e = (_, more here (set_ops e), refl)

from_joined : {m : Machine} (s : System) → s.bsp ≡ joined → Arrives m s
from_joined {m} s e = elim (Bool-cases m.has_x2apic) [
  | inl h ↦ before-Arrives (set_mode e h) (from_switching _ refl)
  | inr h ↦ (_, more here (keep_mode e h), refl)
]

update_self {ℓ} : {A : Type ℓ} (f : ℕ → A) (i : ℕ) (a : A) → update f i a i ≡ a
update_self f i a = ground arith

module _ {m : Machine} (table : IsTable m) (i c : ℕ) (entry : get_elem? m.cpus i ≡ some c)
    (next_one : (t : System) → Inv m t → t.bsp ≡ looking (i + 1) → Arrives m t) where
  from_started : (s : System) → Inv m s → s.bsp ≡ waiting i → s.started i ≡ true → Arrives m s
  from_started s inv w f =
      before-Arrives (next i w f) (next_one _ (Step-Inv table inv (next i w f)) refl)

  from_announcing : (s : System) → Inv m s → s.bsp ≡ waiting i → s.ap c ≡ announcing → Arrives m s
  from_announcing s inv w a =
      let ne = not_boot table inv c (λ h. cc) in
      let x = own_index table inv i c (plain_mode table inv c ne (rw a refl)) entry in
      let st = announce c i a x in
      before-Arrives st (from_started _ (Step-Inv table inv st) w (update_self s.started i true))

  from_enabling : (s : System) → Inv m s → s.bsp ≡ waiting i → s.ap c ≡ enabling → Arrives m s
  from_enabling s inv w a =
      before-Arrives (enable c a)
        (from_announcing _ (Step-Inv table inv (enable c a)) w (update_self s.ap c announcing))

  from_loading : (s : System) → Inv m s → s.bsp ≡ waiting i → s.ap c ≡ loading → Arrives m s
  from_loading s inv w a =
      before-Arrives (load c a)
        (from_enabling _ (Step-Inv table inv (load c a)) w (update_self s.ap c enabling))

  from_entered : (s : System) → Inv m s → s.bsp ≡ waiting i → s.ap c ≡ entered → Arrives m s
  from_entered s inv w a =
      before-Arrives (greet c a)
        (from_loading _ (Step-Inv table inv (greet c a)) w (update_self s.ap c loading))

  from_active :
      (s : System) (a : Ap)
      → Inv m s
      → s.bsp ≡ waiting i
      → s.ap c ≡ a
      → active a ≡ true
      → Arrives m s
  from_active s entered inv w e h = from_entered s inv w e
  from_active s loading inv w e h = from_loading s inv w e
  from_active s enabling inv w e h = from_enabling s inv w e
  from_active s announcing inv w e h = from_announcing s inv w e
  from_active s off inv w e h = absurd cc
  from_active s leaving inv w e h = absurd cc
  from_active s switching inv w e h = absurd cc
  from_active s masked inv w e h = absurd cc
  from_active s serving inv w e h = absurd cc

  from_waiting : (s : System) → Inv m s → s.bsp ≡ waiting i → Arrives m s
  from_waiting s inv w = elim (Bool-cases (s.started i)) [
    | inl f ↦ from_started s inv w f
    | inr f ↦
        let (d, g, ne, a) = inv.expected i w in
        let same : d ≡ c = cc in from_active s (s.ap c) inv w refl (rw same at (a f))
  ]

get_elem?-cases : (cs : List ℕ) (i : ℕ) → ((c : ℕ) × (get_elem? cs i ≡ some c)) ⊎ (length cs ≤ i)
get_elem?-cases [] i = inr (omega arith)
get_elem?-cases (c ∷ cs) zero = inl (c, refl)
get_elem?-cases (c ∷ cs) (suc i) = elim (get_elem?-cases cs i) [
  | inl (d, e) ↦ inl (d, e)
  | inr le ↦ inr (omega arith)
]

from_looking :
    {m : Machine} (table : IsTable m) (n i : ℕ) (s : System)
    → length m.cpus ≤ i + n
    → Inv m s
    → s.bsp ≡ looking i
    → Arrives m s
from_looking {m} table zero i s le inv e =
    before-Arrives (join i e (omega arith)) (from_joined _ refl)
from_looking {m} table (suc n) i s le inv e =
    let next_one : (t : System) → Inv m t → t.bsp ≡ looking (i + 1) → Arrives m t =
      λ t inv' e'. from_looking table n (i + 1) t (omega arith) inv' e' in
    elim (get_elem?-cases m.cpus i) [
      | inr end ↦ before-Arrives (join i e end) (from_joined _ refl)
      | inl (c, g) ↦ elim (Bool-cases (table.boot_index == i)) [
        | inl here_ ↦
            let x : my_index m s m.boot ≡ some i =
              own_index table inv table.boot_index m.boot (plain_boot table inv (rw e refl))
                table.boot_entry
              ∙ ap some (ground arith) in
            let st = skip i c e g x in before-Arrives st (next_one _ (Step-Inv table inv st) refl)
        | inr else_ ↦
            let own =
              own_index table inv table.boot_index m.boot (plain_boot table inv (rw e refl))
                table.boot_entry in
            let x : my_index m s m.boot ≢ some i =
              λ h. (let same : table.boot_index ≡ i = cc in ground arith) in
            let st = start i c e g x in
            before-Arrives st (from_waiting table i c g next_one _ (Step-Inv table inv st) refl)
      ]
    ]

-- When the ids of the table are distinct and the boot processor is one of them, the boot processor can come
-- to the benchmarks from every reachable state by steps of the processors, each of which runs `mpenter` once
-- it was sent the start-up interrupts.
pub measuring_reached :
    {m : Machine} {s : System} (table : IsTable m) (r : Run m init s)
    → (u : System) × Run m s u × (u.bsp ≡ measuring)
measuring_reached {m} {s} table r = by_bsp s.bsp refl
  where
    inv : Inv m s
    inv = Run-Inv table (init-Inv m) r

    go_on : (i : ℕ) (t : System) → Inv m t → t.bsp ≡ looking (i + 1) → Arrives m t
    go_on i t inv' e = from_looking table (length m.cpus) (i + 1) t (omega arith) inv' e

    by_bsp : (b : Bsp) → s.bsp ≡ b → Arrives m s
    by_bsp (looking i) e = from_looking table (length m.cpus) i s (omega arith) inv e
    by_bsp (waiting i) e =
        let (c, g, ne, a) = inv.expected i e in from_waiting table i c g (go_on i) s inv e
    by_bsp joined e = from_joined s e
    by_bsp bsp_switching e = from_switching s e
    by_bsp measuring e = (s, here, e)
