-- ===== src/Mp/Walk.antt =====
-- The walk of `mpinit` (x86_64/mp.c) over the entries of the configuration table.
use mathlib.Core.List.{append_assoc, append-nil}
use native.Mathlib.Nat.{add_assoc}
use hyper_bench.Base.{
  ℕ, zero, suc, ◌+◌, ◌≤◌, ◌<◌, ◌≡◌, refl, sym, List, [], ◌∷◌, ◌++◌, arith, none, some, Bool, true,
  false, ◌==◌, ltb, length, take, length-append, take_all, take-append_le, ◌∙◌, ap, Bool-cases, inl,
  inr, ltb_of_lt, ltb_of_le, ==_of_ne, ==_of_eq, ◌⊎◌, ◌||◌,
}
use hyper_bench.Base.Memory.{Memory}
use hyper_bench.Mp.{Smp, ncpu, ncpu_max, add_cpu, entry_loop}

-- The entries of a table. `other` is a bus or an interrupt source, by its type.
pub data Entry : Type 0 where
  processor : ℕ → Entry
  ioapic : ℕ → Entry
  other : ℕ → Entry

abbrev pub size : Entry → ℕ
size (processor apicid) = 20
size (ioapic apicno) = 8
size (other kind) = 8

abbrev pub total : List Entry → ℕ
total [] = 0
total (x ∷ xs) = size x + total xs

-- The entry stands at `p`.
abbrev pub IsAt : Memory → ℕ → Entry → Type 0
IsAt m p (processor apicid) = (m p ≡ 0) × (m (p + 1) ≡ apicid)
IsAt m p (ioapic apicno) = (m p ≡ 2) × (m (p + 1) ≡ apicno)
IsAt m p (other kind) = (m p ≡ kind) × (((kind ≡ 1) ⊎ (kind ≡ 3)) ⊎ (kind ≡ 4))

abbrev pub AreAt : Memory → ℕ → List Entry → Type 0
AreAt m p [] = Unit {0}
AreAt m p (x ∷ xs) = IsAt m p x × AreAt m (p + size x) xs

-- The processors of a table in order, and its last I/O APIC.
abbrev pub apicids : List Entry → List ℕ
apicids [] = []
apicids (processor apicid ∷ xs) = apicid ∷ apicids xs
apicids (ioapic apicno ∷ xs) = apicids xs
apicids (other kind ∷ xs) = apicids xs

abbrev pub last_ioapic : ℕ → List Entry → ℕ
last_ioapic n [] = n
last_ioapic n (processor apicid ∷ xs) = last_ioapic n xs
last_ioapic n (ioapic apicno ∷ xs) = last_ioapic apicno xs
last_ioapic n (other kind ∷ xs) = last_ioapic n xs

-- What the entries make of the state.
abbrev pub read_entries : Smp → List Entry → Smp
read_entries s xs = record s {
  cpus = take ncpu_max (s.cpus ++ apicids xs);
  ioapicid = last_ioapic s.ioapicid xs;
}

add_cpu-take :
    (s : Smp) (a : ℕ) (ids : List ℕ)
    → length s.cpus ≤ ncpu_max
    → (take ncpu_max ((add_cpu s a).cpus ++ ids) ≡ take ncpu_max (s.cpus ++ (a ∷ ids)))
      × (length (add_cpu s a).cpus ≤ ncpu_max)
unfolding add_cpu ncpu
add_cpu-take s a ids h = elim (Bool-cases (ltb (length s.cpus) ncpu_max)) [
  | inl room ↦ rw room (
    ap (take ncpu_max) (append_assoc s.cpus (a ∷ []) ids),
    ground (arith, length-append s.cpus (a ∷ [])),
  )
  | inr full ↦
      let le : ncpu_max ≤ length s.cpus = ground arith in
      rw full (
        take-append_le ncpu_max s.cpus ids le ∙ sym (take-append_le ncpu_max s.cpus (a ∷ ids) le),
        h,
      )
]

add_cpu_rest :
    (s : Smp) (a : ℕ) → ((add_cpu s a).ioapicid ≡ s.ioapicid) × ((add_cpu s a).lapic ≡ s.lapic)
unfolding add_cpu
add_cpu_rest s a = ground arith

-- From a state with at most 64 processors, the loop over a table of known entries, of any number,
-- ends within as many rounds and one more, takes processors in the order of the table up to 64 in
-- all and the last I/O APIC, and keeps `ismp`.
pub entry_loop-read_entries :
    (f : ℕ) (m : Memory) (p : ℕ) (xs : List Entry) (s : Smp) (ismp : Bool)
    → AreAt m p xs
    → length s.cpus ≤ ncpu_max
    → length xs < f
    → entry_loop f m p (p + total xs) s ismp ≡ some (read_entries s xs, ismp)
unfolding entry_loop
entry_loop-read_entries zero m p xs s ismp h small lt = absurd (omega arith)
entry_loop-read_entries (suc f) m p [] s ismp h small lt =
    let end : ltb p (p + 0) ≡ false = ltb_of_le p (p + 0) (omega arith) in
    let all : s.cpus ≡ take ncpu_max (s.cpus ++ []) =
      sym (ap (take ncpu_max) (append-nil s.cpus) ∙ take_all ncpu_max s.cpus small) in
    rw (end, entry_loop) (λ i. some (record s { cpus = all i }, ismp))
entry_loop-read_entries (suc f) m p (processor a ∷ xs) s ismp h small lt =
    let t = add_cpu-take s a (apicids xs) small in
    let r = add_cpu_rest s a in
    rw (ltb_of_lt p (p + (20 + total xs)) (omega arith), entry_loop)
      (rw (==_of_eq (m p) 0 h.0.0, entry_loop)
        (rw (h.0.1, ← add_assoc p 20 (total xs))
          (entry_loop-read_entries f m (p + 20) xs (add_cpu s a) ismp h.1 t.1 (omega arith) ∙ λ i.
            some
              (record { cpus = t.0 i; ioapicid = last_ioapic (r.0 i) xs; lapic = r.1 i }, ismp))))
entry_loop-read_entries (suc f) m p (ioapic a ∷ xs) s ismp h small lt =
    rw (ltb_of_lt p (p + (8 + total xs)) (omega arith), entry_loop)
      (rw (==_of_ne (m p) 0 (omega arith), entry_loop)
        (rw (==_of_eq (m p) 2 h.0.0, entry_loop)
          (rw (h.0.1, ← add_assoc p 8 (total xs))
            (entry_loop-read_entries f m (p + 8) xs (record s { ioapicid = a }) ismp h.1 small
              (omega arith)))))
entry_loop-read_entries (suc f) m p (other kind ∷ xs) s ismp h small lt =
    let known : ((m p == 1) || ((m p == 3) || (m p == 4))) ≡ true = ground arith in
    rw (ltb_of_lt p (p + (8 + total xs)) (omega arith), entry_loop)
      (rw (==_of_ne (m p) 0 (omega arith), entry_loop)
        (rw (==_of_ne (m p) 2 (omega arith), entry_loop)
          (rw (known, entry_loop)
            (rw (← add_assoc p 8 (total xs))
              (entry_loop-read_entries f m (p + 8) xs s ismp h.1 small (omega arith))))))

-- On an entry of a type that the `switch` does not know the loop stays where it is: it does not end,
-- whatever number of rounds it is given.
pub entry_loop-none :
    (f : ℕ) (m : Memory) (p e : ℕ) (s : Smp) (ismp : Bool)
    → p < e
    → 4 < m p
    → entry_loop f m p e s ismp ≡ none
unfolding entry_loop
entry_loop-none zero m p e s ismp inside unknown = refl
entry_loop-none (suc f) m p e s ismp inside unknown =
    let odd : ((m p == 1) || ((m p == 3) || (m p == 4))) ≡ false = ground arith in
    rw (ltb_of_lt p e inside, entry_loop)
      (rw (==_of_ne (m p) 0 (omega arith), entry_loop)
        (rw (==_of_ne (m p) 2 (omega arith), entry_loop)
          (rw (odd, entry_loop) (entry_loop-none f m p e s false inside unknown))))
