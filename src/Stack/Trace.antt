-- ===== src/Stack/Trace.antt =====
-- What the stack traces of lib/stack.c print.
use hyper_bench.Base.{
  ℕ, zero, suc, ◌+◌, ◌-◌, ◌≤◌, ◌<◌, ◌≡◌, ◌≢◌, ◌⊎◌, inl, inr, refl, true, false, some, List, [], ◌∷◌,
  ◌++◌, map, length, drop, get_elem?, ◌==◌, ltb, ◌&&◌, not, Bool-cases, arith, if◌then◌else◌,
}
use hyper_bench.Base.Int.{pos}
use hyper_bench.Stack.{
  max_depth, heading, address, non_return, line_end, print_loop, print_stack, get_return_addresses,
  backtrace, dump_stack, dump_frame_stack,
}

drop-cons :
    {A : Type 0} (i : ℕ) (xs : List A)
    → i < length xs
    → (a : A) × (get_elem? xs i ≡ some a) × (drop i xs ≡ a ∷ drop (i + 1) xs)
drop-cons i [] lt = absurd (omega arith)
drop-cons zero (x ∷ xs) lt = (x, refl, refl)
drop-cons (suc i) (x ∷ xs) lt =
    let (a, got, rest) = drop-cons i xs (omega arith) in
    let e : suc i + 1 ≡ suc (i + 1) = omega arith in (a, got, rw e rest)

drop_all : {A : Type 0} (i : ℕ) (xs : List A) → length xs ≡ i → drop i xs ≡ []
drop_all zero [] e = refl
drop_all zero (x ∷ xs) e = absurd (omega arith)
drop_all (suc i) [] e = refl
drop_all (suc i) (x ∷ xs) e = drop_all i xs (omega arith)

print_loop-map :
    (left i : ℕ) (addrs : List ℕ)
    → length addrs ≡ i + left
    → print_loop left i addrs ≡ some (map address (drop i addrs) ++ (line_end ∷ []))
unfolding print_loop
print_loop-map zero i addrs e = rw (drop_all i addrs (omega arith)) refl
print_loop-map (suc left) i addrs e =
    let (a, got, cons) = drop-cons i addrs (omega arith) in
    rw (got, cons, print_loop-map left (i + 1) addrs (omega arith)) refl

print_stack-map :
    (addrs : List ℕ)
    → print_stack addrs (length addrs) true
      ≡ some (heading ∷ (map address addrs ++ (line_end ∷ [])))
unfolding print_stack
print_stack-map addrs =
    let t : (ltb 0 (length addrs) && not true) ≡ false = ground arith in
    let rest = print_loop-map (length addrs) 0 addrs (omega arith) in rw (t, print_stack, rest) refl

length-drop_one :
    (addrs : List ℕ) → (if length addrs == 0 then 0 else length addrs - 1) ≡ length (drop 1 addrs)
length-drop_one [] = refl
length-drop_one (a ∷ addrs) = ground arith

module _ (return_address extract : ℕ → ℕ) where
  -- The entries are those of the frames from `i` on, none of them null: up to the first null one, or
  -- up to `max` of them.
  pub record IsTrace (i max : ℕ) (addrs : List ℕ) : Type 0 where
    pub bounded : length addrs ≤ max
    pub entries :
        (j : ℕ)
        → j < length addrs
        → (return_address (i + j) ≢ 0)
          × (get_elem? addrs j ≡ some (extract (return_address (i + j))))
    pub ends : (length addrs ≡ max) ⊎ (return_address (i + length addrs) ≡ 0)

  none-IsTrace : (i max : ℕ) → (max ≡ 0) ⊎ (return_address i ≡ 0) → IsTrace i max []
  none-IsTrace i max why = record {
    bounded = omega arith;
    entries = λ j lt. absurd (omega arith);
    ends = elim why [
      | inl e ↦ inl (omega arith)
      | inr e ↦ (let z : i + 0 ≡ i = omega arith in inr (rw z e))
    ];
  }

  cons-IsTrace :
      (i max : ℕ) (rest : List ℕ)
      → return_address i ≢ 0
      → IsTrace (i + 1) max rest
      → IsTrace i (suc max) (extract (return_address i) ∷ rest)
  cons-IsTrace i max rest ne r =
      let z : i + 0 ≡ i = omega arith in
      let next : (j : ℕ) → i + 1 + j ≡ i + suc j = λ j. omega arith in
      record {
        bounded = omega (arith, r.bounded);
        entries = λ j.
            elim j
              as (λ j.
                j < suc (length rest)
                → (return_address (i + j) ≢ 0)
                  × (get_elem? (extract (return_address i) ∷ rest) j
                      ≡ some (extract (return_address (i + j))))) [
                        | zero ↦ λ lt. rw z (ne, refl)
                        | suc j ↦ λ lt. rw (next j) at (r.entries j (omega arith))
                      ];
        ends = elim r.ends [
          | inl e ↦ inl (omega arith)
          | inr e ↦ inr (rw (next (length rest)) at e)
        ];
      }

  get_return_addresses-IsTrace :
      (left i max : ℕ)
      → max < left
      → IsTrace i max (get_return_addresses return_address extract left i (pos (i + max)))
  unfolding get_return_addresses
  get_return_addresses-IsTrace zero i max lt = absurd (omega arith)
  get_return_addresses-IsTrace (suc left) i zero lt =
      let t : (i + 0 == i) ≡ true = ground arith in rw t (none-IsTrace i 0 (inl refl))
  get_return_addresses-IsTrace (suc left) i (suc max) lt =
      let e : i + 1 + max ≡ i + suc max = omega arith in
      let t : (i + suc max == i) ≡ false = ground arith in
      let rest = rw e at (get_return_addresses-IsTrace left (i + 1) max (omega arith)) in
      rw t (elim (Bool-cases (return_address i == 0)) [
        | inl z ↦ rw z (none-IsTrace i (suc max) (inr (ground arith)))
        | inr n ↦ rw n (cons-IsTrace i max _ (ground arith) rest)
      ])

  -- `dump_stack` outside of another walk sets no more than the 20 entries of its array, reads no entry
  -- that it did not set, and ends. The entries are the return addresses of the frames from its own on,
  -- up to the first null one, and it prints all of them but its own, in order. The next walk is not
  -- taken for a recursive one.
  pub dump_stack-IsTrace :
      (addrs : List ℕ) × IsTrace 0 max_depth addrs
      × (dump_stack return_address extract false
          ≡ some (false, heading ∷ (map address (drop 1 addrs) ++ (line_end ∷ []))))
  unfolding dump_stack backtrace
  dump_stack-IsTrace =
      let addrs = get_return_addresses return_address extract 21 0 (pos 20) in
      (
        addrs,
        get_return_addresses-IsTrace 21 0 20 (omega arith),
        rw (length-drop_one addrs, print_stack-map (drop 1 addrs)) refl,
      )

-- `dump_frame_stack` prints the instruction, which is no return address, and nothing else: there is no
-- walk from a frame.
pub dump_frame_stack_lem :
    (instruction frame : ℕ)
    → dump_frame_stack instruction frame ≡ some (heading ∷ non_return instruction ∷ line_end ∷ [])
unfolding dump_frame_stack print_stack print_loop
dump_frame_stack_lem instruction frame = refl
