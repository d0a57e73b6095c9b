-- ===== src/Str/Substrings.antt =====
-- Strings within strings, for lib/string.c.
use hyper_bench.Base.{ℕ, zero, suc, ◌+◌, ◌≤◌, ◌≡◌, refl, List, [], ◌∷◌, ◌++◌, arith, ap, length}
use hyper_bench.Base.Memory.{Memory}
use hyper_bench.Str.Strings.{IsStr}
use hyper_bench.Str.Compare.{SameBytes}

-- A string from its byte `k` on.
pub split_at :
    (m : Memory) (p k : ℕ) (t : List ℕ)
    → IsStr m p t
    → k ≤ length t
    → (u w : List ℕ) × (t ≡ u ++ w) × (length u ≡ k) × IsStr m (p + k) w
split_at m p zero t h le = let e : p + 0 ≡ p = omega arith in ([], t, refl, refl, rw e h)
split_at m p (suc k) [] h le = absurd (omega arith)
split_at m p (suc k) (x ∷ t) h le =
    let (u, w, e, n, s) = split_at m (p + 1) k t h.2 (omega arith) in
    let ep : p + suc k ≡ p + 1 + k = omega arith in (x ∷ u, w, ap (◌∷◌ x) e, omega arith, rw ep s)

pub IsStr-suffix :
    (m : Memory) (p : ℕ) (u w : List ℕ) → IsStr m p (u ++ w) → IsStr m (p + length u) w
IsStr-suffix m p [] w h = let e : p + 0 ≡ p = omega arith in rw e h
IsStr-suffix m p (x ∷ u) w h =
    let e : p + suc (length u) ≡ p + 1 + length u = omega arith in
    rw e (IsStr-suffix m (p + 1) u w h.2)

SameBytes-suc : (m : Memory) (p q n : ℕ) → SameBytes m p q (suc n) → SameBytes m (p + 1) (q + 1) n
SameBytes-suc m p q n same i lt =
    let ep : p + suc i ≡ p + 1 + i = omega arith in
    let eq : q + suc i ≡ q + 1 + i = omega arith in rw (ep, eq) at (same (suc i) (omega arith))

SameBytes-head : (m : Memory) (p q n : ℕ) → SameBytes m p q (suc n) → m p ≡ m q
SameBytes-head m p q n same =
    let ep : p + 0 ≡ p = omega arith in
    let eq : q + 0 ≡ q = omega arith in rw (ep, eq) at (same 0 (omega arith))

-- A string whose first bytes are those of `c` begins with `c`.
pub prefix_of_SameBytes :
    (m : Memory) (p q : ℕ) (w c : List ℕ)
    → IsStr m p w
    → IsStr m q c
    → SameBytes m p q (length c)
    → (v : List ℕ) × (w ≡ c ++ v)
prefix_of_SameBytes m p q w [] hw hc same = (w, refl)
prefix_of_SameBytes m p q [] (y ∷ c) hw hc same =
    let e = SameBytes-head m p q (length c) same in absurd (ground arith)
prefix_of_SameBytes m p q (x ∷ w) (y ∷ c) hw hc same =
    let e = SameBytes-head m p q (length c) same in
    let xy : x ≡ y = cc in
    let (v, ev) =
      prefix_of_SameBytes m (p + 1) (q + 1) w c hw.2 hc.2 (SameBytes-suc m p q (length c) same) in
    (v, rw (xy, ev) refl)

pub append-SameBytes :
    (m : Memory) (p q : ℕ) (c v : List ℕ)
    → IsStr m p (c ++ v)
    → IsStr m q c
    → SameBytes m p q (length c)
append-SameBytes m p q [] v hw hc i lt = absurd (omega arith)
append-SameBytes m p q (x ∷ c) v hw hc zero lt =
    let ep : p + 0 ≡ p = omega arith in
    let eq : q + 0 ≡ q = omega arith in rw (ep, eq, hw.0, hc.0) refl
append-SameBytes m p q (x ∷ c) v hw hc (suc i) lt =
    let ep : p + suc i ≡ p + 1 + i = omega arith in
    let eq : q + suc i ≡ q + 1 + i = omega arith in
    rw (ep, eq) (append-SameBytes m (p + 1) (q + 1) c v hw.2 hc.2 i (omega arith))

-- Two memories with the same string have the same bytes there.
pub IsStr-same :
    (m m' : Memory) (p q : ℕ) (s : List ℕ)
    → IsStr m p s
    → IsStr m' q s
    → (i : ℕ) → i ≤ length s
    → m' (q + i) ≡ m (p + i)
IsStr-same m m' p q [] h h' zero le =
    let ep : p + 0 ≡ p = omega arith in let eq : q + 0 ≡ q = omega arith in rw (ep, eq, h, h') refl
IsStr-same m m' p q [] h h' (suc i) le = absurd (omega arith)
IsStr-same m m' p q (x ∷ s) h h' zero le =
    let ep : p + 0 ≡ p = omega arith in
    let eq : q + 0 ≡ q = omega arith in rw (ep, eq, h.0, h'.0) refl
IsStr-same m m' p q (x ∷ s) h h' (suc i) le =
    let ep : p + suc i ≡ p + 1 + i = omega arith in
    let eq : q + suc i ≡ q + 1 + i = omega arith in
    rw (ep, eq) (IsStr-same m m' (p + 1) (q + 1) s h.2 h'.2 i (omega arith))

-- One string stands at a place.
pub IsStr-unique : (m : Memory) (p : ℕ) (s t : List ℕ) → IsStr m p s → IsStr m p t → s ≡ t
IsStr-unique m p [] [] hs ht = refl
IsStr-unique m p [] (y ∷ t) hs ht = absurd (ground arith)
IsStr-unique m p (x ∷ s) [] hs ht = absurd (ground arith)
IsStr-unique m p (x ∷ s) (y ∷ t) hs ht =
    let xy : x ≡ y = cc in rw (xy, IsStr-unique m (p + 1) s t hs.2 ht.2) refl
