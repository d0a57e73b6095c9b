-- ===== src/Stack.antt =====
-- lib/stack.c with include/stack.h: the traces of the return addresses on the stack, without
-- HAVE_ARCH_BACKTRACE and HAVE_ARCH_BACKTRACE_FRAME. What the functions print is the list of their
-- calls of `printf`. `none` is a read of an entry of the array that was not set. The builtins of the
-- compiler are parameters: `return_address i` is `__builtin_return_address(i)`, 0 behind the outermost
-- frame, and `extract` is `__builtin_extract_return_addr`.
pub mod Trace
use hyper_bench.Base.{
  ℕ, zero, suc, ◌+◌, ◌-◌, Bool, true, false, not, ◌&&◌, ltb, Option, none, some, List, [], ◌∷◌,
  length, drop, get_elem?, ◌++◌, ◌==◌, ◌>>=◌, if◌then◌else◌,
}
use hyper_bench.Base.Int.{ℤ, pos, negsuc}

abbrev pub max_depth : ℕ
max_depth = 20

-- `printf` on a format, less its NUL, and the arguments.
pub data Call : Type 0 where
  printf : List ℕ → List ℕ → Call

-- "\tSTACK:", " @%lx", " %lx" and "\n"
abbrev pub heading : Call
heading = printf (9 ∷ b'S' ∷ b'T' ∷ b'A' ∷ b'C' ∷ b'K' ∷ b':' ∷ []) []

abbrev pub non_return : ℕ → Call
non_return a = printf (b' ' ∷ b'@' ∷ b'%' ∷ b'l' ∷ b'x' ∷ []) (a ∷ [])

abbrev pub address : ℕ → Call
address a = printf (b' ' ∷ b'%' ∷ b'l' ∷ b'x' ∷ []) (a ∷ [])

abbrev pub line_end : Call
line_end = printf (10 ∷ []) []

-- The rounds of `for (; i < depth; i++)`.
pub print_loop : ℕ → ℕ → List ℕ → Option (List Call)
print_loop zero i return_addrs = some (line_end ∷ [])
print_loop (suc left) i return_addrs = do
  a ← get_elem? return_addrs i
  rest ← print_loop left (i + 1) return_addrs
  some (address a ∷ rest)

-- `return_addrs` holds the entries that were set, from the pointer on.
pub print_stack : List ℕ → ℕ → Bool → Option (List Call)
unfolding print_loop
print_stack return_addrs depth top_is_return_address =
    elim (ltb 0 depth && not top_is_return_address) [
      | true ↦ do
        a ← get_elem? return_addrs 0
        rest ← print_loop (depth - 1) 1 return_addrs
        some (heading ∷ non_return a ∷ rest)
      | false ↦ do rest ← print_loop depth 0 return_addrs; some (heading ∷ rest)
    ]

-- `max_depth == i`
abbrev pub is_at : ℤ → ℕ → Bool
is_at (pos n) i = n == i
is_at (negsuc n) i = false

-- What `backtrace` leaves in `walking`, what it prints and the entries that it sets; the result
-- `depth` is their number.
pub record Walk : Type 0 where
  pub walking : Bool
  pub calls : List Call
  pub return_addrs : List ℕ

-- "RECURSIVE STACK WALK!!!\n"
abbrev pub recursive : Call
recursive =
    printf
      (b'R' ∷ b'E' ∷ b'C' ∷ b'U' ∷ b'R' ∷ b'S' ∷ b'I' ∷ b'V' ∷ b'E' ∷ b' ' ∷ b'S' ∷ b'T' ∷ b'A'
        ∷ b'C' ∷ b'K' ∷ b' ' ∷ b'W' ∷ b'A' ∷ b'L' ∷ b'K' ∷ b'!' ∷ b'!' ∷ b'!' ∷ 10 ∷ [])
      []

module _ (return_address extract : ℕ → ℕ) where
  -- `GET_RETURN_ADDRESS(i)` and the ones behind it, `left` in all.
  pub get_return_addresses : ℕ → ℕ → ℤ → List ℕ
  get_return_addresses zero i max = []
  get_return_addresses (suc left) i max =
      let rest = get_return_addresses left (i + 1) max in
      if is_at max i
      then []
      else if return_address i == 0
      then []
      else extract (return_address i) ∷ rest

  pub backtrace : Bool → ℤ → Walk
  unfolding get_return_addresses
  backtrace walking max =
      if walking
      then record { walking = true; calls = recursive ∷ []; return_addrs = [] }
      else record { walking = false; calls = []; return_addrs = get_return_addresses 21 0 max }

  -- `&return_addrs[1]` leaves the entry of `dump_stack` itself out.
  pub dump_stack : Bool → Option (Bool × List Call)
  unfolding backtrace print_stack
  dump_stack walking =
      let w = backtrace walking (pos max_depth) in
      let depth = length w.return_addrs in
      do
        calls ← print_stack (drop 1 w.return_addrs) (if depth == 0 then 0 else depth - 1) true
        some (w.walking, w.calls ++ calls)

-- `backtrace_frame` of include/stack.h sets no entry.
abbrev pub backtrace_frame : ℕ → ℕ
backtrace_frame frame = 0

pub dump_frame_stack : ℕ → ℕ → Option (List Call)
unfolding print_stack
dump_frame_stack instruction frame =
    print_stack (instruction ∷ []) (backtrace_frame frame + 1) false
