-- ===== src/Tests/Formats.antt =====
-- The formatting functions on a short buffer, on -42, on a padded field, on a format
-- that a buffer cuts off, and on one with conversions.
use hyper_bench.Base.{
  ℕ, ◌+◌, ◌≡◌, refl, List, [], ◌∷◌, ◌++◌, some, arith, length, take, true, false,
}
use hyper_bench.Base.Int.{pos}
use hyper_bench.Base.Memory.{Memory}
use hyper_bench.Printf.{PStream, StrProps, addchar, print_str, add_str, vsnprintf, binstr}
use hyper_bench.Printf.Stream.{padded, print_str-padded}
use hyper_bench.Printf.Items.{
  Item, lit, percent, str, dec, uns, ptr, natural, left, right, zeros, AllPrint, AreItems, At,
  render_all,
}
use hyper_bench.Str.Strings.{IsStr}
use hyper_bench.Printf.Binary.{read_binary, read_binary-binstr}
use hyper_bench.Printf.Formats.{vsnprintf-AllPrint}
use hyper_bench.Printf.Truncate.{vsnprintf-prefix}
use hyper_bench.Tests.{bytes_at}

abbrev abc : List ℕ
abc = 97 ∷ 98 ∷ 99 ∷ []

abbrev empty : PStream
empty = record { written = []; remain = pos 9; added = 0 }

abbrev wide : StrProps
wide = record { pad = 48; npad = pos 5; alternate = false }

print_str-padded_example : print_str empty abc wide ≡ add_str empty (padded abc wide)
print_str-padded_example = print_str-padded empty abc wide

-- "abc"
abbrev m : Memory
m = bytes_at 100 abc

runs : vsnprintf 9 m (pos 3) 100 [] ≡ some (97 ∷ 98 ∷ 0 ∷ [], 3)
unfolding vsnprintf addchar
runs = refl

vsnprintf-prefix_example :
    (text : List ℕ) × ((97 ∷ 98 ∷ 0 ∷ []) ≡ take 2 text ++ (0 ∷ []))
    × (3 ≡ length text)
    × ((k' : ℕ)
        → vsnprintf 9 m (pos (k' + 1)) 100 [] ≡ some (take k' text ++ (0 ∷ []), length text))
vsnprintf-prefix_example = vsnprintf-prefix 9 m 2 100 [] (97 ∷ 98 ∷ 0 ∷ []) 3 runs

-- "x%-5s%12d%%%lx%03u%p", and "abc" behind it
abbrev format : List ℕ
format =
    b'x' ∷ b'%' ∷ b'-' ∷ b'5' ∷ b's' ∷ b'%' ∷ b'1' ∷ b'2' ∷ b'd' ∷ b'%' ∷ b'%' ∷ b'%' ∷ b'l' ∷ b'x'
    ∷ b'%' ∷ b'0' ∷ b'3' ∷ b'u' ∷ b'%' ∷ b'p' ∷ 0 ∷ abc

abbrev items : List Item
items =
    lit b'x'
    ∷ str (left 5 []) 121 abc
    ∷ dec (right 1 (2 ∷ [])) false 42
    ∷ percent
    ∷ uns natural true true 48879
    ∷ uns (zeros 3 []) false false 7
    ∷ ptr natural 4096
    ∷ []

abbrev m2 : Memory
m2 = bytes_at 100 format

abc-IsStr : IsStr m2 121 abc
abc-IsStr = (refl, omega arith, (refl, omega arith, (refl, omega arith, refl)))

items-AreItems : AreItems 9 m2 items
items-AreItems = (
  (omega arith, omega arith),
  (
    (((omega arith, tt), omega arith, omega arith), abc-IsStr, omega arith),
    (
      ((omega arith, (omega arith, (omega arith, tt)), omega arith, omega arith), omega arith),
      (tt, (tt, (((omega arith, tt), omega arith, omega arith), (tt, tt)))),
    ),
  ),
)

format-At : At m2 100 (render_all items)
format-At = (
  refl,
  (
    refl,
    (
      refl,
      (
        refl,
        (
          refl,
          (
            refl,
            (
              refl,
              (
                refl,
                (
                  refl,
                  (
                    refl,
                    (
                      refl,
                      (
                        refl,
                        (refl, (refl, (refl, (refl, (refl, (refl, (refl, (refl, (refl, tt))))))))),
                      ),
                    ),
                  ),
                ),
              ),
            ),
          ),
        ),
      ),
    ),
  ),
)

vsnprintf-AllPrint_example :
    (text : List ℕ) × AllPrint items text
    × (vsnprintf 9 m2 (pos 31) 100 (121 ∷ 42 ∷ 48879 ∷ 7 ∷ 4096 ∷ [])
        ≡ some (take 30 text ++ (0 ∷ []), length text))
vsnprintf-AllPrint_example =
    vsnprintf-AllPrint 9 m2 30 100 items items-AreItems format-At (omega arith) (omega arith)

read_binary-binstr_example : (length (binstr 10) ≡ 80) × (read_binary 0 (binstr 10) ≡ 10)
read_binary-binstr_example = read_binary-binstr 10 (omega arith)
