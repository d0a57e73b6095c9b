-- ===== src/Printf/Items.antt =====
-- What a format of lib/printf.c is made of, and what each part of it prints.
use hyper_bench.Base.{
  ℕ, suc, ◌+◌, ◌%◌, ◌^◌, ◌<◌, ◌≡◌, ◌≢◌, List, [], ◌∷◌, ◌++◌, length, arith, if◌then◌else◌, Bool,
  true, false,
}
use hyper_bench.Base.Int.{ℤ, pos, neg_ℤ, signed}
use hyper_bench.Base.Memory.{Memory}
use hyper_bench.Printf.{StrProps, plain}
use hyper_bench.Printf.Digits.{Shows}
use hyper_bench.Printf.Stream.{padded}
use hyper_bench.Printf.Unsigned.{ShowsIn, unsigned_text}
use hyper_bench.Str.Strings.{IsStr}
use hyper_bench.Str.Atol.{value_from}

-- A field width: its decimal digits, behind '-' where the field is aligned to the left, and behind '0'
-- where it is filled with zeros.
pub data Width : Type 0 where
  natural : Width
  right left zeros : ℕ → List ℕ → Width

-- A byte of the format outside the conversions, or a conversion with its argument: `%c` and `%d` have
-- the slot of the argument, `%s` the address of a string and the string; `%d`, `%u` and `%x` tell
-- whether an `l` stands before them, and `uns` tells `%x` from `%u`.
pub data Item : Type 0 where
  lit : ℕ → Item
  percent : Item
  chr : ℕ → Item
  str : Width → ℕ → List ℕ → Item
  dec : Width → Bool → ℕ → Item
  uns : Width → Bool → Bool → ℕ → Item
  ptr : Width → ℕ → Item

abbrev pub digit_bytes : List ℕ → List ℕ
digit_bytes [] = []
digit_bytes (d ∷ ds) = (b'0' + d) ∷ digit_bytes ds

abbrev pub width_bytes : Width → List ℕ
width_bytes natural = []
width_bytes (right d ds) = digit_bytes (d ∷ ds)
width_bytes (left d ds) = b'-' ∷ digit_bytes (d ∷ ds)
width_bytes (zeros d ds) = b'0' ∷ digit_bytes (d ∷ ds)

-- The bytes of a conversion behind its '%'.
abbrev pub long_bytes : Bool → ℕ → List ℕ
long_bytes true b = b'l' ∷ b ∷ []
long_bytes false b = b ∷ []

abbrev pub uns_byte : Bool → ℕ
uns_byte hex = if hex then b'x' else b'u'

abbrev pub tail_of : Item → List ℕ
tail_of (lit c) = []
tail_of percent = b'%' ∷ []
tail_of (chr a) = b'c' ∷ []
tail_of (str w a s) = width_bytes w ++ (b's' ∷ [])
tail_of (dec w long a) = width_bytes w ++ long_bytes long b'd'
tail_of (uns w long hex a) = width_bytes w ++ long_bytes long (uns_byte hex)
tail_of (ptr w a) = width_bytes w ++ (b'p' ∷ [])

-- The bytes of an item in the format.
abbrev pub render : Item → List ℕ
render (lit c) = c ∷ []
render x = b'%' ∷ tail_of x

abbrev pub render_all : List Item → List ℕ
render_all [] = 0 ∷ []
render_all (x ∷ xs) = render x ++ render_all xs

-- The slots that an item takes from the arguments.
abbrev pub slots : Item → List ℕ
slots (lit c) = []
slots percent = []
slots (chr a) = a ∷ []
slots (str w a s) = a ∷ []
slots (dec w long a) = a ∷ []
slots (uns w long hex a) = a ∷ []
slots (ptr w a) = a ∷ []

abbrev pub slots_all : List Item → List ℕ
slots_all [] = []
slots_all (x ∷ xs) = slots x ++ slots_all xs

abbrev pub take_width : StrProps → Width → StrProps
take_width props natural = props
take_width props (right d ds) = record props { npad = pos (value_from 0 (d ∷ ds)) }
take_width props (left d ds) = record props { npad = neg_ℤ (pos (value_from 0 (d ∷ ds))) }
take_width props (zeros d ds) = record props { pad = b'0'; npad = pos (value_from 0 (d ∷ ds)) }

abbrev pub props_of : Width → StrProps
props_of w = take_width plain w

-- The number in a slot: an `int`, or a `long`.
abbrev pub number : Bool → ℕ → ℤ
number true a = signed 64 (a % 2 ^ 64)
number false a = signed 32 (a % 2 ^ 32)

abbrev pub word : Bool → ℕ → ℕ
word true a = a % 2 ^ 64
word false a = a % 2 ^ 32

abbrev pub base_of : Bool → ℕ
base_of hex = if hex then 16 else 10

-- What an item is to print.
abbrev pub Prints : Item → List ℕ → Type 0
Prints (lit c) text = text ≡ c ∷ []
Prints percent text = text ≡ b'%' ∷ []
Prints (chr a) text = text ≡ a % 2 ^ 8 ∷ []
Prints (str w a s) text = text ≡ padded s (props_of w)
Prints (dec w long a) text =
    (buf : List ℕ) × Shows (number long a) buf × (text ≡ padded buf (props_of w))
Prints (uns w long hex a) text =
    (ds : List ℕ) × ShowsIn (base_of hex) (word long a) ds × (text ≡ padded ds (props_of w))
Prints (ptr w a) text =
    (ds : List ℕ) × ShowsIn 16 (a % 2 ^ 64) ds
    × (text ≡ unsigned_text true (a % 2 ^ 64) ds (record (props_of w) { alternate = true }))

pub data AllPrint : List Item → List ℕ → Type 0 where
  none_left : AllPrint [] []
  first :
      {x : Item} {xs : List Item} (text rest : List ℕ)
      → Prints x text
      → AllPrint xs rest
      → AllPrint (x ∷ xs) (text ++ rest)

abbrev pub AreDigits : List ℕ → Type 0
AreDigits [] = Unit {0}
AreDigits (d ∷ ds) = (d < 10) × AreDigits ds

-- Digits that are a width: an `int`, of which a first '0' is not the flag.
abbrev pub IsWidth : ℕ → Width → Type 0
IsWidth k natural = Unit {0}
IsWidth k (right d ds) =
    (0 < d) × AreDigits (d ∷ ds) × (value_from 0 (d ∷ ds) < 2 ^ 31) × (length ds + 1 < k)
IsWidth k (left d ds) = AreDigits (d ∷ ds) × (value_from 0 (d ∷ ds) < 2 ^ 31) × (length ds + 1 < k)
IsWidth k (zeros d ds) = AreDigits (d ∷ ds) × (value_from 0 (d ∷ ds) < 2 ^ 31) × (length ds + 1 < k)

-- An item that may stand in a format over the memory, with fuel `k` for each inner loop.
abbrev pub IsItem : ℕ → Memory → Item → Type 0
IsItem k m (lit c) = (c ≢ 0) × (c ≢ b'%')
IsItem k m percent = Unit {0}
IsItem k m (chr a) = Unit {0}
IsItem k m (str w a s) = IsWidth k w × IsStr m a s × (length s < k)
IsItem k m (dec w long a) = IsWidth k w × (a % 2 ^ 64 ≢ 2 ^ 63)
IsItem k m (uns w long hex a) = IsWidth k w
IsItem k m (ptr w a) = IsWidth k w

abbrev pub AreItems : ℕ → Memory → List Item → Type 0
AreItems k m [] = Unit {0}
AreItems k m (x ∷ xs) = IsItem k m x × AreItems k m xs

-- The bytes stand at `p`.
abbrev pub At : Memory → ℕ → List ℕ → Type 0
At m p [] = Unit {0}
At m p (b ∷ bs) = (m p ≡ b) × At m (p + 1) bs

pub At-append :
    (m : Memory) (p : ℕ) (bs cs : List ℕ) → At m p (bs ++ cs) → At m p bs × At m (p + length bs) cs
At-append m p [] cs h = (tt, (let e : p + 0 ≡ p = omega arith in rw e h))
At-append m p (b ∷ bs) cs h =
    let (l, r) = At-append m (p + 1) bs cs h.1 in
    let e : p + suc (length bs) ≡ p + 1 + length bs = omega arith in ((h.0, l), rw e r)
