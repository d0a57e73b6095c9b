-- ===== src/Serial/Output.antt =====
-- What x86_64/serial.c sends.
use hyper_bench.Base.{
  ℕ, ◌+◌, ◌≤◌, ◌<◌, ◌≡◌, refl, sym, ap, ◌∙◌, List, [], ◌∷◌, ◌++◌, map, length, arith, some, true,
  false, Bool, Bool-cases, inl, inr, if◌then◌else◌,
}
use mathlib.Core.List.{append_assoc, append-nil}
use hyper_bench.Serial.{
  Serial, serial_iobase, write_port, is_ready, wait_ready, serial_outb, set_dlab, clear_dlab,
  serial_init, send_all, print_serial, puts,
}

abbrev pub one_if : Bool → ℕ
one_if b = if b then 1 else 0

-- The number of readings that find the transmitter ready.
abbrev pub ready_count : List ℕ → ℕ
ready_count [] = 0
ready_count (lsr ∷ rest) = one_if (is_ready lsr) + ready_count rest

-- The bytes as writes to the data port.
abbrev pub sent : List ℕ → List (ℕ × ℕ)
sent = map (λ c. (serial_iobase, c))

wait_ready-ends :
    (readings : List ℕ) (n : ℕ)
    → n < ready_count readings
    → (rest : List ℕ) × (wait_ready readings ≡ some rest) × (n ≤ ready_count rest)
unfolding wait_ready
wait_ready-ends [] n lt = absurd (omega arith)
wait_ready-ends (lsr ∷ rest) n lt = elim (Bool-cases (is_ready lsr)) [
  | inl e ↦ (
    rest,
    rw (e, wait_ready) refl,
    (let c : one_if (is_ready lsr) ≡ 1 = rw e refl in omega arith),
  )
  | inr e ↦
      let c : one_if (is_ready lsr) ≡ 0 = rw e refl in
      let (left, h, le) = wait_ready-ends rest n (omega arith) in (left, rw (e, wait_ready) h, le)
]

-- The bytes are sent in order.
send_all-sent :
    (s : Serial) (cs : List ℕ)
    → length cs ≤ ready_count s.readings
    → (s' : Serial) × (send_all s cs ≡ some s')
      × (s'.writes ≡ s.writes ++ sent cs)
      × (s'.serial_inited ≡ s.serial_inited)
unfolding send_all serial_outb write_port
send_all-sent s [] le = (s, refl, sym (append-nil s.writes), refl)
send_all-sent s (c ∷ cs) le =
    let (rest, h, left) = wait_ready-ends s.readings (length cs) (omega arith) in
    let next : Serial = record s {
      readings = rest;
      writes = s.writes ++ ((serial_iobase, c) ∷ []);
    } in
    let (s', e, w, i) = send_all-sent next cs left in
    (s', rw h e, w ∙ append_assoc s.writes ((serial_iobase, c) ∷ []) (sent cs), i)

-- The four writes that set the rate.
abbrev pub init_writes : ℕ → List (ℕ × ℕ)
init_writes lcr =
    (serial_iobase + 3, set_dlab lcr)
    ∷ (serial_iobase, 1)
    ∷ (serial_iobase + 1, 0)
    ∷ (serial_iobase + 3, clear_dlab (set_dlab lcr))
    ∷ []

serial_init-writes : (s : Serial) → (serial_init s).writes ≡ s.writes ++ init_writes s.lcr
unfolding serial_init write_port
serial_init-writes s = simp append_assoc

puts_from :
    (b : Bool) (s : Serial) (buf : List ℕ)
    → (b ≡ true → s.serial_inited ≡ true)
    → length buf ≤ ready_count s.readings
    → (s' : Serial) × (send_all
          (if b then s else record (serial_init s) { serial_inited = true })
          buf
        ≡ some s')
      × (s'.serial_inited ≡ true)
      × (s'.writes ≡ s.writes ++ ((if b then [] else init_writes s.lcr) ++ sent buf))
puts_from true s buf h le = let (s', e, w, i) = send_all-sent s buf le in (s', e, i ∙ h refl, w)
puts_from false s buf h le =
    let first : Serial = record (serial_init s) { serial_inited = true } in
    let (s', e, w, i) = send_all-sent first buf (unfold serial_init write_port in le) in
    (
      s',
      e,
      i,
      w
          ∙ ap (λ l. l ++ sent buf) (serial_init-writes s)
          ∙ append_assoc s.writes (init_writes s.lcr) (sent buf),
    )

-- When the transmitter is ready once for each byte, `puts` ends; it sets the rate before its first
-- byte ever, and only then, and sends the bytes of the string in order and nothing else.
pub puts-sent :
    (s : Serial) (buf : List ℕ)
    → length buf ≤ ready_count s.readings
    → (s' : Serial) × (puts s buf ≡ some s')
      × (s'.serial_inited ≡ true)
      × (s'.writes ≡ s.writes ++ ((if s.serial_inited then [] else init_writes s.lcr) ++ sent buf))
unfolding puts print_serial
puts-sent s buf le = puts_from s.serial_inited s buf (λ e. e) le
