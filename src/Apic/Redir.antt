-- ===== src/Apic/Redir.antt =====
-- The redirection entries of the I/O APIC in x86_64/apic.c.
use hyper_bench.Base.{ℕ, ◌+◌, ◌*◌, ◌/◌, ◌%◌, ◌^◌, ◌<◌, ◌≡◌, refl, arith, List, [], ◌∷◌, ◌++◌, ap}
use hyper_bench.Apic.{
  Apic, Event, mmio_write, low_word, high_word, from_words, redir_reg, set_mask, g_ioapic,
}

-- The words of an entry that was made of two words, with another mask bit.
low_word-mask :
    (lo hi mask : ℕ)
    → lo < 2 ^ 32
    → low_word (record (from_words lo hi) { mask = mask % 2 })
      ≡ lo % 2 ^ 16 + mask % 2 * 2 ^ 16 + lo / 2 ^ 17 * 2 ^ 17
unfolding low_word from_words
low_word-mask lo hi mask fits = omega arith

high_word-mask :
    (lo hi mask : ℕ) → hi < 2 ^ 32 → high_word (record (from_words lo hi) { mask = mask % 2 }) ≡ hi
unfolding high_word from_words
high_word-mask lo hi mask fits = omega arith

append-six :
    (l : List Event) (a b c d e f : Event)
    → (((((l ++ (a ∷ [])) ++ (b ∷ [])) ++ (c ∷ [])) ++ (d ∷ [])) ++ (e ∷ [])) ++ (f ∷ [])
      ≡ l ++ (a ∷ b ∷ c ∷ d ∷ e ∷ f ∷ [])
append-six [] a b c d e f = refl
append-six (x ∷ l) a b c d e f = ap (◌∷◌ x) (append-six l a b c d e f)

-- Select a register, and write the window.
abbrev pub selects : ℕ → Event
selects reg = mmio_write g_ioapic reg

abbrev pub writes : ℕ → Event
writes value = mmio_write (g_ioapic + 0x10) value

set_mask-words_at :
    (window : ℕ → ℕ) (s : Apic) (line mask : ℕ)
    → (set_mask window s line mask).log
      ≡ s.log
        ++ (selects (redir_reg line 0)
            ∷ selects (redir_reg line 1)
            ∷ selects (redir_reg line 0)
            ∷ writes (
                window (redir_reg line 0) % 2 ^ 32 % 2 ^ 16
                + mask % 2 * 2 ^ 16
                + window (redir_reg line 0) % 2 ^ 32 / 2 ^ 17 * 2 ^ 17)
            ∷ selects (redir_reg line 1)
            ∷ writes (window (redir_reg line 1) % 2 ^ 32)
            ∷ [])
unfolding set_mask
set_mask-words_at window s line mask =
    let lo = window (redir_reg line 0) % 2 ^ 32 in
    let hi = window (redir_reg line 1) % 2 ^ 32 in
    rw (low_word-mask lo hi mask (omega arith), high_word-mask lo hi mask (omega arith))
      (append-six s.log _ _ _ _ _ _)

-- `set_mask` selects the registers 16 + 2 * line and 17 + 2 * line, wrapped to 32 bits, one after the other to read them, and then writes to
-- the same registers the words that it read, with bit 16 of the first one made the lowest bit of its
-- argument; it writes nothing else to any device.
pub set_mask-words :
    (window : ℕ → ℕ) (s : Apic) (line mask : ℕ)
    → (set_mask window s line mask).log
      ≡ s.log
        ++ (selects ((16 + line * 2) % 2 ^ 32)
            ∷ selects ((17 + line * 2) % 2 ^ 32)
            ∷ selects ((16 + line * 2) % 2 ^ 32)
            ∷ writes (
                window ((16 + line * 2) % 2 ^ 32) % 2 ^ 32 % 2 ^ 16
                + mask % 2 * 2 ^ 16
                + window ((16 + line * 2) % 2 ^ 32) % 2 ^ 32 / 2 ^ 17 * 2 ^ 17)
            ∷ selects ((17 + line * 2) % 2 ^ 32)
            ∷ writes (window ((17 + line * 2) % 2 ^ 32) % 2 ^ 32)
            ∷ [])
set_mask-words window s line mask =
    let e0 : redir_reg line 0 ≡ (16 + line * 2) % 2 ^ 32 = omega arith in
    let e1 : redir_reg line 1 ≡ (17 + line * 2) % 2 ^ 32 = omega arith in
    rw (e0, e1) at (set_mask-words_at window s line mask)
