-- ===== src/Printf/Rounds.antt =====
-- The loop of `vsnprintf` of lib/printf.c on two streams that differ in their room.
use hyper_bench.Base.{
  ℕ, zero, suc, ◌+◌, ◌-◌, List, [], ◌∷◌, Option, none, some, ◌>>=◌, true, Bool-cases, inl, inr, ◌^◌,
  ◌%◌, ◌==◌,
}
use hyper_bench.Base.Int.{ℤ}
use hyper_bench.Base.Memory.{Memory}
use hyper_bench.Printf.{
  PStream, addchar, Conv, Next, again, done, fault, with_arg, printed, numbered, conv_number,
  conv_char, convert, format_loop, plain,
}
use hyper_bench.Printf.Streams.{
  SameText, Both, if_both, addchar-Same, print_int-Same, print_mem-Same, print_unsigned-Same,
}

module _ (k k' : ℕ) where
  -- The variables of the two runs: all but the stream are equal.
  data SameConv : Conv → Conv → Type 0 where
    same_conv :
        (c : Conv) (ps' : PStream) → SameText k k' c.ps ps' → SameConv c (record c { ps = ps' })

  data SameNext : Next → Next → Type 0 where
    both_again :
        (c : Conv) (ps' : PStream)
        → SameText k k' c.ps ps'
        → SameNext (again c) (again (record c { ps = ps' }))
    both_done :
        (c : Conv) (ps' : PStream)
        → SameText k k' c.ps ps'
        → SameNext (done c) (done (record c { ps = ps' }))
    both_fault : SameNext fault fault

  with_arg-SameNext :
      (c : Conv) (ps' : PStream) (f : Conv → ℕ → Next)
      → ((va : List ℕ) (a : ℕ)
          → SameNext (f (record c { va = va }) a) (f (record c { va = va; ps = ps' }) a))
      → SameNext (with_arg c f) (with_arg (record c { ps = ps' }) f)
  unfolding with_arg
  with_arg-SameNext c ps' f h =
      elim c.va
        as (λ l.
          SameNext (elim l [ [] ↦ fault | a ∷ r ↦ f (record c { va = r }) a ])
            (elim l [ [] ↦ fault | a ∷ r ↦ f (record c { va = r; ps = ps' }) a ])) [
              | [] ↦ both_fault
              | a ∷ r ↦ h r a
            ]

  printed-SameNext :
      (c : Conv) (ps' : PStream) (p p' : Option PStream)
      → Both (SameText k k') p p'
      → SameNext (printed c p) (printed (record c { ps = ps' }) p')
  unfolding printed
  printed-SameNext c ps' none none h = both_fault
  printed-SameNext c ps' (some p) (some p') h = both_done (record c { ps = p }) p' h
  printed-SameNext c ps' (some p) none h = absurd h
  printed-SameNext c ps' none (some p') h = absurd h

  numbered-SameNext :
      (c : Conv) (ps' : PStream) (n : Option (ℤ × ℕ))
      → SameText k k' c.ps ps'
      → SameNext (numbered c n) (numbered (record c { ps = ps' }) n)
  unfolding numbered
  numbered-SameNext c ps' none g = both_fault
  numbered-SameNext c ps' (some (n, fmt)) g =
      both_again (record c { fmt = fmt; props = record c.props { npad = n } }) ps' g

  conv_number-SameNext :
      (fuel : ℕ) (m : Memory) (f : ℕ) (c : Conv) (ps' : PStream)
      → SameText k k' c.ps ps'
      → SameNext (conv_number fuel m f c) (conv_number fuel m f (record c { ps = ps' }))
  unfolding conv_number
  conv_number-SameNext fuel m f c ps' g =
      if_both SameNext (f == b'd')
        (with_arg-SameNext c ps' _ (λ va a.
          printed-SameNext (record c { va = va }) ps' _ _
            (print_int-Same k k' c.ps ps' _ 10 c.props g)))
        (if_both SameNext _
          (with_arg-SameNext c ps' _ (λ va a.
            printed-SameNext (record c { va = va }) ps' _ _
              (print_unsigned-Same k k' c.ps ps' _ _ c.props g)))
          (if_both SameNext (f == b'p')
            (with_arg-SameNext c ps' _ (λ va a.
              printed-SameNext (record c { va = va }) ps' _ _
                (print_unsigned-Same k k' c.ps ps' _ 16 _ g)))
            (if_both SameNext (f == b's')
              (with_arg-SameNext c ps' _ (λ va a.
                printed-SameNext (record c { va = va }) ps' _ _
                  (print_mem-Same k k' fuel m c.ps ps' a c.props g)))
              (both_done (record c { ps = addchar c.ps f }) (addchar ps' f)
                (addchar-Same k k' c.ps ps' f g)))))

  conv_char-SameNext :
      (fuel : ℕ) (m : Memory) (f : ℕ) (c : Conv) (ps' : PStream)
      → SameText k k' c.ps ps'
      → SameNext (conv_char fuel m f c) (conv_char fuel m f (record c { ps = ps' }))
  unfolding conv_char
  conv_char-SameNext fuel m f c ps' g =
      if_both SameNext (f == b'%')
        (both_done (record c { ps = addchar c.ps b'%' }) (addchar ps' b'%')
          (addchar-Same k k' c.ps ps' b'%' g))
        (if_both SameNext (f == b'c')
          (with_arg-SameNext c ps' _ (λ va a.
            both_done (record c { va = va; ps = addchar c.ps (a % 2 ^ 8) })
              (addchar ps' (a % 2 ^ 8)) (addchar-Same k k' c.ps ps' (a % 2 ^ 8) g)))
          (if_both SameNext (f == 0) (both_done (record c { fmt = c.fmt - 1 }) ps' g) (
            if_both SameNext (f == b'#')
              (both_again (record c { props = record c.props { alternate = true } }) ps' g)
              (if_both SameNext (f == b'0')
                (numbered-SameNext (record c { props = record c.props { pad = b'0' } }) ps' _ g)
                (if_both SameNext _ (numbered-SameNext c ps' _ g) (
                  if_both SameNext (f == b'l') (both_again (record c { nlong = c.nlong + 1 }) ps' g)
                    (if_both SameNext _ (both_again (record c { nlong = 1 }) ps' g)
                      (conv_number-SameNext fuel m f c ps' g))))))))

  convert-SameConv :
      (f fuel : ℕ) (m : Memory) (c : Conv) (ps' : PStream)
      → SameText k k' c.ps ps'
      → Both SameConv (convert f fuel m c) (convert f fuel m (record c { ps = ps' }))
  unfolding convert
  convert-SameConv zero fuel m c ps' g = tt
  convert-SameConv (suc f) fuel m c ps' g =
      go _ _ (conv_char-SameNext fuel m (m c.fmt) (record c { fmt = c.fmt + 1 }) ps' g)
        (λ d p h. convert-SameConv f fuel m d p h)
    where
      go :
          (n n' : Next)
          → SameNext n n'
          → ((d : Conv) (p : PStream)
              → SameText k k' d.ps p
              → Both SameConv (convert f fuel m d) (convert f fuel m (record d { ps = p })))
          → Both SameConv
              (elim n [ again d ↦ convert f fuel m d | done d ↦ some d | fault ↦ none ])
              (elim n' [ again d ↦ convert f fuel m d | done d ↦ some d | fault ↦ none ])
      go _ _ (both_again d p h) rec = rec d p h
      go _ _ (both_done d p h) rec = same_conv d p h
      go _ _ both_fault rec = tt

  convert_bind :
      (x x' : Option Conv) (f : Conv → Option PStream)
      → Both SameConv x x'
      → ((c : Conv) (p : PStream)
          → SameText k k' c.ps p
          → Both (SameText k k') (f c) (f (record c { ps = p })))
      → Both (SameText k k') (x >>= f) (x' >>= f)
  convert_bind none none f h step = tt
  convert_bind (some c) (some c') f h step = related c c' h
    where
      related : (c c' : Conv) → SameConv c c' → Both (SameText k k') (f c) (f c')
      related _ _ (same_conv d p g) = step d p g
  convert_bind (some c) none f h step = absurd h
  convert_bind none (some c') f h step = absurd h

  pub format_loop-Same :
      (f fuel : ℕ) (m : Memory) (fmt : ℕ) (va : List ℕ) (ps ps' : PStream)
      → SameText k k' ps ps'
      → Both (SameText k k') (format_loop f fuel m fmt va ps) (format_loop f fuel m fmt va ps')
  unfolding format_loop
  format_loop-Same zero fuel m fmt va ps ps' g = tt
  format_loop-Same (suc f) fuel m fmt va ps ps' g =
      let start : Conv = record { fmt = fmt + 1; nlong = 0; props = plain; va = va; ps = ps } in
      elim (Bool-cases (m fmt == 0)) [
        | inl e ↦ rw (e, format_loop) g
        | inr more ↦ elim (Bool-cases (m fmt == b'%')) [
          | inl e ↦
              rw (more, format_loop)
                (rw (e, format_loop)
                  (convert_bind (convert fuel fuel m start)
                    (convert fuel fuel m (record start { ps = ps' }))
                    (λ c. format_loop f fuel m c.fmt c.va c.ps)
                    (convert-SameConv fuel fuel m start ps' g)
                    (λ c p h. format_loop-Same f fuel m c.fmt c.va c.ps p h)))
          | inr e ↦
              rw (more, format_loop)
                (rw (e, format_loop)
                  (format_loop-Same f fuel m (fmt + 1) va (addchar ps (m fmt)) (addchar ps' (m fmt))
                    (addchar-Same k k' ps ps' (m fmt) g)))
        ]
      ]
