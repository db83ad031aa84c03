-- ===== src/Rtl/Format/Fuel.antt =====
-- The loop over a format in src/rtl/rtl_print.c ends: every round reads a character.
use mette.Base.{
  ℕ, zero, suc, ◌+◌, ◌≤◌, ◌<◌, ◌≡◌, ◌≢◌, refl, arith, List, [], ◌∷◌, length, Option, none, some,
}
use mette.Base.{
  Result, ok, fault, panic, ◌>>=◌, Returns, Returns-bind, Returns-if, Returns_mono, ◌==◌, ◌*◌, ◌-◌,
  ◌%◌,
}
use mette.Rtl.Strbuf.{Strbuf}
use mette.Rtl.Convert.{ascii2uint, ascii2uint_from}
use mette.Rtl.Print.{PrintContext, put_char}
use mette.Rtl.Format.{read_zero_padded, read_left_adjusted, read_width, read_prec, put_literal}
use mette.Rtl.Format.{
  convert, flush_pending, put_argument, put_conversion, put_percent, print_loop, print_internal,
}

ascii2uint_from-le : (value : ℕ) (t : List ℕ) → length (ascii2uint_from value t).1 ≤ length t
unfolding ascii2uint_from
ascii2uint_from-le value [] = omega arith
ascii2uint_from-le value (ch ∷ t) =
    ground (arith, ascii2uint_from-le ((value * 10 + (ch - b'0')) % 4294967296) t)

ascii2uint-le : (t : List ℕ) → length (ascii2uint t).1 ≤ length t
unfolding ascii2uint
ascii2uint-le t = ascii2uint_from-le 0 t

module _ {W : Type 0} where
  read_zero_padded-le :
      (p : PrintContext W) (t : List ℕ) → length (read_zero_padded p t).0 ≤ length t
  unfolding read_zero_padded
  read_zero_padded-le p [] = omega arith
  read_zero_padded-le p (ch ∷ t) = ground arith

  read_left_adjusted-le :
      (p : PrintContext W) (t : List ℕ) → length (read_left_adjusted p t).0 ≤ length t
  unfolding read_left_adjusted
  read_left_adjusted-le p [] = omega arith
  read_left_adjusted-le p (ch ∷ t) = ground arith

  read_width-le : (p : PrintContext W) (t : List ℕ) → length (read_width p t).0 ≤ length t
  unfolding read_width
  read_width-le p [] = omega arith
  read_width-le p (ch ∷ t) = ground (arith, ascii2uint-le (ch ∷ t))

  read_prec-le : (p : PrintContext W) (t : List ℕ) → length (read_prec p t).0 ≤ length t
  unfolding read_prec
  read_prec-le p [] = omega arith
  read_prec-le p (ch ∷ t) = ground (arith, ascii2uint-le t)

-- The loop has not run out of fuel.
abbrev pub Finished : {A : Type 0} → Option A → Type 0
Finished r = r ≢ none

module _ {W : Type 0} (flush_proc : List ℕ → W → Result W) (asciiz_at : ℕ → List ℕ)
    (strbuf_at : ℕ → Strbuf) where
  abbrev Moved : ℕ → Option (List ℕ) × PrintContext W → Type 0
  Moved n r = (rest : List ℕ) → r.0 ≡ some rest → length rest < n

  anything : {A : Type 0} (r : Result A) → Returns (λ a. Unit {0}) r
  anything (ok a) = tt
  anything (panic _) = tt
  anything (fault _) = tt

  put_literal-Moved :
      (p : PrintContext W) (cursor : List ℕ)
      → Returns (Moved (length cursor)) (put_literal flush_proc asciiz_at strbuf_at p cursor)
  unfolding put_literal
  put_literal-Moved p [] = λ rest e. cc
  put_literal-Moved p (ch ∷ cursor) =
      Returns-if (Moved (suc (length cursor))) (ch == b'%') (ok (some cursor, _)) _
        (λ rest e. let same : cursor ≡ rest = cc in rw (← same) (omega arith))
        (Returns-bind (λ a. Unit {0}) (Moved (suc (length cursor))) (put_char flush_proc p ch) _
          (anything (put_char flush_proc p ch))
          (λ q _.
            Returns_mono (Moved (length cursor)) (Moved (suc (length cursor)))
              (put_literal flush_proc asciiz_at strbuf_at q cursor)
              (λ r m rest e. omega (arith, m rest e)) (put_literal-Moved q cursor)))

  -- Fewer than `n` characters are left.
  abbrev Left : ℕ → List ℕ × List ℕ × PrintContext W → Type 0
  Left n q = length q.0 < n

  put_argument-Left :
      (p : PrintContext W) (cursor args : List ℕ)
      → Returns (Left (length cursor)) (put_argument flush_proc asciiz_at strbuf_at p cursor args)
  unfolding put_argument
  put_argument-Left p cursor [] = tt
  put_argument-Left p [] (arg ∷ args) = tt
  put_argument-Left p (ch ∷ cursor) (arg ∷ args) =
      Returns-bind (λ a. Unit {0}) (Left (suc (length cursor)))
        (convert flush_proc asciiz_at strbuf_at p ch arg) _
        (anything (convert flush_proc asciiz_at strbuf_at p ch arg)) (λ q _. omega arith)

  put_conversion-Left :
      (p : PrintContext W) (cursor args : List ℕ)
      → Returns (Left (length cursor)) (put_conversion flush_proc asciiz_at strbuf_at p cursor args)
  unfolding put_conversion
  put_conversion-Left p cursor args =
      let z = read_zero_padded p cursor in
      let l = read_left_adjusted z.1 z.0 in
      let w = read_width l.1 l.0 in
      let d = read_prec w.1 w.0 in
      Returns_mono (Left (length d.0)) (Left (length cursor)) _
        (λ q h. omega (
          arith,
          read_zero_padded-le p cursor,
          read_left_adjusted-le z.1 z.0,
          read_width-le l.1 l.0,
          read_prec-le w.1 w.0,
        ))
        (put_argument-Left d.1 d.0 args)

  put_percent-Left :
      (p : PrintContext W) (ch : ℕ) (cursor args : List ℕ)
      → Returns
          (Left (suc (length cursor)))
          (put_percent flush_proc asciiz_at strbuf_at p ch cursor args)
  unfolding put_percent
  put_percent-Left p ch cursor args =
      Returns-if (Left (suc (length cursor))) (ch == b'%') _ _
        (Returns-bind (λ a. Unit {0}) (Left (suc (length cursor))) (put_char flush_proc p ch) _
          (anything (put_char flush_proc p ch)) (λ q _. omega arith))
        (put_conversion-Left p (ch ∷ cursor) args)

  -- One round of the loop, if the rounds after it finish.
  round-Finished :
      (fuel n : ℕ) (o : Option (List ℕ)) (p : PrintContext W) (args : List ℕ)
      → ((q : PrintContext W) (cursor args : List ℕ)
          → length cursor < fuel
          → Returns Finished (print_loop flush_proc asciiz_at strbuf_at fuel q cursor args))
      → Moved n (o, p)
      → n ≤ fuel
      → Returns Finished (elim o [
        | none ↦ ok (some p)
        | some rest ↦ elim rest [
          | [] ↦ ok (some p)
          | ch ∷ behind ↦ put_percent flush_proc asciiz_at strbuf_at p ch behind args >>= λ q.
              print_loop flush_proc asciiz_at strbuf_at fuel q.2 q.0 q.1
        ]
      ])
  round-Finished fuel n none p args later moved enough = λ e. cc
  round-Finished fuel n (some []) p args later moved enough = λ e. cc
  round-Finished fuel n (some (ch ∷ behind)) p args later moved enough =
      Returns-bind (Left (suc (length behind))) Finished
        (put_percent flush_proc asciiz_at strbuf_at p ch behind args) _
        (put_percent-Left p ch behind args)
        (λ q h. later q.2 q.0 q.1 (omega (arith, moved (ch ∷ behind) refl)))

  print_loop-Finished :
      (fuel : ℕ) (p : PrintContext W) (cursor args : List ℕ)
      → length cursor < fuel
      → Returns Finished (print_loop flush_proc asciiz_at strbuf_at fuel p cursor args)
  unfolding print_loop
  print_loop-Finished zero p cursor args enough = absurd (omega arith)
  print_loop-Finished (suc fuel) p cursor args enough =
      Returns-bind (Moved (length cursor)) Finished
        (put_literal flush_proc asciiz_at strbuf_at p cursor) _ (put_literal-Moved p cursor)
        (λ r moved.
          round-Finished fuel (length cursor) r.0 r.1 args (print_loop-Finished fuel) moved
            (omega arith))

  -- The fuel of `print_internal` is enough for every format and all arguments: if no access fails
  -- and the flushes return, the loop comes to the end of the format.
  pub print_internal-Finished :
      (p : PrintContext W) (format args : List ℕ)
      → Returns Finished (print_internal flush_proc asciiz_at strbuf_at p format args)
  unfolding print_internal
  print_internal-Finished p format args =
      Returns-bind Finished Finished
        (print_loop flush_proc asciiz_at strbuf_at (suc (length format)) p format args) _
        (print_loop-Finished (suc (length format)) p format args (omega arith)) last
    where
      last :
          (r : Option (PrintContext W))
          → Finished r
          → Returns Finished (elim r [
            | none ↦ ok none
            | some q ↦ flush_pending flush_proc asciiz_at strbuf_at q >>= λ q'. ok (some q')
          ])
      last none finished = absurd (finished refl)
      last (some q) finished =
          Returns-bind (λ a. Unit {0}) Finished (flush_pending flush_proc asciiz_at strbuf_at q) _
            (anything (flush_pending flush_proc asciiz_at strbuf_at q)) (λ q' _ e. cc)
