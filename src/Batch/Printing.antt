-- ===== src/Batch/Printing.antt =====
-- What print_batch_spec of bench.h writes, the parser reads back.
use mathlib.Core.List.{append_assoc, append-nil}
use amp_project.Base.{
  ℕ, ◌≤◌, ◌<◌, ◌≡◌, refl, ◌∙◌, ap, true, false, some, [], ◌∷◌, ◌++◌, ltb, leb, ◌==◌, arith, length,
  length-append, replicate,
}
use amp_project.Batch.{
  BatchSpecKind, BatchSpec, fixed, range, ok, peek, skip_ws, check_int, parse_int_token,
  parse_tuple, parse_fixed, parse_spec, parse_batch_size_pattern, print_kind, print_batch_spec,
}
use amp_project.Batch.Runtime.{Bytes, Libc, int_max, digit_next, ReadsBack}
use amp_project.Batch.Parsing.{IsSpec}

module _ (libc : Libc) (decimal : ℕ → Bytes) (back : ReadsBack libc decimal) where
  -- A text that begins with a digit.
  digit_skip : (s rest : Bytes) → digit_next s ≡ true → skip_ws libc (s ++ rest) ≡ s ++ rest
  unfolding skip_ws
  digit_skip [] rest d = cc
  digit_skip (c ∷ s) rest d = rw (back.no_space c d)

  digit_peek : (s rest : Bytes) → digit_next s ≡ true → (peek (s ++ rest) == 0) ≡ false
  digit_peek [] rest d = cc
  digit_peek (c ∷ s) rest d = ground arith

  digit_open : (s rest : Bytes) → digit_next s ≡ true → (peek (s ++ rest) == b'(') ≡ false
  digit_open [] rest d = cc
  digit_open (c ∷ s) rest d = ground arith

  digit_list :
      (s rest : Bytes)
      → digit_next s ≡ true
      → ((peek (s ++ rest) == b'[') ≡ false) × ((peek (s ++ rest) == b'{') ≡ false)
  digit_list [] rest d = cc
  digit_list (c ∷ s) rest d = (ground arith, ground arith)

  digit_longer :
      (s rest : Bytes) → digit_next s ≡ true → (length rest == length (s ++ rest)) ≡ false
  digit_longer [] rest d = cc
  digit_longer (c ∷ s) rest d = ground (arith, length-append s rest)

  int_token :
      (n : ℕ) (rest : Bytes)
      → n ≤ int_max
      → digit_next rest ≡ false
      → parse_int_token libc (decimal n ++ rest) ≡ ok (some (n, rest))
  unfolding parse_int_token check_int
  int_token n rest le stops =
      let d = back.begins n in
      let small : ltb int_max n ≡ false = ground arith in
      rw
        (
          digit_skip (decimal n) rest d,
          digit_peek (decimal n) rest d,
          back.reads n rest le stops,
          digit_longer (decimal n) rest d,
          small,
        )
        refl

  tuple_back :
      (lo hi : ℕ) (rest : Bytes)
      → lo ≤ hi
      → hi ≤ int_max
      → parse_tuple libc (decimal lo ++ (b',' ∷ (decimal hi ++ (b')' ∷ rest))))
        ≡ ok (record { kind = range; min = lo; max = hi }, rest)
  unfolding parse_tuple skip_ws
  tuple_back lo hi rest order le =
      let le' : lo ≤ int_max = omega arith in
      let order' : leb lo hi ≡ true = ground arith in
      rw
        (
          int_token lo (b',' ∷ (decimal hi ++ (b')' ∷ rest))) le' refl,
          back.comma,
          int_token hi (b')' ∷ rest) le refl,
          back.close_mark,
          order',
        )
        refl

  -- The text of a spec, before any text that does not go on with a digit.
  kind_back :
      (kind : BatchSpecKind) (lo hi : ℕ) (rest : Bytes)
      → IsSpec (record { kind = kind; min = lo; max = hi })
      → digit_next rest ≡ false
      → parse_spec libc (print_kind decimal kind lo hi ++ rest)
        ≡ ok (record { kind = kind; min = lo; max = hi }, rest)
  unfolding parse_spec parse_fixed print_kind skip_ws
  kind_back fixed lo hi rest is stops =
      let d = back.begins lo in
      let le : lo ≤ int_max = omega (arith, is.ordered, is.bounded) in
      rw
        (
          digit_skip (decimal lo) rest d,
          digit_peek (decimal lo) rest d,
          digit_open (decimal lo) rest d,
          int_token lo rest le stops,
          is.one_size refl,
        )
        refl
  kind_back range lo hi rest is stops =
      let apart : (decimal lo ++ (b',' ∷ (decimal hi ++ (b')' ∷ [])))) ++ rest
          ≡ decimal lo ++ (b',' ∷ (decimal hi ++ (b')' ∷ rest))) =
        append_assoc (decimal lo) (b',' ∷ (decimal hi ++ (b')' ∷ []))) rest
        ∙ ap (λ z. decimal lo ++ (b',' ∷ z)) (append_assoc (decimal hi) (b')' ∷ []) rest) in
      rw (apart, back.open_mark) (tuple_back lo hi rest is.ordered is.bounded)

  -- The text begins with neither white space nor a bracket of a list.
  plain :
      (kind : BatchSpecKind) (lo hi : ℕ)
      → let s = print_kind decimal kind lo hi in
        (skip_ws libc s ≡ s)
        × ((peek s == 0) ≡ false)
        × ((peek s == b'[') ≡ false)
        × ((peek s == b'{') ≡ false)
  unfolding print_kind skip_ws
  plain range lo hi = (rw back.open_mark refl, refl, refl, refl)
  plain fixed lo hi =
      let d = back.begins lo in
      let e = append-nil (decimal lo) in
      (
        rw e at (digit_skip (decimal lo) [] d),
        rw e at (digit_peek (decimal lo) [] d),
        rw e at (digit_list (decimal lo) [] d).0,
        rw e at (digit_list (decimal lo) [] d).1,
      )

  pattern_back :
      (kind : BatchSpecKind) (lo hi : ℕ)
      → IsSpec (record { kind = kind; min = lo; max = hi })
      → (n : ℕ) → 0 < n
      → libc.allocates n ≡ true
      → parse_batch_size_pattern libc (print_kind decimal kind lo hi) n
        ≡ ok (some (replicate n (record { kind = kind; min = lo; max = hi })))
  unfolding parse_batch_size_pattern
  pattern_back kind lo hi is n more fits =
      let (skip, some_text, no_bracket, no_brace) = plain kind lo hi in
      let positive : ltb 0 n ≡ true = ground arith in
      let read : parse_spec libc (print_kind decimal kind lo hi)
          ≡ ok (record { kind = kind; min = lo; max = hi }, []) =
        rw (append-nil (print_kind decimal kind lo hi)) at (kind_back kind lo hi [] is refl) in
      rw (positive, skip, some_text, fits, no_bracket, no_brace, read) refl

  -- What print_batch_spec writes for a spec, parse_spec reads back, whatever text follows that does
  -- not go on with a digit; and as the whole pattern it gives each thread that spec.
  pub print_batch_spec-parse :
      (spec : BatchSpec)
      → IsSpec spec
      → ((rest : Bytes)
          → digit_next rest ≡ false
          → parse_spec libc (print_batch_spec decimal (some spec) ++ rest) ≡ ok (spec, rest))
        × ((n : ℕ)
            → 0 < n
            → libc.allocates n ≡ true
            → parse_batch_size_pattern libc (print_batch_spec decimal (some spec)) n
              ≡ ok (some (replicate n spec)))
  unfolding print_batch_spec
  print_batch_spec-parse spec is = (
    (λ rest stops. kind_back spec.kind spec.min spec.max rest is stops),
    (λ n pos fits. pattern_back spec.kind spec.min spec.max is n pos fits),
  )
