-- ===== src/Batch/Parsing.antt =====
-- What the parser of bench.h accepts, and that its loop ends.
use amp_project.Base.{
  ℕ, ◌≤◌, ◌<◌, ◌≡◌, refl, Option, none, some, [], ◌∷◌, ltb, leb, ◌==◌, arith, length, Bool-cases,
  inl, inr,
}
use amp_project.Batch.{
  BatchSpec, fixed, range, Parsed, ok, die, ◌>>=◌, ◌>>◌, require, peek, advance, skip_ws, check_int,
  found, parse_int_token, parse_tuple, parse_fixed, parse_spec, Reason, expected_close,
  min_above_max, expected_comma, expected_max, expected_min, expected_spec,
}
use amp_project.Batch.Runtime.{Bytes, Libc, ℤ, pos, negsuc, int_max, StaysInside}

-- The parser ends: with a value for which `P` holds, or with a message.
pub data Ends {A : Type 0} (P : A → Type 0) : Parsed A → Type 0 where
  ended : {a : A} → P a → Ends P (ok a)
  died : {r : Reason} → Ends P (die r)

-- A spec that the program can use: the bounds in order, within `int`, and equal if it is fixed.
pub record IsSpec (e : BatchSpec) : Type 0 where
  pub ordered : e.min ≤ e.max
  pub bounded : e.max ≤ int_max
  pub one_size : e.kind ≡ fixed → e.min ≡ e.max

-- What `parse_int_token` gives at `s`: a message, nothing, or an integer within `int`, with less text
-- behind it.
pub data Token (s : Bytes) : Parsed (Option (ℕ × Bytes)) → Type 0 where
  message : {r : Reason} → Token s (die r)
  nothing : Token s (ok none)
  integer :
      {v : ℕ} {rest : Bytes} → v ≤ int_max → length rest < length s → Token s (ok (some (v, rest)))

abbrev pub Spec : Bytes → BatchSpec × Bytes → Type 0
Spec s (e, r) = IsSpec e × (length r < length s)

pub advance-le : (s : Bytes) → length (advance s) ≤ length s
advance-le [] = omega arith
advance-le (c ∷ s) = omega arith

module _ (libc : Libc) (inside : StaysInside libc) where
  pub skip_ws-le : (s : Bytes) → length (skip_ws libc s) ≤ length s
  unfolding skip_ws
  skip_ws-le [] = omega arith
  skip_ws-le (c ∷ s) = ground (arith, skip_ws-le s)

  check_int-Token : (v : ℤ) (end s : Bytes) → length end < length s → Token s (check_int v end)
  unfolding check_int
  check_int-Token (negsuc n) end s lt = message
  check_int-Token (pos n) end s lt = elim (Bool-cases (ltb int_max n)) [
    | inl big ↦ rw big message
    | inr small ↦ rw small (integer (ground arith) lt)
  ]

  parse_int_token-Token : (s : Bytes) → Token s (parse_int_token libc s)
  unfolding parse_int_token
  parse_int_token-Token s =
      let t = skip_ws libc s in
      let read = libc.strtol t in
      elim (Bool-cases (peek t == 0)) [
        | inl at_end ↦ rw at_end nothing
        | inr more ↦ rw more (elim (Bool-cases (length read.end == length t)) [
          | inl stays ↦ rw stays nothing
          | inr moved ↦ rw moved (elim (Bool-cases read.range_error) [
            | inl big ↦ rw big message
            | inr fits ↦
                rw fits
                  (check_int-Token read.value read.end s (ground (arith, inside t, skip_ws-le s)))
          ])
        ])
      ]

  -- The part of a tuple behind its second integer.
  tuple_close : ℕ → ℕ → Bytes → Parsed (BatchSpec × Bytes)
  tuple_close lo hi s = do
    require (peek (skip_ws libc s) == b')') expected_close
    require (leb lo hi) min_above_max
    ok (record { kind = range; min = lo; max = hi }, advance (skip_ws libc s))

  tuple_close-Spec :
      (lo hi : ℕ) (s s' : Bytes)
      → hi ≤ int_max
      → length s' < length s
      → Ends (Spec s) (tuple_close lo hi s')
  unfolding tuple_close
  tuple_close-Spec lo hi s s' le lt = elim (Bool-cases (peek (skip_ws libc s') == b')')) [
    | inr other ↦ rw other died
    | inl close ↦ rw close (elim (Bool-cases (leb lo hi)) [
      | inr above ↦ rw above died
      | inl order ↦ rw order (
          ended (
            record { ordered = ground arith; bounded = le; one_size = λ e. cc e },
            omega (arith, skip_ws-le s', advance-le (skip_ws libc s')),
          ))
    ])
  ]

  -- What follows an integer: `k` where there is one.
  Token-Spec :
      (s : Bytes) (r : Reason) (k : ℕ × Bytes → Parsed (BatchSpec × Bytes)) (u : Bytes)
      {t : Parsed (Option (ℕ × Bytes))}
      → Token u t
      → ((v : ℕ) (u' : Bytes) → v ≤ int_max → length u' < length u → Ends (Spec s) (k (v, u')))
      → Ends (Spec s) (t >>= λ o. found o r >>= k)
  Token-Spec s r k u message f = died
  Token-Spec s r k u nothing f = died
  Token-Spec s r k u (integer le lt) f = f _ _ le lt

  tuple_max : ℕ → Bytes → Parsed (BatchSpec × Bytes)
  unfolding tuple_close
  tuple_max lo s = do
    require (peek (skip_ws libc s) == b',') expected_comma
    t ← parse_int_token libc (advance (skip_ws libc s))
    found t expected_max >>= λ x. tuple_close lo x.0 x.1

  tuple_max-Spec : (lo : ℕ) (s s' : Bytes) → length s' < length s → Ends (Spec s) (tuple_max lo s')
  unfolding tuple_max
  tuple_max-Spec lo s s' lt = elim (Bool-cases (peek (skip_ws libc s') == b',')) [
    | inr other ↦ rw other died
    | inl comma ↦ rw comma (
        Token-Spec s expected_max (λ x. tuple_close lo x.0 x.1) (advance (skip_ws libc s'))
          (parse_int_token-Token (advance (skip_ws libc s')))
          λ hi s2 le lt2.
            tuple_close-Spec lo hi s s2 le
              (omega (arith, skip_ws-le s', advance-le (skip_ws libc s'))))
  ]

  parse_tuple-Spec : (s u : Bytes) → length s ≤ length u → Ends (Spec u) (parse_tuple libc s)
  unfolding parse_tuple tuple_max
  parse_tuple-Spec s u le =
      Token-Spec u expected_min (λ x. tuple_max x.0 x.1) s (parse_int_token-Token s)
        λ lo s1 _ lt. tuple_max-Spec lo u s1 (omega arith)

  parse_fixed-Spec : (s u : Bytes) → length s ≤ length u → Ends (Spec u) (parse_fixed libc s)
  unfolding parse_fixed
  parse_fixed-Spec s u short =
      Token-Spec u expected_spec _ s (parse_int_token-Token s) λ v s1 le lt.
        ended (record { ordered = omega arith; bounded = le; one_size = λ _. refl }, omega arith)

  -- A spec that is accepted is one the program can use, and the text behind it is shorter.
  pub parse_spec-Spec : (s : Bytes) → Ends (Spec s) (parse_spec libc s)
  unfolding parse_spec
  parse_spec-Spec s =
      let t = skip_ws libc s in
      elim (Bool-cases (peek t == 0)) [
        | inl at_end ↦ rw at_end died
        | inr more ↦ rw more (elim (Bool-cases (peek t == b'(')) [
          | inl tuple ↦
              rw tuple (parse_tuple-Spec (advance t) s (omega (arith, skip_ws-le s, advance-le t)))
          | inr plain ↦ rw plain (parse_fixed-Spec t s (skip_ws-le s))
        ])
      ]
