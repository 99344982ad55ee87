-- ===== src/Batch/Concrete.antt =====
-- A C library for the tests of bench.h, with the behaviour that its theorems rely on.
use amp_project.Base.{
  ℕ, zero, suc, ◌+◌, ◌-◌, ◌*◌, ◌/◌, ◌%◌, ◌^◌, ◌≤◌, ◌<◌, ◌≡◌, refl, ◌∙◌, ap, true, false, ◌&&◌, [],
  ◌∷◌, ◌++◌, ltb, leb, ◌==◌, if◌then◌else◌, arith, length, Bool-cases, inl, inr,
}
use mathlib.Core.List.{append_assoc}
use amp_project.Batch.Runtime.{Bytes, Libc, pos, StaysInside, digit_next, ReadsBack}

-- the decimal digits at the front of a text
unfoldable pub digits : ℕ → Bytes → ℕ × Bytes
digits acc [] = (acc, [])
digits acc (c ∷ s) =
    let rest = digits (acc * 10 + (c - b'0')) s in
    if leb b'0' c && leb c b'9' then rest else (acc, c ∷ s)

length-digits : (acc : ℕ) (s : Bytes) → length (digits acc s).1 ≤ length s
unfolding digits
length-digits acc [] = omega arith
length-digits acc (c ∷ s) = elim (Bool-cases (leb b'0' c && leb c b'9')) [
  | inl digit ↦ rw digit (omega (arith, length-digits (acc * 10 + (c - b'0')) s))
  | inr other ↦ rw other (omega arith)
]

-- Unsigned decimals, blanks, memory for a thousand specs, and a generator that counts.
abbrev pub libc : Libc
libc = record {
  isspace = λ c. c == b' ';
  strtol = λ s.
      let read = digits 0 s in
      record { value = pos read.0; end = read.1; range_error = ltb (2 ^ 63 - 1) read.0 };
  atoi = λ s. pos (digits 0 s).0;
  allocates = λ n. leb n 1000;
  rand_r = λ state. (state, state + 1);
}

pub libc-StaysInside : StaysInside libc
libc-StaysInside s = length-digits 0 s

-- the decimals of `n`, with fuel above `n`
decimals : (fuel n : ℕ) → Bytes
decimals zero n = []
decimals (suc k) n =
    let front = decimals k (n / 10) in
    if ltb n 10 then (b'0' + n) ∷ [] else front ++ (b'0' + n % 10) ∷ []

unfoldable pub decimal : ℕ → Bytes
unfolding decimals
decimal n = decimals (suc n) n

digits_digit :
    (acc d : ℕ) (rest : Bytes)
    → d < 10
    → digits acc ((b'0' + d) ∷ rest) ≡ digits (acc * 10 + d) rest
unfolding digits
digits_digit acc d rest lt =
    let digit : (leb b'0' (b'0' + d) && leb (b'0' + d) b'9') ≡ true = ground arith in
    let value : acc * 10 + (b'0' + d - b'0') ≡ acc * 10 + d = omega arith in rw (digit, value) refl

digits-decimals : (k n : ℕ) (rest : Bytes) → n < k → digits 0 (decimals k n ++ rest) ≡ digits n rest
unfolding decimals
digits-decimals zero n rest lt = absurd (omega arith)
digits-decimals (suc k) n rest lt = elim (Bool-cases (ltb n 10)) [
  | inl small ↦
      rw small (digits_digit 0 n rest (ground arith) ∙ ap (λ m. digits m rest) (omega arith))
  | inr large ↦
      let less : n / 10 < k = ground arith in
      rw large (
        ap (digits 0) (append_assoc (decimals k (n / 10)) ((b'0' + n % 10) ∷ []) rest)
        ∙ digits-decimals k (n / 10) ((b'0' + n % 10) ∷ rest) less
        ∙ digits_digit (n / 10) (n % 10) rest (omega arith)
        ∙ ap (λ m. digits m rest) (omega arith))
]

digits_stop : (n : ℕ) (rest : Bytes) → digit_next rest ≡ false → digits n rest ≡ (n, rest)
unfolding digits
digits_stop n [] stops = refl
digits_stop n (c ∷ s) stops = rw stops refl

digit_next-append : (s t : Bytes) → digit_next s ≡ true → digit_next (s ++ t) ≡ true
digit_next-append [] t d = cc
digit_next-append (c ∷ s) t d = d

decimals_begin : (k n : ℕ) → n < k → digit_next (decimals k n) ≡ true
unfolding decimals
decimals_begin zero n lt = absurd (omega arith)
decimals_begin (suc k) n lt = elim (Bool-cases (ltb n 10)) [
  | inl small ↦ rw small (ground arith)
  | inr large ↦
      rw large
        (digit_next-append (decimals k (n / 10)) _ (decimals_begin k (n / 10) (ground arith)))
]

pub libc-ReadsBack : ReadsBack libc decimal
unfolding decimal
libc-ReadsBack = record {
  reads = λ n rest le stops.
      let read : digits 0 (decimals (suc n) n ++ rest) ≡ (n, rest) =
        digits-decimals (suc n) n rest (omega arith) ∙ digits_stop n rest stops in
      let fits : ltb (2 ^ 63 - 1) n ≡ false = ground arith in rw (read, fits) refl;
  begins = λ n. decimals_begin (suc n) n (omega arith);
  no_space = λ c d. ground arith;
  open_mark = refl;
  comma = refl;
  close_mark = refl;
}
