-- ===== src/Batch/Assign.antt =====
-- `parse_batch_size_pattern` of bench.h: every thread gets a spec of the text that the program can
-- use.
use amp_project.Base.{
  ℕ, zero, suc, ◌+◌, ◌%◌, ◌≤◌, ◌<◌, ◌≡◌, ◌≢◌, refl, sym, ap, subst, ◌∙◌, Option, none, some, List,
  [], ◌∷◌, ltb, ◌==◌, arith, length, length-replicate, get_elem?-replicate, get_elem?, replicate,
  Bool-cases, Option-cases, inl, inr,
}
use native.Mathlib.Nat.{mod-lt, mod-eq_of_lt}
use amp_project.Batch.{
  BatchSpec, Parsed, ok, ◌>>=◌, ◌>>◌, require, peek, skip_ws, parse_spec, parse_spec_list, put_spec,
  fill_specs, parse_batch_size_pattern, trailing_characters, wrong_length,
}
use amp_project.Batch.Runtime.{Bytes, Libc, StaysInside}
use amp_project.Batch.Grammar.{Bracketed, Describes, repeated_list, list_for_each, one_for_all}
use amp_project.Batch.Parsing.{Ends, ended, died, IsSpec, parse_spec-Spec}
use amp_project.Batch.Listing.{
  AllSpecs, AllSpecs-replicate, get_elem?-IsSpec, bind-Ends, Ends-value, SomeSpecs,
  parse_spec_list-Bracketed,
}

get_elem?-ne-none : {A : Type 0} (xs : List A) (i : ℕ) → i < length xs → get_elem? xs i ≢ none
get_elem?-ne-none [] i lt e = absurd (omega arith)
get_elem?-ne-none (x ∷ xs) zero lt e = cc e
get_elem?-ne-none (x ∷ xs) (suc i) lt e = get_elem?-ne-none xs i (omega arith) e

each-cons :
    {A : Type 0} (es elems : List A) (index : ℕ → ℕ) (k t : ℕ) {e : A}
    → get_elem? elems (index t) ≡ some e
    → ((i : ℕ) → i < k → get_elem? es i ≡ get_elem? elems (index (t + 1 + i)))
    → (i : ℕ) → i < suc k
    → get_elem? (e ∷ es) i ≡ get_elem? elems (index (t + i))
each-cons es elems index k t at each zero lt =
    sym at ∙ ap (λ n. get_elem? elems (index n)) (omega arith)
each-cons es elems index k t at each (suc i) lt =
    each i (omega arith) ∙ ap (λ n. get_elem? elems (index n)) (omega arith)

-- The loop that fills the threads' specs stays in range, and gives thread `t` the element `index t`.
pub fill_specs-total :
    (index : ℕ → ℕ) (elems : List BatchSpec) (k t : ℕ)
    → AllSpecs elems
    → ((i : ℕ) → t ≤ i → i < t + k → index i < length elems)
    → (es : List BatchSpec) × (fill_specs index elems k t ≡ some es)
      × (length es ≡ k)
      × AllSpecs es
      × ((i : ℕ) → i < k → get_elem? es i ≡ get_elem? elems (index (t + i)))
unfolding fill_specs put_spec
fill_specs-total index elems zero t all inside = ([], refl, refl, tt, λ i lt. absurd (omega arith))
fill_specs-total index elems (suc k) t all inside =
    elim (Option-cases (get_elem? elems (index t))) [
      | inl out ↦
          absurd (get_elem?-ne-none elems (index t) (inside t (omega arith) (omega arith)) out)
      | inr (e, at) ↦
          let (es, eq, len, good, each) =
            fill_specs-total index elems k (t + 1) all
              λ i le lt. inside i (omega arith) (omega arith) in
          (
            e ∷ es,
            rw (at, eq) refl,
            omega (arith, len),
            (get_elem?-IsSpec elems (index t) all at, good),
            each-cons es elems index k t at each,
          )
    ]

-- Each of the `n` threads has a spec that the program can use, and thread `t` that of element
-- `t % length pattern` of a pattern that is not empty.
pub record Assigned (n : ℕ) (out : Option (List BatchSpec)) : Type 0 where
  pub specs : List BatchSpec
  pub is : out ≡ some specs
  pub count : length specs ≡ n
  pub good : AllSpecs specs
  pub pattern : List BatchSpec
  pub some_pattern : 0 < length pattern
  pub cycle : (t : ℕ) → t < n → get_elem? specs t ≡ get_elem? pattern (t % length pattern)

-- And that pattern is the one in the text `s`.
pub record Described (libc : Libc) (n : ℕ) (s : Bytes) (out : Option (List BatchSpec))
    : Type 0 where
  pub assigned : Assigned n out
  pub describes : Describes libc n s assigned.pattern

-- A loop whose index agrees with `t % length elems` assigns the pattern `elems`.
fill_specs-Assigned :
    (index : ℕ → ℕ) (elems : List BatchSpec) (n : ℕ)
    → SomeSpecs elems
    → ((t : ℕ) → t < n → index t ≡ t % length elems)
    → Assigned n (fill_specs index elems n 0)
fill_specs-Assigned index elems n (all, some_elem) agree =
    let (es, eq, len, good, each) =
      fill_specs-total index elems n 0 all
        λ i _ lt. omega (arith, agree i (omega arith), mod-lt i some_elem) in
    record {
      specs = es;
      is = eq;
      count = len;
      good = good;
      pattern = elems;
      some_pattern = some_elem;
      cycle = λ t lt. each t lt ∙ ap (λ i. get_elem? elems i) (ap index (omega arith) ∙ agree t lt);
    }

replicate-Assigned : (n : ℕ) (e : BatchSpec) → IsSpec e → Assigned n (some (replicate n e))
replicate-Assigned n e is = record {
  specs = replicate n e;
  is = refl;
  count = length-replicate n e;
  good = AllSpecs-replicate n e is;
  pattern = e ∷ [];
  some_pattern = omega arith;
  cycle = λ t lt.
      get_elem?-replicate n t e lt
      ∙ ap (λ i. get_elem? (e ∷ []) i) (let zero_mod : 0 ≡ t % 1 = omega arith in zero_mod);
}

skip_ws_twice : (libc : Libc) (s : Bytes) → skip_ws libc (skip_ws libc s) ≡ skip_ws libc s
unfolding skip_ws
skip_ws_twice libc [] = refl
skip_ws_twice libc (c ∷ s) = elim (Bool-cases (libc.isspace c)) [
  | inl space ↦ rw space (skip_ws_twice libc s)
  | inr other ↦ rw (other, skip_ws, other) refl
]

module _ (libc : Libc) (inside : StaysInside libc) where
  -- The last two forms of a pattern.
  abbrev explicit_list : ℕ → Bytes → Parsed (Option (List BatchSpec))
  explicit_list n s = do
    elems ← parse_spec_list libc b'{' b'}' s
    require (length elems == n) wrong_length
    ok (fill_specs (λ t. t) elems n 0)

  abbrev single_spec : ℕ → Bytes → Parsed (Option (List BatchSpec))
  single_spec n s = do
    out ← parse_spec libc s
    require (peek (skip_ws libc out.1) == 0) trailing_characters
    ok (some (replicate n out.0))

  -- With a `strtol` that stops inside its text: on every text the parser ends, with a message or
  -- with the specs of the `n` threads. The text,
  -- behind white space, then has one of the three forms, all of it read: a list in `[]`, a list of
  -- `n` in `{}`, or one spec. Thread `t` has the spec that stands at place `t % len` of those in the
  -- text, its bounds in order and within `int`.
  pub parse_batch_size_pattern-Described :
      (pattern : Bytes) (n : ℕ)
      → Ends (Described libc n (skip_ws libc pattern)) (parse_batch_size_pattern libc pattern n)
  unfolding parse_batch_size_pattern fill_specs-Assigned replicate-Assigned
  parse_batch_size_pattern-Described pattern n =
      let s = skip_ws libc pattern in
      elim (Bool-cases (ltb 0 n)) [
        | inr zero_threads ↦ rw zero_threads died
        | inl some_threads ↦ rw some_threads (elim (Bool-cases (peek s == 0)) [
          | inl at_end ↦ rw at_end died
          | inr more ↦ rw more (elim (Bool-cases (libc.allocates n)) [
            | inr less ↦ rw less died
            | inl memory ↦ rw memory (elim (Bool-cases (peek s == b'[')) [
              | inl repeated ↦ rw repeated (
                  bind-Ends _ (parse_spec_list-Bracketed libc inside b'[' b']' s)
                    λ elems (some_specs, b). ended (record {
                      assigned =
                          fill_specs-Assigned (λ t. t % length elems) elems n some_specs
                            λ t lt. refl;
                      describes = repeated_list (twice b);
                    }))
              | inr other ↦ rw other (elim (Bool-cases (peek s == b'{')) [
                | inl braced ↦ rw braced explicit-Described
                | inr plain ↦ rw plain (single-Described (ground arith) (ground arith))
              ])
            ])
          ])
        ])
      ]
    where
      twice :
          {open_ch close_ch : ℕ} {es : List BatchSpec}
          → Bracketed libc open_ch close_ch (skip_ws libc (skip_ws libc pattern)) es
          → Bracketed libc open_ch close_ch (skip_ws libc pattern) es
      twice {open_ch} {close_ch} {es} b =
          subst (λ u. Bracketed libc open_ch close_ch u es) (skip_ws_twice libc pattern) b

      explicit-Described :
          Ends (Described libc n (skip_ws libc pattern)) (explicit_list n (skip_ws libc pattern))
      explicit-Described =
          bind-Ends _ (parse_spec_list-Bracketed libc inside b'{' b'}' (skip_ws libc pattern))
            λ elems (some_specs, b). elim (Bool-cases (length elems == n)) [
              | inr differs ↦ rw differs died
              | inl fits ↦
                  let same : length elems ≡ n = ground arith in
                  rw fits (
                    ended (record {
                      assigned =
                          fill_specs-Assigned (λ t. t) elems n some_specs
                            λ t lt.
                              omega (arith, mod-eq_of_lt {n = t} {m = length elems} (omega arith));
                      describes = list_for_each (twice b) same;
                    }))
            ]

      single-Described :
          peek (skip_ws libc pattern) ≢ b'['
          → peek (skip_ws libc pattern) ≢ b'{'
          → Ends (Described libc n (skip_ws libc pattern)) (single_spec n (skip_ws libc pattern))
      single-Described square brace =
          bind-Ends _ (Ends-value (parse_spec-Spec libc inside (skip_ws libc pattern)))
            λ out (p, read). elim (Bool-cases (peek (skip_ws libc out.1) == 0)) [
              | inl at_end ↦ rw at_end (
                  ended (record {
                    assigned = replicate-Assigned n out.0 p.0;
                    describes = one_for_all square brace read (ground arith);
                  }))
              | inr junk ↦ rw junk died
            ]
