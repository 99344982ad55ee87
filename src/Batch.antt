-- ===== src/Batch.antt =====
-- project_skeleton/src/bench.h: batch size patterns of the command line, and the sizes drawn from
-- them. A text is the list of its bytes; a pointer into it is the rest of the text behind it, and the
-- byte at the end is the terminating 0.
pub mod Runtime
pub mod Parsing
pub mod Grammar
pub mod Listing
pub mod Assign
pub mod Sampling
pub mod Arguments
pub mod Printing
mod Concrete
mod Examples
use amp_project.Base.{
  ℕ, zero, suc, ◌+◌, ◌-◌, ◌*◌, ◌%◌, ◌≤◌, ◌<◌, Bool, true, false, not, ◌&&◌, ◌||◌, Option, none,
  some, List, [], ◌∷◌, ◌++◌, ltb, leb, ◌==◌, if◌then◌else◌, length, get_elem?, replicate,
}
use Runtime.{Bytes, Libc, ℤ, pos, negsuc, int_max}

-- `batch_spec_kind_t`, constructors as BATCH_SPEC_FIXED and BATCH_SPEC_RANGE
pub data BatchSpecKind : Type 0 where
  fixed range : BatchSpecKind

-- `batch_spec_t`; the sizes that the parser stores are never negative.
pub record BatchSpec : Type 0 where
  pub kind : BatchSpecKind
  pub min : ℕ
  pub max : ℕ

-- The messages of `die_pattern`, which ends the program.
pub data Reason : Type 0 where
  integer_out_of_range negative_or_too_large unexpected_end expected_min expected_comma : Reason
  expected_max expected_close min_above_max expected_spec list_expected out_of_memory : Reason
  empty_list expected_comma_or_bracket trailing_characters no_threads empty_pattern : Reason
  wrong_length usage bad_repetitions bad_interval : Reason

-- A value, the end of the program with a message, or a loop that used up its fuel.
pub data Parsed (A : Type 0) : Type 0 where
  ok : A → Parsed A
  die : Reason → Parsed A
  starved : Parsed A

infixl 5 ◌>>=◌ ◌>>◌
abbrev pub ◌>>=◌ : {A B : Type 0} → Parsed A → (A → Parsed B) → Parsed B
ok a >>= f = f a
die r >>= f = die r
starved >>= f = starved

abbrev pub ◌>>◌ : {B : Type 0} → Parsed (Unit {0}) → Parsed B → Parsed B
m >> k = m >>= λ _. k

-- `if (!test) die_pattern(pattern, reason);`
abbrev pub require : Bool → Reason → Parsed (Unit {0})
require true r = ok tt
require false r = die r

-- `*s` and `s + 1`
abbrev pub peek : Bytes → ℕ
peek [] = 0
peek (c ∷ s) = c

abbrev pub advance : Bytes → Bytes
advance [] = []
advance (c ∷ s) = s

-- The sign and the bound of what `strtol` read.
pub check_int : ℤ → Bytes → Parsed (Option (ℕ × Bytes))
check_int (negsuc n) end = die negative_or_too_large
check_int (pos n) end = if ltb int_max n then die negative_or_too_large else ok (some (n, end))

-- The caller's test of the result.
abbrev pub found : {A : Type 0} → Option A → Reason → Parsed A
found none r = die r
found (some a) r = ok a

put_spec : Option BatchSpec → Option (List BatchSpec) → Option (List BatchSpec)
put_spec none es = none
put_spec (some e) none = none
put_spec (some e) (some es) = some (e ∷ es)

-- `for (t = 0; t < num_threads; ++t) per_thread[t] = elems[index t]`, with the rounds left. `none`
-- is an index out of range.
pub fill_specs : (index : ℕ → ℕ) → List BatchSpec → (rounds t : ℕ) → Option (List BatchSpec)
unfolding put_spec
fill_specs index elems zero t = some []
fill_specs index elems (suc k) t =
    put_spec (get_elem? elems (index t)) (fill_specs index elems k (t + 1))

-- What `parse_args` stores.
pub record Config : Type 0 where
  pub num_threads : ℕ
  pub num_repetitions : ℕ
  pub time_interval : ℕ
  pub enq_specs : Option (List BatchSpec)
  pub deq_specs : Option (List BatchSpec)
  pub filename : Option Bytes

-- `if (n <= 0) exit(EXIT_FAILURE);`
pub positive : ℤ → Reason → Parsed ℕ
positive (pos zero) r = die r
positive (pos (suc n)) r = ok (suc n)
positive (negsuc n) r = die r

-- `print_batch_spec`, with what `printf("%d")` writes; `none` is NULL. There is no third kind.
module _ (decimal : ℕ → Bytes) where
  print_kind : BatchSpecKind → (lo hi : ℕ) → Bytes
  print_kind fixed lo hi = decimal lo
  print_kind range lo hi = b'(' ∷ (decimal lo ++ b',' ∷ (decimal hi ++ b')' ∷ []))

  pub print_batch_spec : Option BatchSpec → Bytes
  unfolding print_kind
  print_batch_spec none = b'(' ∷ b'n' ∷ b'u' ∷ b'l' ∷ b'l' ∷ b')' ∷ []
  print_batch_spec (some spec) = print_kind spec.kind spec.min spec.max

module _ (libc : Libc) where
  open libc use {isspace, strtol, allocates}

  pub skip_ws : Bytes → Bytes
  skip_ws [] = []
  skip_ws (c ∷ s) = if isspace c then skip_ws s else c ∷ s

  -- `none` for the result 0: no integer there, and the pointer stays.
  pub parse_int_token : Bytes → Parsed (Option (ℕ × Bytes))
  unfolding skip_ws check_int
  parse_int_token inout =
      let s = skip_ws inout in
      let read = strtol s in
      if peek s == 0
      then ok none
      else if length read.end == length s
      then ok none
      else if read.range_error
      then die integer_out_of_range
      else check_int read.value read.end

  -- A tuple, behind its bracket.
  pub parse_tuple : Bytes → Parsed (BatchSpec × Bytes)
  unfolding parse_int_token
  parse_tuple s = do
    t ← parse_int_token s
    (min_v, s) ← found t expected_min
    let s = skip_ws s
    require (peek s == b',') expected_comma
    t ← parse_int_token (advance s)
    (max_v, s) ← found t expected_max
    let s = skip_ws s
    require (peek s == b')') expected_close
    require (leb min_v max_v) min_above_max
    ok (record { kind = range; min = min_v; max = max_v }, advance s)

  pub parse_fixed : Bytes → Parsed (BatchSpec × Bytes)
  unfolding parse_int_token
  parse_fixed s = do
    t ← parse_int_token s
    (v, s) ← found t expected_spec
    ok (record { kind = fixed; min = v; max = v }, s)

  pub parse_spec : Bytes → Parsed (BatchSpec × Bytes)
  unfolding parse_tuple parse_fixed
  parse_spec inout =
      let s = skip_ws inout in
      if peek s == 0
      then die unexpected_end
      else if peek s == b'('
      then parse_tuple (advance s)
      else parse_fixed s

  -- The array grows when it is full.
  pub grow : (len cap : ℕ) → Parsed ℕ
  grow len cap =
      if len == cap
      then (if allocates (cap * 2) then ok (cap * 2) else die out_of_memory)
      else ok cap

  -- `while (1)` on fuel; `elems` holds what has been read, `cap` its capacity.
  pub parse_elems :
      (close_ch fuel cap : ℕ) → List BatchSpec → Bytes → Parsed (List BatchSpec × Bytes)
  unfolding grow parse_spec
  parse_elems close_ch zero cap elems s = starved
  parse_elems close_ch (suc fuel) cap elems s = do
    cap' ← grow (length elems) cap
    (e, r) ← parse_spec s
    let s = skip_ws r
    let rest = parse_elems close_ch fuel cap' (elems ++ e ∷ []) (skip_ws (advance s))
    if peek s == b','
        then rest
        else if peek s == close_ch
        then ok (elems ++ e ∷ [], advance s)
        else die expected_comma_or_bracket

  pub parse_spec_list : (open_ch close_ch : ℕ) → Bytes → Parsed (List BatchSpec)
  unfolding parse_elems
  parse_spec_list open_ch close_ch inner = do
    let s = skip_ws inner
    require (peek s == open_ch) list_expected
    require (allocates 8) out_of_memory
    let s = skip_ws (advance s)
    require (not (peek s == close_ch)) empty_list
    (elems, r) ← parse_elems close_ch (length s + 1) 8 [] s
    require (peek (skip_ws r) == 0) trailing_characters
    ok elems

  pub parse_batch_size_pattern : Bytes → (num_threads : ℕ) → Parsed (Option (List BatchSpec))
  unfolding parse_spec_list fill_specs
  parse_batch_size_pattern pattern num_threads = do
    require (ltb 0 num_threads) no_threads
    let s = skip_ws pattern
    require (not (peek s == 0)) empty_pattern
    require (allocates num_threads) out_of_memory
    if peek s == b'['
        then (do
          elems ← parse_spec_list b'[' b']' s
          ok (fill_specs (λ t. t % length elems) elems num_threads 0))
        else if peek s == b'{'
        then (do
          elems ← parse_spec_list b'{' b'}' s
          require (length elems == num_threads) wrong_length
          ok (fill_specs (λ t. t) elems num_threads 0))
        else (do
          (one, p) ← parse_spec s
          require (peek (skip_ws p) == 0) trailing_characters
          ok (some (replicate num_threads one)))

  -- The draw from `[lo, hi]`; `hi - lo + 1` is computed as an `int`.
  pub sample_range : (lo hi rng_state : ℕ) → Option (ℕ × ℕ)
  sample_range lo hi rng_state =
      let (r, state) = libc.rand_r rng_state in
      if lo == hi
      then some (lo, rng_state)
      else if ltb int_max (hi - lo + 1)
      then none
      else some (lo + r % (hi - lo + 1), state)

  pub sample_kind : BatchSpecKind → (lo hi rng_state : ℕ) → Option (ℕ × ℕ)
  unfolding sample_range
  sample_kind fixed lo hi rng_state = some (lo, rng_state)
  sample_kind range lo hi rng_state = sample_range lo hi rng_state

  -- `batch_spec_sample` at a spec that is not NULL, with the state of `rand_r`. `none` is a signed
  -- overflow, which C leaves undefined.
  pub batch_spec_sample : BatchSpec → (rng_state : ℕ) → Option (ℕ × ℕ)
  unfolding sample_kind
  batch_spec_sample spec rng_state = sample_kind spec.kind spec.min spec.max rng_state

  -- `parse_args` behind its test of `argc`. The name of the output file is `none` where the default
  -- is taken.
  pub read_args :
      (num_threads num_repetitions time_interval enq_pattern deq_pattern : Bytes)
      → Option Bytes
      → Parsed Config
  unfolding parse_batch_size_pattern
  read_args a1 a2 a3 a4 a5 filename = do
    threads ← positive (libc.atoi a1) no_threads
    repetitions ← positive (libc.atoi a2) bad_repetitions
    interval ← positive (libc.atoi a3) bad_interval
    enq_specs ← parse_batch_size_pattern a4 threads
    deq_specs ← parse_batch_size_pattern a5 threads
    ok (record {
      num_threads = threads;
      num_repetitions = repetitions;
      time_interval = interval;
      enq_specs = enq_specs;
      deq_specs = deq_specs;
      filename = filename;
    })

  -- The arguments behind the program's name.
  pub parse_args : List Bytes → Parsed Config
  unfolding read_args
  parse_args (a1 ∷ a2 ∷ a3 ∷ a4 ∷ a5 ∷ []) = read_args a1 a2 a3 a4 a5 none
  parse_args (a1 ∷ a2 ∷ a3 ∷ a4 ∷ a5 ∷ a6 ∷ []) = read_args a1 a2 a3 a4 a5 (some a6)
  parse_args _ = die usage
