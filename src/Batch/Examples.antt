-- ===== src/Batch/Examples.antt =====
-- bench.h over a concrete C library: tests, and the theorems at inputs that meet their hypotheses.
use Prim.Native.String.{String}
use Prim.Native.Char.{code}
use amp_project.Base.{
  ℕ, ◌<◌, ◌++◌, true, false, replicate, ◌≡◌, ◌⊎◌, refl, none, some, List, [], ◌∷◌, arith,
}
use amp_project.Batch.{
  skip_ws, BatchSpec, fixed, range, ok, die, wrong_length, min_above_max, parse_batch_size_pattern,
  parse_args, batch_spec_sample, parse_spec, print_batch_spec,
}
use amp_project.Batch.Runtime.{Bytes, int_max, digit_next}
use amp_project.Batch.Concrete.{digits, decimal, libc, libc-StaysInside, libc-ReadsBack}
use amp_project.Batch.Printing.{print_batch_spec-parse}
use amp_project.Batch.Parsing.{Ends, IsSpec}
use amp_project.Batch.Assign.{Described, parse_batch_size_pattern-Described}
use amp_project.Batch.Sampling.{
  Drawn, Overflows, batch_spec_sample-Drawn, batch_spec_sample-Overflows,
}
use amp_project.Batch.Arguments.{IsConfig, parse_args-IsConfig}

abbrev text : String → Bytes
text String.[] = []
text (String.◌∷◌ c s) = code c ∷ text s

abbrev exactly : ℕ → BatchSpec
exactly n = record { kind = fixed; min = n; max = n }

abbrev between : ℕ → ℕ → BatchSpec
between lo hi = record { kind = range; min = lo; max = hi }

repeating :
    parse_batch_size_pattern libc (text " [5, 10,(0,20)] ") 4
    ≡ ok (some (exactly 5 ∷ exactly 10 ∷ between 0 20 ∷ exactly 5 ∷ []))
unfolding parse_batch_size_pattern digits
repeating = refl

explicit :
    parse_batch_size_pattern libc (text "{5,(0,10)}") 2 ≡ ok (some (exactly 5 ∷ between 0 10 ∷ []))
unfolding parse_batch_size_pattern digits
explicit = refl

too_short : parse_batch_size_pattern libc (text "{5,(0,10)}") 3 ≡ die wrong_length
unfolding parse_batch_size_pattern digits
too_short = refl

not_ordered : parse_batch_size_pattern libc (text "(3,2)") 3 ≡ die min_above_max
unfolding parse_batch_size_pattern digits
not_ordered = refl

-- The range that overflows is accepted.
accepts_int_max :
    parse_batch_size_pattern libc (text "(0,2147483647)") 1 ≡ ok (some (between 0 int_max ∷ []))
unfolding parse_batch_size_pattern digits
accepts_int_max = refl

parse_batch_size_pattern-Described_example :
    Ends
      (Described libc 4 (skip_ws libc (text "[5,10,(0,20)]")))
      (parse_batch_size_pattern libc (text "[5,10,(0,20)]") 4)
parse_batch_size_pattern-Described_example =
    parse_batch_size_pattern-Described libc libc-StaysInside (text "[5,10,(0,20)]") 4

abbrev command_line : List Bytes
command_line = text "2" ∷ text "3" ∷ text "1" ∷ text "7" ∷ text "(0,9)" ∷ []

parse_args-IsConfig_example : Ends IsConfig (parse_args libc command_line)
parse_args-IsConfig_example = parse_args-IsConfig libc libc-StaysInside command_line

between-IsSpec : IsSpec (between 3 9)
between-IsSpec = record { ordered = omega arith; bounded = omega arith; one_size = λ e. cc e }

batch_spec_sample-Drawn_example :
    Drawn 3 9 (batch_spec_sample libc (between 3 9) 40)
    ⊎ ((batch_spec_sample libc (between 3 9) 40 ≡ none) × Overflows (between 3 9))
batch_spec_sample-Drawn_example = batch_spec_sample-Drawn libc (between 3 9) 40 between-IsSpec

batch_spec_sample-Overflows_example : batch_spec_sample libc (between 0 int_max) 5 ≡ none
batch_spec_sample-Overflows_example =
    batch_spec_sample-Overflows libc (between 0 int_max) 5 (refl, refl, refl)

printed : print_batch_spec decimal (some (between 3 120)) ≡ text "(3,120)"
unfolding print_batch_spec decimal
printed = refl

print_batch_spec-parse_example :
    ((rest : Bytes)
      → digit_next rest ≡ false
      → parse_spec libc (print_batch_spec decimal (some (between 3 9)) ++ rest)
        ≡ ok (between 3 9, rest))
    × ((n : ℕ)
        → 0 < n
        → libc.allocates n ≡ true
        → parse_batch_size_pattern libc (print_batch_spec decimal (some (between 3 9))) n
          ≡ ok (some (replicate n (between 3 9))))
print_batch_spec-parse_example =
    print_batch_spec-parse libc decimal libc-ReadsBack (between 3 9) between-IsSpec
