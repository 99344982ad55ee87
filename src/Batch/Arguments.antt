-- ===== src/Batch/Arguments.antt =====
-- `parse_args` of bench.h: what a configuration that is accepted guarantees.
use amp_project.Base.{ℕ, zero, suc, ◌<◌, Option, none, some, List, [], ◌∷◌, arith}
use amp_project.Batch.{
  Config, Reason, positive, read_args, parse_args, parse_batch_size_pattern, no_threads,
  bad_repetitions, bad_interval,
}
use amp_project.Batch.Runtime.{Bytes, Libc, ℤ, pos, negsuc, StaysInside}
use amp_project.Batch.Parsing.{Ends, ended, died}
use amp_project.Batch.Listing.{bind-Ends, Ends-weaken}
use amp_project.Batch.Assign.{Assigned, parse_batch_size_pattern-Described}

-- All numbers are positive, and each thread has a spec for either kind of batch.
pub record IsConfig (c : Config) : Type 0 where
  pub threads : 0 < c.num_threads
  pub repetitions : 0 < c.num_repetitions
  pub interval : 0 < c.time_interval
  pub enq : Assigned c.num_threads c.enq_specs
  pub deq : Assigned c.num_threads c.deq_specs

positive-lt : (n : ℤ) (r : Reason) → Ends (λ k. 0 < k) (positive n r)
unfolding positive
positive-lt (pos zero) r = died
positive-lt (pos (suc n)) r = ended (omega arith)
positive-lt (negsuc n) r = died

module _ (libc : Libc) (inside : StaysInside libc) where
  usable : (s : Bytes) (n : ℕ) → Ends (Assigned n) (parse_batch_size_pattern libc s n)
  usable s n = Ends-weaken (parse_batch_size_pattern-Described libc inside s n) λ out d. d.assigned

  read_args-IsConfig :
      (a1 a2 a3 a4 a5 : Bytes) (filename : Option Bytes)
      → Ends IsConfig (read_args libc a1 a2 a3 a4 a5 filename)
  unfolding read_args
  read_args-IsConfig a1 a2 a3 a4 a5 filename =
      bind-Ends _ (positive-lt (libc.atoi a1) no_threads) λ threads t.
        bind-Ends _ (positive-lt (libc.atoi a2) bad_repetitions) λ repetitions r.
          bind-Ends _ (positive-lt (libc.atoi a3) bad_interval) λ interval i.
            bind-Ends _ (usable a4 threads) λ enq_specs e.
              bind-Ends _ (usable a5 threads) λ deq_specs d.
                ended (record { threads = t; repetitions = r; interval = i; enq = e; deq = d })

  -- The program ends with a message, or has a configuration that it can run.
  pub parse_args-IsConfig : (argv : List Bytes) → Ends IsConfig (parse_args libc argv)
  unfolding parse_args
  parse_args-IsConfig (a1 ∷ a2 ∷ a3 ∷ a4 ∷ a5 ∷ []) = read_args-IsConfig a1 a2 a3 a4 a5 none
  parse_args-IsConfig (a1 ∷ a2 ∷ a3 ∷ a4 ∷ a5 ∷ a6 ∷ []) =
      read_args-IsConfig a1 a2 a3 a4 a5 (some a6)
  parse_args-IsConfig _ = died
