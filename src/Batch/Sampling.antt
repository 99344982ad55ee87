-- ===== src/Batch/Sampling.antt =====
-- `batch_spec_sample` of bench.h: what it draws, and where it overflows.
use amp_project.Base.{
  ℕ, ◌+◌, ◌-◌, ◌%◌, ◌≤◌, ◌<◌, ◌≡◌, refl, ap, ◌⊎◌, false, Option, none, some, ltb, ◌==◌, arith,
  Bool-cases, inl, inr,
}
use amp_project.Batch.{
  BatchSpec, BatchSpecKind, fixed, range, sample_range, sample_kind, batch_spec_sample,
}
use amp_project.Batch.Runtime.{Libc, int_max}
use amp_project.Batch.Parsing.{IsSpec}
use native.Mathlib.Nat.{mod-lt, mod-eq_of_lt}

-- The overflow of `hi - lo + 1`.
abbrev pub Overflows : BatchSpec → Type 0
Overflows e = (e.kind ≡ range) × (e.min ≡ 0) × (e.max ≡ int_max)

-- A draw within the bounds.
pub record Drawn (lo hi : ℕ) (out : Option (ℕ × ℕ)) : Type 0 where
  pub size : ℕ
  pub state : ℕ
  pub is : out ≡ some (size, state)
  pub at_least : lo ≤ size
  pub at_most : size ≤ hi

module _ (libc : Libc) where
  sample_range-Drawn :
      (lo hi state : ℕ)
      → lo ≤ hi
      → hi ≤ int_max
      → Drawn lo hi (sample_range libc lo hi state)
        ⊎ ((sample_range libc lo hi state ≡ none) × (lo ≡ 0) × (hi ≡ int_max))
  unfolding sample_range
  sample_range-Drawn lo hi state le small =
      let draw = libc.rand_r state in
      elim (Bool-cases (lo == hi)) [
        | inl one_size ↦ rw one_size (
            inl (record {
              size = lo;
              state = state;
              is = refl;
              at_least = omega arith;
              at_most = le;
            }))
        | inr more ↦ rw more (elim (Bool-cases (ltb int_max (hi - lo + 1))) [
          | inl big ↦ rw big (inr (refl, ground arith, ground arith))
          | inr fits ↦ rw fits (
              inl (record {
                size = lo + draw.0 % (hi - lo + 1);
                state = draw.1;
                is = refl;
                at_least = omega arith;
                at_most = omega (arith, mod-lt draw.0 {m = hi - lo + 1} (omega arith));
              }))
        ])
      ]

  sample_kind-Drawn :
      (kind : BatchSpecKind) (lo hi state : ℕ)
      → lo ≤ hi
      → hi ≤ int_max
      → Drawn lo hi (sample_kind libc kind lo hi state)
        ⊎ ((sample_kind libc kind lo hi state ≡ none) × (kind ≡ range) × (lo ≡ 0) × (hi ≡ int_max))
  unfolding sample_kind
  sample_kind-Drawn fixed lo hi state le small =
      inl (record { size = lo; state = state; is = refl; at_least = omega arith; at_most = le })
  sample_kind-Drawn range lo hi state le small = elim (sample_range-Drawn lo hi state le small) [
    | inl drawn ↦ inl drawn
    | inr (over, at_zero, at_max) ↦ inr (over, refl, at_zero, at_max)
  ]

  -- A draw from a spec that the parser accepts lies within its bounds, but for the range from 0 to
  -- INT32_MAX, where the computation of its span overflows.
  pub batch_spec_sample-Drawn :
      (e : BatchSpec) (state : ℕ)
      → IsSpec e
      → Drawn e.min e.max (batch_spec_sample libc e state)
        ⊎ ((batch_spec_sample libc e state ≡ none) × Overflows e)
  unfolding batch_spec_sample
  batch_spec_sample-Drawn e state is =
      elim (sample_kind-Drawn e.kind e.min e.max state is.ordered is.bounded) [
        | inl drawn ↦ inl drawn
        | inr (over, kind, at_zero, at_max) ↦ inr (over, (kind, at_zero, at_max))
      ]

  -- Every range from 0 to INT32_MAX overflows, whatever the state.
  pub batch_spec_sample-Overflows :
      (e : BatchSpec) (state : ℕ) → Overflows e → batch_spec_sample libc e state ≡ none
  unfolding batch_spec_sample
  batch_spec_sample-Overflows e state over = rw (over.0, over.1, over.2) refl

  -- No size of a range is left out: where `rand_r` gives its distance from the lower bound, it is
  -- drawn.
  pub batch_spec_sample-onto :
      (e : BatchSpec) (state size : ℕ)
      → e.kind ≡ range
      → e.min < e.max
      → e.max < int_max
      → e.min ≤ size
      → size ≤ e.max
      → (libc.rand_r state).0 ≡ size - e.min
      → batch_spec_sample libc e state ≡ some (size, (libc.rand_r state).1)
  unfolding batch_spec_sample
  batch_spec_sample-onto e state size kind lt small lo hi draw =
      let differ : (e.min == e.max) ≡ false = ground arith in
      let fits : ltb int_max (e.max - e.min + 1) ≡ false = ground arith in
      let exact : e.min + (libc.rand_r state).0 % (e.max - e.min + 1) ≡ size = omega (
        arith,
        draw,
        mod-eq_of_lt {n = (libc.rand_r state).0} {m = e.max - e.min + 1} (omega (arith, draw)),
      ) in
      rw kind (rw (differ, fits) (ap (λ n. some (n, (libc.rand_r state).1)) exact))
