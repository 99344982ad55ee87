-- ===== src/Bench/Values.antt =====
-- The values of the threads are distinct, and the check adds up what was enqueued.
use amp_project.Base.{
  ℕ, zero, suc, ◌+◌, ◌*◌, ◌%◌, ◌^◌, ◌<◌, ◌≡◌, ◌∙◌, ap, List, [], ◌∷◌, arith, dec_lt,
}
use native.Mathlib.Nat.{zero-add}
use amp_project.Bench.{value_of, widen, expect_thread, expect_all}
use amp_project.Bench.Counts.{values_from}

below : (n i j t u : ℕ) → t < n → i < j → i * n + t < j * n + u
below n i j t u lt less = grind arith

-- While they fit an `int` pattern, values of different threads or rounds differ.
pub value_of-injective :
    (n i j t u : ℕ)
    → t < n
    → u < n
    → i * n + t < 2 ^ 32
    → j * n + u < 2 ^ 32
    → value_of n t i ≡ value_of n u j
    → (i ≡ j) × (t ≡ u)
unfolding value_of
value_of-injective n i j t u lt lu small small' e =
    let same : i * n + t ≡ j * n + u = omega arith in
    elim (dec_lt i j) [
      | yes less ↦ absurd (omega (arith, below n i j t u lt less))
      | no ge ↦ elim (dec_lt j i) [
        | yes more ↦ absurd (omega (arith, below n j i u t lu more))
        | no le ↦
            let rounds : i ≡ j = omega arith in (rounds, omega (arith, ap (λ k. k * n) rounds))
      ]
    ]

abbrev pub sum_widened : List ℕ → ℕ
sum_widened [] = 0
sum_widened (v ∷ vs) = widen v + sum_widened vs

widen-value_of : (n tid i : ℕ) → i * n + tid < 2 ^ 31 → widen (value_of n tid i) ≡ i * n + tid
unfolding widen value_of
widen-value_of n tid i small =
    let whole : (i * n + tid) % 2 ^ 32 ≡ i * n + tid = omega arith in rw whole (ground arith)

-- The sum that the check expects of one thread is that of the values it enqueued.
pub expect_thread-sum :
    (n tid k i start : ℕ)
    → (i + k) * n + tid < 2 ^ 31
    → start < 2 ^ 64
    → expect_thread n tid k i start ≡ (start + sum_widened (values_from n tid i k)) % 2 ^ 64
unfolding expect_thread
expect_thread-sum n tid zero i start small lt = omega arith
expect_thread-sum n tid (suc k) i start small lt =
    let fits : i * n + tid < 2 ^ 31 = grind arith in
    let later : (i + 1 + k) * n + tid < 2 ^ 31 = grind arith in
    expect_thread-sum n tid k (i + 1) _ later (omega arith)
    ∙ omega (arith, widen-value_of n tid i fits)

-- What the threads from `tid` on enqueued, given how many values each did.
abbrev pub sent_sum : (n tid : ℕ) → List ℕ → ℕ
sent_sum n tid [] = 0
sent_sum n tid (c ∷ cs) = sum_widened (values_from n tid 0 c) + sent_sum n (tid + 1) cs

-- The largest value of each thread fits an `int`.
abbrev pub AllFit : (n tid : ℕ) → List ℕ → Type 0
AllFit n tid [] = Unit {0}
AllFit n tid (c ∷ cs) = (c * n + tid < 2 ^ 31) × AllFit n (tid + 1) cs

-- The check expects the sum, modulo 2 ^ 64, of all values that were enqueued.
pub expect_all-sum :
    (n tid : ℕ) (counts : List ℕ) (start : ℕ)
    → AllFit n tid counts
    → start < 2 ^ 64
    → expect_all n tid counts start ≡ (start + sent_sum n tid counts) % 2 ^ 64
unfolding expect_all
expect_all-sum n tid [] start fit lt = omega arith
expect_all-sum n tid (c ∷ cs) start fit lt =
    let from_zero : (0 + c) * n + tid < 2 ^ 31 = rw zero-add fit.0 in
    let one = expect_thread-sum n tid c 0 start from_zero lt in
    expect_all-sum n (tid + 1) cs _ fit.1 (omega (arith, one)) ∙ omega (arith, one)
