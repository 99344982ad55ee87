-- ===== src/Bench/Balance.antt =====
-- Sums over a log of the queue: what went in is what came out and what is left.
use amp_project.Base.{
  ℕ, zero, suc, ◌+◌, ◌≤◌, ◌<◌, ◌≡◌, refl, ◌∙◌, ap, some, List, [], ◌∷◌, ◌++◌, ◌==◌, if◌then◌else◌,
  arith, Option-cases, Bool-cases, inl, inr,
}
use amp_project.Heap.{Value}
use amp_project.Threads.{Event, put, took, missed, take_oldest, apply, apply_after, replay}
use amp_project.Bench.{widen}
use amp_project.Bench.Values.{sum_widened}

-- The sums of the values that thread `u` enqueued, and of those it dequeued.
abbrev pub added_by : ℕ → List Event → ℕ
added_by u [] = 0
added_by u (put t v ∷ log) = (if t == u then widen v else 0) + added_by u log
added_by u (took t v ∷ log) = added_by u log
added_by u (missed t ∷ log) = added_by u log

abbrev pub removed_by : ℕ → List Event → ℕ
removed_by u [] = 0
removed_by u (put t v ∷ log) = removed_by u log
removed_by u (took t v ∷ log) = (if t == u then widen v else 0) + removed_by u log
removed_by u (missed t ∷ log) = removed_by u log

-- The same of all threads.
abbrev pub added : List Event → ℕ
added [] = 0
added (put t v ∷ log) = widen v + added log
added (took t v ∷ log) = added log
added (missed t ∷ log) = added log

abbrev pub removed : List Event → ℕ
removed [] = 0
removed (put t v ∷ log) = removed log
removed (took t v ∷ log) = widen v + removed log
removed (missed t ∷ log) = removed log

-- What thread `u` enqueued, oldest first.
abbrev pub puts_by : ℕ → List Event → List Value
puts_by u [] = []
puts_by u (put t v ∷ log) = if t == u then puts_by u log ++ v ∷ [] else puts_by u log
puts_by u (took t v ∷ log) = puts_by u log
puts_by u (missed t ∷ log) = puts_by u log

-- Every event is of a thread below `n`.
abbrev pub AreBelow : ℕ → List Event → Type 0
AreBelow n [] = Unit {0}
AreBelow n (put t v ∷ log) = (t < n) × AreBelow n log
AreBelow n (took t v ∷ log) = (t < n) × AreBelow n log
AreBelow n (missed t ∷ log) = (t < n) × AreBelow n log

pub sum_widened-concat :
    (xs : List ℕ) (v : ℕ) → sum_widened (xs ++ v ∷ []) ≡ sum_widened xs + widen v
sum_widened-concat [] v = omega arith
sum_widened-concat (x ∷ xs) v = omega (arith, sum_widened-concat xs v)

pub added_by-puts : (u : ℕ) (log : List Event) → added_by u log ≡ sum_widened (puts_by u log)
added_by-puts u [] = refl
added_by-puts u (put t v ∷ log) = elim (Bool-cases (t == u)) [
  | inl e ↦ rw e (omega (arith, added_by-puts u log, sum_widened-concat (puts_by u log) v))
  | inr ne ↦ rw ne (omega (arith, added_by-puts u log))
]
added_by-puts u (took t v ∷ log) = added_by-puts u log
added_by-puts u (missed t ∷ log) = added_by-puts u log

take_oldest-sum :
    (v : Value) (ys xs : List Value)
    → take_oldest v ys ≡ some xs
    → sum_widened ys ≡ widen v + sum_widened xs
unfolding take_oldest
take_oldest-sum v [] xs e = cc e
take_oldest-sum v (y ∷ ys) xs e = ground (arith, e)

apply-balance :
    (e : Event) (log : List Event) (ys xs : List Value)
    → apply e ys ≡ some xs
    → added log ≡ removed log + sum_widened ys
    → added (e ∷ log) ≡ removed (e ∷ log) + sum_widened xs
unfolding apply
apply-balance (put t v) log ys xs e same =
    let is : ys ++ v ∷ [] ≡ xs = cc e in
    omega (arith, ap sum_widened is, sum_widened-concat ys v, same)
apply-balance (took t v) log ys xs e same = omega (arith, take_oldest-sum v ys xs e, same)
apply-balance (missed t) log [] xs e same =
    let is : [] ≡ xs = cc e in omega (arith, ap sum_widened is, same)
apply-balance (missed t) log (y ∷ ys) xs e same = cc e

pub replay-balance :
    (log : List Event) (xs : List Value)
    → replay log ≡ some xs
    → added log ≡ removed log + sum_widened xs
unfolding replay apply_after
replay-balance [] xs e = let is : [] ≡ xs = cc e in omega (arith, ap sum_widened is)
replay-balance (ev ∷ log) xs e = elim (Option-cases (replay log)) [
  | inl nothing ↦ cc (e, nothing)
  | inr (ys, before) ↦ apply-balance ev log ys xs (rw before at e) (replay-balance log ys before)
]

-- The sum of `f` over `k` threads from `tid` on
abbrev pub across : (ℕ → ℕ) → (tid k : ℕ) → ℕ
across f tid zero = 0
across f tid (suc k) = f tid + across f (tid + 1) k

across-zero : (tid k : ℕ) → across (λ _. 0) tid k ≡ 0
across-zero tid zero = refl
across-zero tid (suc k) = omega (arith, across-zero (tid + 1) k)

across-add :
    (f g : ℕ → ℕ) (tid k : ℕ) → across (λ u. f u + g u) tid k ≡ across f tid k + across g tid k
across-add f g tid zero = refl
across-add f g tid (suc k) = omega (arith, across-add f g (tid + 1) k)

across-before : (t v tid k : ℕ) → t < tid → across (λ u. if t == u then v else 0) tid k ≡ 0
across-before t v tid zero lt = refl
across-before t v tid (suc k) lt = ground (arith, across-before t v (tid + 1) k (omega arith))

across-one :
    (t v tid k : ℕ) → tid ≤ t → t < tid + k → across (λ u. if t == u then v else 0) tid k ≡ v
across-one t v tid zero le lt = omega arith
across-one t v tid (suc k) le lt = elim (Bool-cases (t == tid)) [
  | inl e ↦ rw e (omega (arith, across-before t v (tid + 1) k (ground arith)))
  | inr ne ↦ rw ne (omega (arith, across-one t v (tid + 1) k (ground arith) (omega arith)))
]

across-part :
    (t v k : ℕ) (f : ℕ → ℕ)
    → t < k
    → across (λ u. (if t == u then v else 0) + f u) 0 k ≡ v + across f 0 k
across-part t v k f lt =
    across-add (λ u. if t == u then v else 0) f 0 k
    ∙ ap (λ a. a + across f 0 k) (across-one t v 0 k (omega arith) (omega arith))

pub across-added :
    (n : ℕ) (log : List Event) → AreBelow n log → across (λ u. added_by u log) 0 n ≡ added log
across-added n [] below = across-zero 0 n
across-added n (put t v ∷ log) (lt, below) =
    across-part t (widen v) n (λ u. added_by u log) lt
    ∙ ap (λ a. widen v + a) (across-added n log below)
across-added n (took t v ∷ log) (lt, below) = across-added n log below
across-added n (missed t ∷ log) (lt, below) = across-added n log below

pub across-removed :
    (n : ℕ) (log : List Event) → AreBelow n log → across (λ u. removed_by u log) 0 n ≡ removed log
across-removed n [] below = across-zero 0 n
across-removed n (put t v ∷ log) (lt, below) = across-removed n log below
across-removed n (took t v ∷ log) (lt, below) =
    across-part t (widen v) n (λ u. removed_by u log) lt
    ∙ ap (λ a. widen v + a) (across-removed n log below)
across-removed n (missed t ∷ log) (lt, below) = across-removed n log below
