-- ===== src/Threads.antt =====
-- What the concurrent queues share: the locks of OpenMP, the threads' places, and the events at which
-- calls take effect.
use amp_project.Base.{
  ℕ_discrete, Bool-cases, inl, inr, fun_ext, subst, sym, ℕ, ◌≡◌, ◌≢◌, refl, arith, Bool, true,
  false, Option, none, some, List, [], ◌∷◌, ◌++◌, ◌==◌, if◌then◌else◌,
}
use amp_project.Heap.{Value}

-- `omp_lock_t`: before `omp_init_lock` and after `omp_destroy_lock`, free, or set by a thread.
pub data OmpLock : Type 0 where
  raw unlocked : OmpLock
  locked_by : ℕ → OmpLock

-- What a step of one thread does: undefined behaviour, waiting for a lock, or the next state.
pub data Outcome (S : Type 0) : Type 0 where
  broken blocked : Outcome S
  moved : S → Outcome S

-- `omp_set_lock` by thread `t`; `k` gets the lock as it is then.
abbrev pub set_lock : {S : Type 0} → ℕ → OmpLock → (OmpLock → S) → Outcome S
set_lock t raw k = broken
set_lock t unlocked k = moved (k (locked_by t))
set_lock t (locked_by u) k = if u == t then broken else blocked

-- `omp_unset_lock` by thread `t`, which must have set the lock.
abbrev pub unset_lock : {S : Type 0} → ℕ → OmpLock → (OmpLock → S) → Outcome S
unset_lock t raw k = broken
unset_lock t unlocked k = broken
unset_lock t (locked_by u) k = if u == t then moved (k unlocked) else broken

-- One entry of a family by thread is changed.
unfoldable pub update {ℓ} : {A : Type ℓ} → (ℕ → A) → ℕ → A → ℕ → A
update f t a u = if u == t then a else f u

pub update_self {ℓ} : {A : Type ℓ} (f : ℕ → A) (t : ℕ) (a : A) → update f t a t ≡ a
unfolding update
update_self f t a = ground arith

pub update_ne {ℓ} : {A : Type ℓ} (f : ℕ → A) (t u : ℕ) (a : A) → u ≢ t → update f t a u ≡ f u
unfolding update
update_ne f t u a ne = ground arith

-- What holds of the new entry and of all others holds of the family.
pub update_twice {ℓ} :
    {A : Type ℓ} (f : ℕ → A) (t : ℕ) (a b : A) → update (update f t a) t b ≡ update f t b
unfolding update
update_twice f t a b =
    fun_ext λ u. elim (Bool-cases (u == t)) [ inl e ↦ rw e refl | inr e ↦ rw e refl ]

pub update-each {ℓ κ} :
    {A : Type ℓ} (P : ℕ → A → Type κ) (f : ℕ → A) (t : ℕ) (a : A)
    → P t a
    → ((u : ℕ) → u ≢ t → P u (f u))
    → (u : ℕ) → P u (update f t a u)
update-each P f t a new old u = elim (ℕ_discrete t u) [
  | yes e ↦ subst (λ k. P k (update f t a k)) e (rw (update_self f t a) new)
  | no ne ↦ let ne' : u ≢ t = λ e. ne (sym e) in rw (update_ne f t u a ne') (old u ne')
]

-- The effects of calls on the queue: a value is appended, the oldest is taken, the queue is found
-- empty. Specification only, the program keeps no such log.
pub data Event : Type 0 where
  put took : (thread : ℕ) → Value → Event
  missed : (thread : ℕ) → Event

unfoldable pub take_oldest : Value → List Value → Option (List Value)
take_oldest v [] = none
take_oldest v (x ∷ xs) = if x == v then some xs else none

-- What an event does to a FIFO list; `none` if it cannot happen there.
unfoldable pub apply : Event → List Value → Option (List Value)
unfolding take_oldest
apply (put t v) xs = some (xs ++ v ∷ [])
apply (took t v) xs = take_oldest v xs
apply (missed t) [] = some []
apply (missed t) (x ∷ xs) = none

unfoldable pub apply_after : Event → Option (List Value) → Option (List Value)
apply_after e none = none
apply_after e (some xs) = apply e xs

-- The FIFO list after a log, whose latest event stands first.
unfoldable pub replay : List Event → Option (List Value)
unfolding apply apply_after
replay [] = some []
replay (e ∷ log) = apply_after e (replay log)

-- Lock `l` is set by the one thread whose place is within `inside`, and free if there is none.
pub record Guarded {P : Type 0} (inside : P → Bool) (l : OmpLock) (threads : ℕ → P) : Type 0 where
  pub holder : (t : ℕ) → inside (threads t) ≡ true → l ≡ locked_by t
  pub within : (t : ℕ) → l ≡ locked_by t → inside (threads t) ≡ true
  pub usable : l ≢ raw

module _ {P : Type 0} {inside : P → Bool} {l : OmpLock} {threads : ℕ → P}
    (g : Guarded inside l threads) (t : ℕ) (pc : P) where
  pub Guarded-keep : inside pc ≡ inside (threads t) → Guarded inside l (update threads t pc)
  unfolding update
  Guarded-keep e = record {
    holder = λ u i. g.holder u (ground arith);
    within = λ u h. ground (arith, g.within u h);
    usable = g.usable;
  }

  pub Guarded-take :
      l ≡ unlocked → inside pc ≡ true → Guarded inside (locked_by t) (update threads t pc)
  unfolding update
  Guarded-take free i = record {
    holder = λ u j. ground (arith, g.holder u);
    within = λ u h. ground arith;
    usable = λ e. cc e;
  }

  pub Guarded-drop :
      l ≡ locked_by t → inside pc ≡ false → Guarded inside unlocked (update threads t pc)
  unfolding update
  Guarded-drop mine o = record {
    holder = λ u j. ground (arith, g.holder u);
    within = λ u h. cc h;
    usable = λ e. cc e;
  }

-- A lock is held by one thread.
pub Guarded-one :
    {P : Type 0} {inside : P → Bool} {l : OmpLock} {threads : ℕ → P}
    → Guarded inside l threads
    → (t u : ℕ) → inside (threads t) ≡ true
    → inside (threads u) ≡ true
    → u ≡ t
Guarded-one g t u i j = cc (g.holder t i, g.holder u j)

-- Not undefined behaviour, and if the step is taken, its state satisfies `P`.
abbrev pub Safe : {S : Type 0} → (S → Type 0) → Outcome S → Type 0
Safe P broken = ⊥
Safe P blocked = Unit {0}
Safe P (moved s) = P s

module _ {S : Type 0} (P : S → Type 0) (t : ℕ) where
  pub set_lock-Safe :
      (l : OmpLock) (k : OmpLock → S)
      → l ≢ raw
      → l ≢ locked_by t
      → (l ≡ unlocked → P (k (locked_by t)))
      → Safe P (set_lock t l k)
  set_lock-Safe raw k usable other go = usable refl
  set_lock-Safe unlocked k usable other go = go refl
  set_lock-Safe (locked_by u) k usable other go =
      let ne : (u == t) ≡ false = ground arith in rw ne tt

  pub unset_lock-Safe :
      (l : OmpLock) (k : OmpLock → S) → l ≡ locked_by t → P (k unlocked) → Safe P (unset_lock t l k)
  unset_lock-Safe raw k mine go = cc
  unset_lock-Safe unlocked k mine go = cc
  unset_lock-Safe (locked_by u) k mine go = let e : (u == t) ≡ true = ground arith in rw e go

-- The events `es` lead from the values `xs` to `xs'`.
abbrev pub Follows : List Event → List Value → List Value → Type 0
Follows es xs xs' = (log : List Event) → replay log ≡ some xs → replay (es ++ log) ≡ some xs'
