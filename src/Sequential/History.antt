-- ===== src/Sequential/History.antt =====
-- Sequences of calls of `enq` and `deq` (Ex1.c) against a FIFO list with a count of spare nodes.
use amp_project.Base.{
  ℕ, suc, ◌+◌, ◌-◌, ◌<◌, ◌≡◌, ◌≢◌, refl, sym, ◌∙◌, ap, Bool, true, false, Option, none, some, List,
  [], ◌∷◌, ◌++◌, ◌==◌, ◌&&◌, if◌then◌else◌, arith, length, Bool-cases, inl, inr, not,
}
use amp_project.Heap.{null, Value, Alloc}
use amp_project.Heap.Seg.{Cells}
use amp_project.Sequential.{enq, deq}
use amp_project.Sequential.Memory.{World, ok, Cmd, give, ◌>>=◌}
use amp_project.Sequential.Shape.{Pool, repool, IsQueue, Yields, yields, yielded, bind}
use amp_project.Sequential.Pools.{IsFresh}
use amp_project.Sequential.Operations.{enq-reuse, enq-malloc, enq-no-memory, deq-empty, deq-uncons}

-- A call by thread `tid`; `m` is what `malloc` would hand back during it.
pub data Call : Type 0 where
  enqueue : (m : Alloc) (v : Value) (tid : ℕ) → Call
  dequeue : (tid : ℕ) → Call

pub data Outcome : Type 0 where
  enqueued : Bool → Outcome
  dequeued : Option Value → Outcome

unfoldable pub perform : Call → Cmd Outcome
perform (enqueue m v t) = do r ← enq m v t; give (enqueued r)
perform (dequeue t) = do out ← deq t none; give (dequeued out.0)

pub perform_all : List Call → Cmd (List Outcome)
unfolding perform
perform_all [] = give []
perform_all (c ∷ cs) = do r ← perform c; rs ← perform_all cs; give (r ∷ rs)

-- The values, oldest first, and how many spare nodes each thread has.
pub record Fifo : Type 0 where
  pub items : List Value
  pub spare : ℕ → ℕ

abbrev pub empty : Fifo
empty = record { items = []; spare = λ _. 0 }

abbrev recount : (ℕ → ℕ) → ℕ → ℕ → ℕ → ℕ
recount f t n u = if u == t then n else f u

-- An enqueue fails only if there is no spare node and no memory.
unfoldable pub enqueue_spec : (got_memory : Bool) → Value → ℕ → Fifo → Outcome × Fifo
enqueue_spec got v t s = if s.spare t == 0 && not got then (enqueued false, s) else (
  enqueued true,
  record s { items = s.items ++ v ∷ []; spare = recount s.spare t (s.spare t - 1) },
)

dequeue_items : List Value → ℕ → Fifo → Outcome × Fifo
dequeue_items [] t s = (dequeued none, s)
dequeue_items (x ∷ xs) t s =
    (dequeued (some x), record s { items = xs; spare = recount s.spare t (s.spare t + 1) })

unfoldable pub call_spec : Call → Fifo → Outcome × Fifo
unfolding enqueue_spec dequeue_items
call_spec (enqueue m v t) s = enqueue_spec (not (m.addr == null)) v t s
call_spec (dequeue t) s = dequeue_items s.items t s

unfoldable pub calls_spec : List Call → Fifo → List Outcome
unfolding call_spec
calls_spec [] s = []
calls_spec (c ∷ cs) s = let (r, s') = call_spec c s in r ∷ calls_spec cs s'

-- The thread exists, and `malloc` gives NULL or a block that is not in use.
abbrev pub IsCall : ℕ → World → Call → Type 0
IsCall n w (enqueue m v t) = (t < n) × IsFresh m w
IsCall n w (dequeue t) = t < n

abbrev pub Admissible : ℕ → List Call → World → Type 0
Admissible n [] w = Unit {0}
Admissible n (c ∷ cs) w =
    IsCall n w c × ((r : Outcome) (w' : World) → perform c w ≡ ok r w' → Admissible n cs w')

-- The world stands for the abstract queue.
pub record Refines (n : ℕ) (w : World) (s : Fifo) : Type 0 where
  pub pool : Pool
  pub is : IsQueue w pool s.items
  pub counts : (t : ℕ) → length (pool t) ≡ s.spare t
  pub threads : w.queue.num_threads ≡ n

counts-repool :
    (pool : Pool) (f : ℕ → ℕ) (t k : ℕ) (xs : Cells)
    → ((u : ℕ) → length (pool u) ≡ f u)
    → length xs ≡ k
    → (u : ℕ) → length (repool pool t xs u) ≡ recount f t k u
unfolding repool
counts-repool pool f t k xs h e u = ground (arith, h u)

abbrev pub Steps : ℕ → Outcome × Fifo → Outcome → World → Type 0
Steps n (r, s) r' w' = (r' ≡ r) × Refines n w' s

module _ {n : ℕ} {w : World} {s : Fifo} (ref : Refines n w s) where
  open ref use {pool, is, counts, threads}

  enqueue-Steps :
      (m : Alloc) (v : Value) (t : ℕ)
      → t < n
      → IsFresh m w
      → (c : Cells) → pool t ≡ c
      → Yields (Steps n (enqueue_spec (not (m.addr == null)) v t s)) (perform (enqueue m v t) w)
  unfolding perform enqueue_spec
  enqueue-Steps m v t lt fresh [] e =
      let none_spare : s.spare t ≡ 0 = sym (counts t) ∙ ap length e in
      let zero_spare : (s.spare t == 0) ≡ true = ground arith in
      elim (Bool-cases (m.addr == null)) [
        | inl nul ↦
            let is_null : m.addr ≡ null = ground arith in
            rw (nul, zero_spare, enq-no-memory is m v t (rw threads lt) e is_null)
              (yields (refl, ref))
        | inr got ↦
            let ne : m.addr ≢ null = ground arith in
            rw (got, zero_spare)
              (bind (enq-malloc is m v t (rw threads lt) e ne (fresh ne)) λ r w' (done, same, is').
                yields (
                  rw done refl,
                  record {
                    pool = pool;
                    is = is';
                    counts = λ u. ground (arith, counts u);
                    threads = same ∙ threads;
                  },
                ))
      ]
  enqueue-Steps m v t lt fresh ((p, u) ∷ r) e =
      let some_spare : s.spare t ≡ suc (length r) = sym (counts t) ∙ ap length e in
      let not_zero : (s.spare t == 0) ≡ false = ground arith in
      rw not_zero (
        bind (enq-reuse is m v t (rw threads lt) e) λ d w' (done, same, is'). yields (
          rw done refl,
          record {
            pool = repool pool t r;
            is = is';
            counts = counts-repool pool s.spare t (s.spare t - 1) r counts (omega arith);
            threads = same ∙ threads;
          },
        ))

  dequeue-Steps :
      (t : ℕ)
      → t < n
      → (xs : List Value) → s.items ≡ xs
      → Yields (Steps n (dequeue_items xs t s)) (perform (dequeue t) w)
  unfolding perform dequeue_items
  dequeue-Steps t lt [] e =
      let is_empty : IsQueue w pool [] = rw e at is in
      rw (deq-empty none t is_empty) (yields (refl, ref))
  dequeue-Steps t lt (x ∷ xs) e =
      let is_full : IsQueue w pool (x ∷ xs) = rw e at is in
      bind (deq-uncons none t is_full (rw threads lt)) λ out w' (got, same, (u, is')). yields (
        rw got refl,
        record {
          pool = repool pool t ((w.queue.head, u) ∷ pool t);
          is = is';
          counts =
              counts-repool pool s.spare t (s.spare t + 1) ((w.queue.head, u) ∷ pool t) counts
                (omega (arith, counts t));
          threads = same ∙ threads;
        },
      )

  pub perform-Steps : (c : Call) → IsCall n w c → Yields (Steps n (call_spec c s)) (perform c w)
  unfolding call_spec
  perform-Steps (enqueue m v t) (lt, fresh) = enqueue-Steps m v t lt fresh (pool t) refl
  perform-Steps (dequeue t) lt = dequeue-Steps t lt s.items refl

-- Every sequence of calls returns, without a fault, and its results are those of the FIFO.
pub perform_all-calls_spec :
    {n : ℕ} (cs : List Call) {w : World} {s : Fifo}
    → Refines n w s
    → Admissible n cs w
    → Yields (λ rs _. rs ≡ calls_spec cs s) (perform_all cs w)
unfolding perform_all calls_spec
perform_all-calls_spec [] ref adm = yields refl
perform_all-calls_spec (c ∷ cs) ref (ok_c, next) =
    let (r, w', e, (same, ref')) = yielded (perform-Steps ref c ok_c) in
    rw e (
      bind (perform_all-calls_spec cs ref' (next r w' e))
        λ rs w'' rest. yields (rw (same, rest) refl))
