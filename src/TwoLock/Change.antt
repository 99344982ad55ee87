-- ===== src/TwoLock/Change.antt =====
-- One thread changes the memory of Ex4.c, and the invariant holds for all.
use amp_project.Base.{
  ℕ, ◌<◌, ◌≡◌, ◌≢◌, refl, sym, ◌∙◌, ap, true, false, Bool-cases, Option, none, some, List, [], ◌∷◌,
  ◌++◌, inl, inr,
}
use mathlib.Core.List.{append-nil}
use amp_project.Heap.{Ptr, Value, held_by, Owners}
use amp_project.Heap.Seg.{Cells, values}
use amp_project.Sequential.Memory.{World, Cmd}
use amp_project.Sequential.Shape.{Pool, Yields}
use amp_project.Sequential.Others.{Held, Untouched, Untouched-refl}
use amp_project.Threads.{Follows, unlocked, Guarded-keep, Guarded-one, update, update-each}
use amp_project.TwoLock.{Pc, State, busy, event}
use amp_project.Sequential.Contents.{Layout}
use amp_project.TwoLock.Invariant.{in_enq, in_deq, Place, Place-Kept, Kept, Inv}

abbrev pub goto : State → World → ℕ → Pc → State
goto s w t pc = record s { world = w; threads = update s.threads t pc }

-- Thread `t` went from `pc` to `pc'` without a step on a lock, leaving the memory `w'` and the values
-- `xs'`.
pub record Change {n : ℕ} {s : State} {xs : List Value} (inv : Inv n s xs) (t : ℕ) (pc : Pc)
    (w' : World) (pc' : Pc) (xs' : List Value) : Type 0 where
  pub own : Owners
  pub cells : Cells
  pub end : Ptr
  pub pool : Pool
  pub sentinel : Value
  pub layout : Layout w' own cells end pool
  pub contents : values cells ≡ sentinel ∷ xs'
  pub size : w'.queue.num_threads ≡ s.world.queue.num_threads
  pub place : Place w' own cells end t pc'
  pub active : busy pc ≡ true
  pub same_enq : in_enq pc' ≡ in_enq pc
  pub same_deq : in_deq pc' ≡ in_deq pc
  pub others_own : (u : ℕ) → u ≢ t → (a : Ptr) → Held s.world inv.own u a → own a ≡ held_by u
  pub others_heap :
      (u : ℕ) → u ≢ t → (a : Ptr) → Held s.world inv.own u a → w'.heap a ≡ s.world.heap a
  pub tail : in_enq pc ≡ false → w'.queue.tail ≡ s.world.queue.tail
  pub last : in_enq pc ≡ false → end ≡ inv.end
  pub grown : in_deq pc ≡ false → (more : Cells) × (cells ≡ inv.cells ++ more)

module _ {n : ℕ} {s : State} {xs xs' : List Value} {inv : Inv n s xs} {t : ℕ} {pc pc' : Pc}
    {w' : World} (here : s.threads t ≡ pc) (c : Change inv t pc w' pc' xs') where
  apart_enq : (u : ℕ) → u ≢ t → in_enq (s.threads u) ≡ true → in_enq pc ≡ false
  apart_enq u ne i = elim (Bool-cases (in_enq pc)) [
    | inl j ↦ absurd (ne (Guarded-one inv.enq_guard t u (rw here j) i))
    | inr o ↦ o
  ]

  apart_deq : (u : ℕ) → u ≢ t → in_deq (s.threads u) ≡ true → in_deq pc ≡ false
  apart_deq u ne i = elim (Bool-cases (in_deq pc)) [
    | inl j ↦ absurd (ne (Guarded-one inv.deq_guard t u (rw here j) i))
    | inr o ↦ o
  ]

  others :
      (u : ℕ)
      → u ≢ t
      → Kept s.world w' inv.own c.own inv.cells c.cells inv.end c.end u (s.threads u)
  others u ne = record {
    owner = c.others_own u ne;
    cell = c.others_heap u ne;
    tail = λ i. c.tail (apart_enq u ne i);
    last = λ i. c.last (apart_enq u ne i);
    grown = λ i. c.grown (apart_deq u ne i);
  }

  next-Place : (u : ℕ) → Place w' c.own c.cells c.end u (update s.threads t pc' u)
  next-Place =
      update-each (λ u p. Place w' c.own c.cells c.end u p) s.threads t pc' c.place
        (λ u ne. Place-Kept (s.threads u) (others u ne) (inv.places u))

  next_known : (u : ℕ) → busy (update s.threads t pc' u) ≡ true → u < n
  next_known =
      update-each (λ u p. busy p ≡ true → u < n) s.threads t pc'
        (λ _. inv.known t (rw here c.active)) (λ u ne. inv.known u)

  next_at_end : s.enq_lock ≡ unlocked → w'.queue.tail ≡ c.end
  next_at_end free = elim (Bool-cases (in_enq pc)) [
    | inl j ↦ absurd (let held = inv.enq_guard.holder t (rw here j) in cc (held, free))
    | inr o ↦ c.tail o ∙ inv.at_end free ∙ sym (c.last o)
  ]

  pub Change-Inv : Inv n (goto s w' t pc') xs'
  Change-Inv = record {
    own = c.own;
    cells = c.cells;
    end = c.end;
    pool = c.pool;
    sentinel = c.sentinel;
    layout = c.layout;
    contents = c.contents;
    size = c.size ∙ inv.size;
    known = next_known;
    places = next-Place;
    enq_guard = Guarded-keep inv.enq_guard t pc' (c.same_enq ∙ ap in_enq (sym here));
    deq_guard = Guarded-keep inv.deq_guard t pc' (c.same_deq ∙ ap in_deq (sym here));
    at_end = next_at_end;
  }

-- The step goes from `pc` to `pc'`, leaves `w'`, and has the effect that its event says.
abbrev pub Advanced : ℕ → State → List Value → ℕ → Pc → Pc → World → Type 0
Advanced n s xs t pc pc' w' =
    (xs' : List Value) × Follows (event t pc pc') xs xs' × Inv n (goto s w' t pc') xs'

-- What a place's step on the memory does, if it has one.
abbrev pub Accessed : ℕ → State → List Value → ℕ → Pc → Option (Cmd Pc) → Type 0
Accessed n s xs t pc none = Unit {0}
Accessed n s xs t pc (some c) = Yields (Advanced n s xs t pc) (c s.world)

-- A step that leaves the nodes of the queue, and `Q->tail` unless it has that lock.
pub silent-Advanced :
    {n : ℕ} {s : State} {xs : List Value} (inv : Inv n s xs) (t : ℕ) {pc : Pc} (pc' : Pc)
    {w' : World} {own' : Owners} {pool' : Pool}
    → s.threads t ≡ pc
    → busy pc ≡ true
    → Follows (event t pc pc') xs xs
    → in_enq pc' ≡ in_enq pc
    → in_deq pc' ≡ in_deq pc
    → Layout w' own' inv.cells inv.end pool'
    → w'.queue.num_threads ≡ s.world.queue.num_threads
    → (in_enq pc ≡ false → w'.queue.tail ≡ s.world.queue.tail)
    → Untouched t s.world w' inv.own own'
    → Place w' own' inv.cells inv.end t pc'
    → Advanced n s xs t pc pc' w'
silent-Advanced {xs} inv t pc' here active quiet same_enq same_deq layout size tail spares place = (
  xs,
  quiet,
  Change-Inv {inv = inv} here (record {
    own = _;
    cells = inv.cells;
    end = inv.end;
    pool = _;
    sentinel = inv.sentinel;
    layout = layout;
    contents = inv.contents;
    size = size;
    place = place;
    active = active;
    same_enq = same_enq;
    same_deq = same_deq;
    others_own = spares.owner;
    others_heap = spares.cell;
    tail = tail;
    last = λ _. refl;
    grown = λ _. ([], sym (append-nil inv.cells));
  }),
)

module _ {n : ℕ} {s : State} {xs : List Value} (inv : Inv n s xs) (t : ℕ) where
  -- A step that only reads.
  pub stay-Advanced :
      {pc : Pc} (pc' : Pc)
      → s.threads t ≡ pc
      → busy pc ≡ true
      → Follows (event t pc pc') xs xs
      → in_enq pc' ≡ in_enq pc
      → in_deq pc' ≡ in_deq pc
      → Place s.world inv.own inv.cells inv.end t pc'
      → Advanced n s xs t pc pc' s.world
  stay-Advanced pc' here active quiet same_enq same_deq place =
      silent-Advanced inv t pc' here active quiet same_enq same_deq inv.layout refl (λ _. refl)
        (Untouched-refl (λ a. refl)) place
