-- ===== src/TwoLock/Invariant.antt =====
-- What holds between any two steps of the threads of Ex4.c.
use amp_project.Base.{ℕ, ◌<◌, ◌≡◌, refl, sym, ◌∙◌, ap, Bool, true, false, some, List, ◌∷◌, ◌++◌}
use amp_project.Heap.{Ptr, null, Value, node, held_by, Owners}
use amp_project.Heap.Seg.{Cells, values}
use amp_project.Sequential.Memory.{World}
use amp_project.Sequential.Shape.{Pool}
use amp_project.Sequential.Contents.{Layout}
use amp_project.Sequential.Others.{Held}
use amp_project.Threads.{unlocked, Guarded}
use amp_project.TwoLock.{
  Pc, enq_alloc, enq_fill, enq_link, enq_move, enq_unlock, deq_read, deq_load, deq_pop, deq_test,
  deq_wait, deq_retail, deq_release, deq_recycle, deq_unlock, State, busy,
}

-- the places between setting and unsetting a lock
abbrev pub in_enq : Pc → Bool
in_enq (enq_alloc v) = true
in_enq (enq_fill v n) = true
in_enq (enq_link v n) = true
in_enq (enq_move n) = true
in_enq (enq_unlock r) = true
in_enq (deq_retail c s v) = true
in_enq (deq_release c s v) = true
in_enq _ = false

abbrev pub in_deq : Pc → Bool
in_deq (deq_read c) = true
in_deq (deq_load c s n) = true
in_deq (deq_pop c s n v) = true
in_deq (deq_test c s v) = true
in_deq (deq_wait c s v) = true
in_deq (deq_retail c s v) = true
in_deq (deq_release c s v) = true
in_deq (deq_recycle c s v) = true
in_deq (deq_unlock c r) = true
in_deq _ = false

-- The queue begins with the nodes `s` and `n`, and `n` has the value `v`.
pub record Begins (cells : Cells) (s n : Ptr) (v : Value) : Type 0 where
  pub dummy : Value
  pub behind : Cells
  pub is : cells ≡ (s, dummy) ∷ (n, v) ∷ behind

-- What thread `t` relies on at a place.
abbrev pub Place : World → Owners → Cells → Ptr → ℕ → Pc → Type 0
Place w own cells end t (enq_alloc v) = w.queue.tail ≡ end
Place w own cells end t (enq_fill v n) = (w.queue.tail ≡ end) × Held w own t n
Place w own cells end t (enq_link v n) =
    (w.queue.tail ≡ end) × Held w own t n × (w.heap n ≡ some (node v null))
Place w own cells end t (enq_move n) = n ≡ end
Place w own cells end t (enq_unlock r) = w.queue.tail ≡ end
Place w own cells end t (deq_load c s n) = (v : Value) × Begins cells s n v
Place w own cells end t (deq_pop c s n v) = Begins cells s n v
Place w own cells end t (deq_test c s v) = Held w own t s
Place w own cells end t (deq_wait c s v) = Held w own t s
Place w own cells end t (deq_retail c s v) = (w.queue.tail ≡ end) × Held w own t s
Place w own cells end t (deq_release c s v) = (w.queue.tail ≡ end) × Held w own t s
Place w own cells end t (deq_recycle c s v) = Held w own t s
Place w own cells end t _ = Unit {0}

-- The state of `n` threads whose queue holds the values `xs`, oldest first.
pub record Inv (n : ℕ) (s : State) (xs : List Value) : Type 0 where
  pub own : Owners
  pub cells : Cells
  pub end : Ptr
  pub pool : Pool
  pub sentinel : Value
  pub layout : Layout s.world own cells end pool
  pub contents : values cells ≡ sentinel ∷ xs
  pub size : s.world.queue.num_threads ≡ n
  pub known : (t : ℕ) → busy (s.threads t) ≡ true → t < n
  pub places : (t : ℕ) → Place s.world own cells end t (s.threads t)
  pub enq_guard : Guarded in_enq s.enq_lock s.threads
  pub deq_guard : Guarded in_deq s.deq_lock s.threads
  pub at_end : s.enq_lock ≡ unlocked → s.world.queue.tail ≡ end

-- What a step leaves to thread `u`: its nodes, `Q->tail` if `u` has that lock, and the front of the
-- queue if `u` has the other.
pub record Kept (w w' : World) (own own' : Owners) (cells cells' : Cells) (end end' : Ptr) (u : ℕ)
    (p : Pc) : Type 0 where
  pub owner : (a : Ptr) → Held w own u a → own' a ≡ held_by u
  pub cell : (a : Ptr) → Held w own u a → w'.heap a ≡ w.heap a
  pub tail : in_enq p ≡ true → w'.queue.tail ≡ w.queue.tail
  pub last : in_enq p ≡ true → end' ≡ end
  pub grown : in_deq p ≡ true → (more : Cells) × (cells' ≡ cells ++ more)

module _ {w w' : World} {own own' : Owners} {cells cells' : Cells} {end end' : Ptr} {u : ℕ} where
  Held-Kept :
      {p : Pc}
      → Kept w w' own own' cells cells' end end' u p
      → (a : Ptr) → Held w own u a
      → Held w' own' u a
  Held-Kept k a h = record {
    ne_null = h.ne_null;
    mine = k.owner a h;
    content = h.content;
    holds = k.cell a h ∙ h.holds;
  }

  Begins-Kept :
      {p : Pc}
      → Kept w w' own own' cells cells' end end' u p
      → in_deq p ≡ true
      → (s n : Ptr) (v : Value) → Begins cells s n v
      → Begins cells' s n v
  Begins-Kept k i s n v b =
      let (more, e) = k.grown i in
      record { dummy = b.dummy; behind = b.behind ++ more; is = e ∙ ap (λ c. c ++ more) b.is }

  tail-Kept :
      {p : Pc}
      → Kept w w' own own' cells cells' end end' u p
      → in_enq p ≡ true
      → w.queue.tail ≡ end
      → w'.queue.tail ≡ end'
  tail-Kept k i e = k.tail i ∙ e ∙ sym (k.last i)

  pub Place-Kept :
      (p : Pc)
      → Kept w w' own own' cells cells' end end' u p
      → Place w own cells end u p
      → Place w' own' cells' end' u p
  Place-Kept (enq_alloc v) k e = tail-Kept k refl e
  Place-Kept (enq_fill v n) k (e, h) = (tail-Kept k refl e, Held-Kept k n h)
  Place-Kept (enq_link v n) k (e, h, at) = (tail-Kept k refl e, Held-Kept k n h, k.cell n h ∙ at)
  Place-Kept (enq_move n) k e = e ∙ sym (k.last refl)
  Place-Kept (enq_unlock r) k e = tail-Kept k refl e
  Place-Kept (deq_load c s n) k (v, b) = (v, Begins-Kept k refl s n v b)
  Place-Kept (deq_pop c s n v) k b = Begins-Kept k refl s n v b
  Place-Kept (deq_test c s v) k h = Held-Kept k s h
  Place-Kept (deq_wait c s v) k h = Held-Kept k s h
  Place-Kept (deq_retail c s v) k (e, h) = (tail-Kept k refl e, Held-Kept k s h)
  Place-Kept (deq_release c s v) k (e, h) = (tail-Kept k refl e, Held-Kept k s h)
  Place-Kept (deq_recycle c s v) k h = Held-Kept k s h
  Place-Kept _ k h = tt
