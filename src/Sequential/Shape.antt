-- ===== src/Sequential/Shape.antt =====
-- The abstract view of a queue in memory: the values in order, and the nodes of each free list.
use amp_project.Base.{
  ℕ, ◌%◌, ◌^◌, ◌<◌, ◌≡◌, ◌≢◌, refl, ap, sym, ◌∙◌, length-set, Option, none, some, List, [], ◌∷◌,
  ◌++◌, ◌==◌, if◌then◌else◌, length, arith, get_elem?, set, get_elem?-lt, get_elem?-set_self,
  get_elem?-set_ne, ◌⊎◌, inl, inr, ℕ_discrete,
}
use amp_project.Heap.{
  Ptr, null, Value, Node, node, Heap, write, Owner, queued, free_of, held_by, Owners, assign,
}
use amp_project.Heap.Seg.{
  Cells, ◌∉◌, first, values, Points, Seg, SameBut, Seg-frame, not-mem_of_owner,
}
use amp_project.Sequential.Memory.{
  FreeList, World, Exec, ok, Cmd, follow, put, load, set_value, set_next, list_at, list_set,
  load_free_list, store_free_list,
}

-- the nodes of each thread's free list
abbrev pub Pool : Type 0
Pool = ℕ → Cells

unfoldable pub repool : Pool → ℕ → Cells → Pool
repool pool tid xs t = if t == tid then xs else pool t

-- Free list `l` of thread `t` holds the nodes `xs`, and counts them.
pub record IsFreeList (h : Heap) (own : Owners) (t : ℕ) (l : FreeList) (xs : Cells) : Type 0 where
  pub chain : Seg h own (free_of t) null xs
  pub head : l.head ≡ first xs null
  pub size : l.size ≡ length xs % 2 ^ 32

-- The nodes of the queue are those of `front`, then the tail with value `last`, which has no
-- successor. Every node has one owner, so no two structures share a node.
pub record Shape (w : World) (own : Owners) (front : Cells) (last : Value) (pool : Pool)
    : Type 0 where
  pub chain : Seg w.heap own queued w.queue.tail front
  pub head : w.queue.head ≡ first front w.queue.tail
  pub back : Points w.heap own queued w.queue.tail last null
  pub apart : w.queue.tail ∉ front
  pub arrays :
      (t : ℕ) → t < w.queue.num_threads → (l : FreeList) × (list_at w.queue.free_lists t ≡ some l)
  pub lists :
      (t : ℕ) (l : FreeList)
      → list_at w.queue.free_lists t ≡ some l
      → IsFreeList w.heap own t l (pool t)

-- The queue holds the values `xs`, oldest first, behind the sentinel, and thread `t`'s free list
-- holds the nodes `pool t`.
pub record IsQueue (w : World) (pool : Pool) (xs : List Value) : Type 0 where
  pub own : Owners
  pub front : Cells
  pub last : Value
  pub sentinel : Value
  pub shape : Shape w own front last pool
  pub contents : values front ++ last ∷ [] ≡ sentinel ∷ xs

-- As `IsQueue`, while thread `t` holds the node `p`, which is part of no list.
pub record Holding (t : ℕ) (p : Ptr) (w : World) (pool : Pool) (xs : List Value) : Type 0 where
  pub is : IsQueue w pool xs
  pub ne_null : p ≢ null
  pub mine : is.own p ≡ held_by t
  pub content : Node
  pub holds : w.heap p ≡ some content

-- No fault, enough fuel, and a postcondition.
pub data Yields {A : Type 0} (P : A → World → Type 0) : Exec A → Type 0 where
  yields : {a : A} {w : World} → P a w → Yields P (ok a w)

module _ {A : Type 0} {P : A → World → Type 0} where
  pub weaken :
      {Q : A → World → Type 0} {r : Exec A}
      → Yields P r
      → ((a : A) (w : World) → P a w → Q a w)
      → Yields Q r
  weaken (yields p) f = yields (f _ _ p)

  pub yielded : {r : Exec A} → Yields P r → (a : A) × (w : World) × (r ≡ ok a w) × P a w
  yielded (yields p) = (_, _, refl, p)

  pub bind :
      {B : Type 0} {Q : B → World → Type 0} {r : Exec A} {k : A → Cmd B}
      → Yields P r
      → ((a : A) (w : World) → P a w → Yields Q (k a w))
      → Yields Q (follow k r)
  bind (yields p) f = f _ _ p

pub write_self : (h : Heap) (p : Ptr) (c : Option Node) → write h p c p ≡ c
unfolding write
write_self h p c = ground arith

pub write_ne : (h : Heap) (p a : Ptr) (c : Option Node) → a ≢ p → write h p c a ≡ h a
unfolding write
write_ne h p a c ne = ground arith

pub assign_self : (own : Owners) (p : Ptr) (o : Owner) → assign own p o p ≡ o
unfolding assign
assign_self own p o = ground arith

pub assign_ne : (own : Owners) (p a : Ptr) (o : Owner) → a ≢ p → assign own p o a ≡ own a
unfolding assign
assign_ne own p a o ne = ground arith

pub SameBut-write :
    (h : Heap) (own : Owners) (p : Ptr) (c : Option Node) → SameBut p h (write h p c) own own
SameBut-write h own p c = record { cells = λ b ne. write_ne h p b c ne; owners = λ b ne. refl }

pub SameBut-assign :
    (h : Heap) (own : Owners) (p : Ptr) (o : Owner) → SameBut p h h own (assign own p o)
SameBut-assign h own p o = record { cells = λ b ne. refl; owners = λ b ne. assign_ne own p b o ne }

-- What memory operations return at a node that is allocated.
module _ (w : World) {p : Ptr} {n : Node} (ne : p ≢ null) (e : w.heap p ≡ some n) where
  pub load-ok : load p w ≡ ok n w
  unfolding load
  load-ok = ground arith

  pub set_value-ok : (v : Value) → set_value p v w ≡ ok tt (put p (some (node v n.next)) w)
  unfolding set_value
  set_value-ok v = rw load-ok

  pub set_next-ok : (q : Ptr) → set_next p q w ≡ ok tt (put p (some (node n.value q)) w)
  unfolding set_next
  set_next-ok q = rw load-ok

module _ (w : World) (tid : ℕ) {l : FreeList} (e : list_at w.queue.free_lists tid ≡ some l) where
  pub load_free_list-ok : load_free_list tid w ≡ ok l w
  unfolding load_free_list
  load_free_list-ok = rw (e, load_free_list)

  pub store_free_list-ok :
      (k : FreeList)
      → store_free_list tid k w
        ≡ ok tt (record w {
          queue = record (w.queue) { free_lists = list_set w.queue.free_lists tid k };
        })
  unfolding store_free_list
  store_free_list-ok k = rw load_free_list-ok

pub list_at-list_set :
    (ls : Option (List FreeList)) (i j : ℕ) (k l : FreeList)
    → list_at (list_set ls i k) j ≡ some l
    → ((i ≡ j) × (l ≡ k)) ⊎ ((i ≢ j) × (list_at ls j ≡ some l))
unfolding list_at list_set
list_at-list_set none i j k l h = cc
list_at-list_set (some ls) i j k l h = elim (ℕ_discrete i j) [
  | yes e ↦
      let lt : j < length (set ls i k) = get_elem?-lt (set ls i k) j h in
      inl (
        e,
        ground (arith, length-set ls i k, get_elem?-set_self ls i k, ap (get_elem? (set ls i k)) e),
      )
  | no ne ↦ inr (ne, ground (arith, get_elem?-set_ne ls i j k ne))
]

-- The array keeps its length.
pub arrays-list_set :
    (ls : Option (List FreeList)) (i j : ℕ) (k : FreeList)
    → (l : FreeList) × (list_at ls j ≡ some l)
    → (l : FreeList) × (list_at (list_set ls i k) j ≡ some l)
unfolding list_at list_set
arrays-list_set none i j k (l, e) = cc
arrays-list_set (some ls) i j k (l, e) = elim (ℕ_discrete i j) [
  | yes p ↦ (
    k,
    ground (arith, get_elem?-lt ls j e, get_elem?-set_self ls i k, ap (get_elem? (set ls i k)) p),
  )
  | no ne ↦ (l, get_elem?-set_ne ls i j k ne ∙ e)
]

-- A change at one node that is part of no list.
pub Shape-frame :
    {w w' : World} {own own' : Owners} {front : Cells} {last : Value} {pool : Pool} {a : Ptr}
    → Shape w own front last pool
    → w'.queue ≡ w.queue
    → SameBut a w.heap w'.heap own own'
    → a ∉ front
    → a ≢ w.queue.tail
    → ((t : ℕ) (l : FreeList) → list_at w.queue.free_lists t ≡ some l → a ∉ pool t)
    → Shape w' own' front last pool
Shape-frame {w} {w'} {own'} s q same out ne outs = record {
  chain = rw q (Seg-frame s.chain same out);
  head = rw q s.head;
  back = rw q (record {
    ne_null = s.back.ne_null;
    owner = same.owners _ (λ e. ne (sym e)) ∙ s.back.owner;
    holds = same.cells _ (λ e. ne (sym e)) ∙ s.back.holds;
  });
  apart = rw q s.apart;
  arrays = λ t lt. rw q (s.arrays t (rw (← q) lt));
  lists = λ t l e.
      let e' : list_at w.queue.free_lists t ≡ some l = rw (← q) e in
      let f = s.lists t l e' in
      record { chain = Seg-frame f.chain same (outs t l e'); head = f.head; size = f.size };
}

-- A held node is part of no list.
module _ {t : ℕ} {p : Ptr} {w : World} {own : Owners} {front : Cells} {last : Value} {pool : Pool}
    (s : Shape w own front last pool) (mine : own p ≡ held_by t) where
  pub held-not-front : p ∉ front
  held-not-front = not-mem_of_owner p s.chain (ground arith)

  pub held-ne-tail : p ≢ w.queue.tail
  held-ne-tail e = ground (arith, s.back.owner)

  pub held-not-pool : (u : ℕ) (l : FreeList) → list_at w.queue.free_lists u ≡ some l → p ∉ pool u
  held-not-pool u l e = not-mem_of_owner p (s.lists u l e).chain (ground arith)
