-- ===== src/Sequential/Frames.antt =====
-- The moves of one node between the structures of Ex1.c, as changes of a Shape.
use amp_project.Base.{
  ℕ, ◌+◌, ◌%◌, ◌^◌, ◌≡◌, ◌≢◌, refl, sym, ◌∙◌, ap, subst, Option, none, some, List, [], ◌∷◌, ◌++◌,
  arith, inl, inr, dec32, inc32, length,
}
use amp_project.Heap.{
  Ptr, null, Value, node, Node, Heap, write, Alloc, queued, free_of, held_by, Owners, assign,
}
use amp_project.Heap.Seg.{
  Cells, ◌∉◌, first, Points, Seg, cons, SameBut, Seg-frame, Seg-concat, first-concat, has-concat,
  not-mem_of_none, not-mem_of_owner, Seg-head, Seg-apart, Seg-tail,
}
use amp_project.Sequential.Memory.{FreeList, free_list, World, put, list_at, list_set}
use amp_project.Sequential.Shape.{
  Pool, repool, IsFreeList, Shape, write_self, write_ne, assign_self, assign_ne, SameBut-write,
  SameBut-assign, list_at-list_set, arrays-list_set, Shape-frame, held-not-front, held-ne-tail,
  held-not-pool,
}

-- the world with one free list changed
abbrev pub with_list : World → ℕ → FreeList → World
with_list w t l = record w {
  queue = record (w.queue) { free_lists = list_set w.queue.free_lists t l };
}

pub repool_self : (pool : Pool) (t : ℕ) (xs : Cells) → repool pool t xs t ≡ xs
unfolding repool
repool_self pool t xs = ground arith

pub repool_ne : (pool : Pool) (t u : ℕ) (xs : Cells) → t ≢ u → repool pool t xs u ≡ pool u
unfolding repool
repool_ne pool t u xs ne = ground arith

-- One free list is replaced, and the others are as they were.
lists-list_set :
    {h : Heap} {own : Owners} (ls : Option (List FreeList)) (pool : Pool) (t : ℕ) (k : FreeList)
    (r : Cells)
    → IsFreeList h own t k r
    → ((u : ℕ) (l : FreeList) → t ≢ u → list_at ls u ≡ some l → IsFreeList h own u l (pool u))
    → (u : ℕ) (l : FreeList) → list_at (list_set ls t k) u ≡ some l
    → IsFreeList h own u l (repool pool t r u)
lists-list_set {h} {own} ls pool t k r new old u l e = elim (list_at-list_set ls t u k l e) [
  | inl (tu, lk) ↦
      subst (λ v. IsFreeList h own v l (repool pool t r v)) tu (rw (repool_self, lk) new)
  | inr (ne, e') ↦ rw (repool_ne pool t u r ne) (old u l ne e')
]

-- A free list that node `p` is no part of.
IsFreeList-frame :
    {h g : Heap} {own own' : Owners} {u : ℕ} {l : FreeList} {xs : Cells} {p : Ptr}
    → IsFreeList h own u l xs
    → SameBut p h g own own'
    → own p ≢ free_of u
    → IsFreeList g own' u l xs
IsFreeList-frame {p} f same ne = record {
  chain = Seg-frame f.chain same (not-mem_of_owner p f.chain ne);
  head = f.head;
  size = f.size;
}

module _ {w : World} {own : Owners} {front : Cells} {last : Value} {pool : Pool}
    (s : Shape w own front last pool) (t : ℕ) where
  -- `malloc` hands a fresh block to thread `t`.
  pub alloc-Shape :
      (m : Alloc)
      → w.heap m.addr ≡ none
      → Shape (put m.addr (some m.contents) w) (assign own m.addr (held_by t)) front last pool
  alloc-Shape m fresh =
      Shape-frame s refl
        (record {
          cells = λ b ne. (SameBut-write w.heap own m.addr _).cells b ne;
          owners = λ b ne. assign_ne own m.addr b _ ne;
        })
        (not-mem_of_none m.addr s.chain fresh) (λ e. cc (ap w.heap e, fresh, s.back.holds))
        (λ u l e. not-mem_of_none m.addr (s.lists u l e).chain fresh)

  -- The first node of the free list goes to thread `t`.
  pub take-Shape :
      (p : Ptr) (v : Value) (r : Cells) (l : FreeList)
      → Points w.heap own (free_of t) p v (first r null)
      → p ∉ r
      → Seg w.heap own (free_of t) null r
      → l.size ≡ (length r + 1) % 2 ^ 32
      → Shape
          (with_list w t (free_list (first r null) (dec32 l.size)))
          (assign own p (held_by t))
          front
          last
          (repool pool t r)
  take-Shape p v r l pt out tail size = record {
    chain = Seg-frame s.chain same (not-mem_of_owner p s.chain (ground (arith, pt.owner)));
    head = s.head;
    back = record {
      ne_null = s.back.ne_null;
      owner = same.owners _ (λ e. ne_tail (sym e)) ∙ s.back.owner;
      holds = s.back.holds;
    };
    apart = s.apart;
    arrays = λ u lt. arrays-list_set w.queue.free_lists t u _ (s.arrays u lt);
    lists =
        lists-list_set w.queue.free_lists pool t _ r
          (record { chain = Seg-frame tail same out; head = refl; size = omega arith })
          (λ u k ne e. IsFreeList-frame (s.lists u k e) same (ground (arith, pt.owner)));
  }
    where
      same : SameBut p w.heap w.heap own (assign own p (held_by t))
      same = SameBut-assign w.heap own p (held_by t)

      ne_tail : p ≢ w.queue.tail
      ne_tail e = ground (arith, pt.owner, s.back.owner)

  module _ {p : Ptr} (mine : own p ≡ held_by t) where
    held-frame :
        {w' : World} {own' : Owners}
        → w'.queue ≡ w.queue
        → SameBut p w.heap w'.heap own own'
        → Shape w' own' front last pool
    held-frame q same =
        Shape-frame s q same (held-not-front s mine) (held-ne-tail s mine) (held-not-pool s mine)

    -- Thread `t` writes to a node that it holds.
    pub write-Shape : (c : Node) → Shape (put p (some c) w) own front last pool
    write-Shape c = held-frame refl (SameBut-write w.heap own p (some c))

    -- The node goes to the front of the thread's free list.
    pub give_back-Shape :
        (v : Value) (l : FreeList)
        → p ≢ null
        → list_at w.queue.free_lists t ≡ some l
        → Shape
            (with_list (put p (some (node v l.head)) w) t (free_list p (inc32 l.size)))
            (assign own p (free_of t))
            front
            last
            (repool pool t ((p, v) ∷ pool t))
    give_back-Shape v l ne at = record {
      chain = framed.chain;
      head = framed.head;
      back = framed.back;
      apart = framed.apart;
      arrays = λ u lt. arrays-list_set w.queue.free_lists t u _ (framed.arrays u lt);
      lists =
          lists-list_set w.queue.free_lists pool t _ ((p, v) ∷ pool t)
            (record {
              chain =
                  cons
                    (record {
                      ne_null = ne;
                      owner = assign_self own p (free_of t);
                      holds = write_self w.heap p _ ∙ ap (λ q. some (node v q)) f.head;
                    })
                    (held-not-pool s mine t l at) f.chain;
              head = refl;
              size = omega (arith, f.size);
            })
            (λ u k ne e. framed.lists u k e);
    }
      where
        framed : Shape (put p (some (node v l.head)) w) (assign own p (free_of t)) front last pool
        framed = held-frame refl (record {
          cells = (SameBut-write w.heap own p _).cells;
          owners = (SameBut-assign w.heap own p _).owners;
        })

        f :
            IsFreeList
              (write w.heap p (some (node v l.head)))
              (assign own p (free_of t))
              t
              l
              (pool t)
        f = framed.lists t l at

    -- The node, which has no successor, is linked behind the tail, and the tail moved to it.
    pub link-Shape :
        (v : Value)
        → p ≢ null
        → w.heap p ≡ some (node v null)
        → Shape
            (record (put w.queue.tail (some (node last p)) w) {
              queue = record (w.queue) { tail = p };
            })
            (assign own p queued)
            (front ++ (w.queue.tail, last) ∷ [])
            v
            pool
    link-Shape v ne holds = record {
      chain =
          Seg-concat (Seg-frame given.chain same s.apart)
            (record {
              ne_null = s.back.ne_null;
              owner = given.back.owner;
              holds = write_self w.heap w.queue.tail _;
            })
            s.apart;
      head = s.head ∙ sym (first-concat front w.queue.tail last p);
      back = record {
        ne_null = ne;
        owner = assign_self own p queued;
        holds = write_ne w.heap w.queue.tail p _ (held-ne-tail s mine) ∙ holds;
      };
      apart = rw (has-concat, held-not-front s mine) (let ne = held-ne-tail s mine in ground arith);
      arrays = s.arrays;
      lists = λ u l e. IsFreeList-frame (given.lists u l e) same (ground (arith, given.back.owner));
    }
      where
        given : Shape w (assign own p queued) front last pool
        given = held-frame refl (SameBut-assign w.heap own p queued)

        same :
            SameBut w.queue.tail w.heap
              (write w.heap w.queue.tail (some (node last p)))
              (assign own p queued)
              (assign own p queued)
        same = SameBut-write w.heap (assign own p queued) w.queue.tail _

-- The sentinel goes to thread `t`, and the next node takes its place.
pub pop-Shape :
    {w : World} {own : Owners} {p : Ptr} {v last : Value} {r : Cells} {pool : Pool}
    → Shape w own ((p, v) ∷ r) last pool
    → (t : ℕ)
    → Shape
        (record w { queue = record (w.queue) { head = first r w.queue.tail } })
        (assign own p (held_by t))
        r
        last
        pool
pop-Shape {w} {own} {p} {v} {r} s t = record {
  chain = Seg-frame (Seg-tail s.chain) same (Seg-apart s.chain);
  head = refl;
  back = record {
    ne_null = s.back.ne_null;
    owner = same.owners w.queue.tail (λ e. ground (arith, s.apart)) ∙ s.back.owner;
    holds = s.back.holds;
  };
  apart = ground (arith, s.apart);
  arrays = s.arrays;
  lists = λ u l e. IsFreeList-frame (s.lists u l e) same (ground (arith, at.owner));
}
  where
    at : Points w.heap own queued p v (first r w.queue.tail)
    at = Seg-head s.chain

    same : SameBut p w.heap w.heap own (assign own p (held_by t))
    same = SameBut-assign w.heap own p (held_by t)
