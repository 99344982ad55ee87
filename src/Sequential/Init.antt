-- ===== src/Sequential/Init.antt =====
-- `make_node` and `init_queue` of Ex1.c.
use amp_project.Base.{
  ℕ, zero, suc, ◌+◌, ◌≤◌, ◌<◌, ◌≡◌, ◌≢◌, refl, ◌∙◌, ap, true, some, [], ◌∷◌, arith, replicate,
  get_elem?, set, get_elem?-replicate,
}
use amp_project.Heap.{Ptr, null, Value, Alloc, node, nobody, queued, assign, write}
use amp_project.Heap.Seg.{nil}
use amp_project.Sequential.{make_node, clear_free_lists, init_queue}
use amp_project.Sequential.Memory.{
  World, FreeList, free_list, ok, fault, put, list_at, list_set, load, set_value,
}
use amp_project.Sequential.Shape.{
  IsFreeList, IsQueue, Yields, yields, store_free_list-ok, assign_self, write_self, write_ne,
  set_value-ok, set_next-ok,
}
use amp_project.Sequential.Pools.{malloc-ok, malloc-null}

get_elem?-replicate_inv {ℓ} :
    {A : Type ℓ} (n i : ℕ) (a : A) {b : A} → get_elem? (replicate n a) i ≡ some b → b ≡ a
get_elem?-replicate_inv zero i a h = cc
get_elem?-replicate_inv (suc n) zero a h = cc
get_elem?-replicate_inv (suc n) (suc i) a h = get_elem?-replicate_inv n i a h

set-replicate {ℓ} : {A : Type ℓ} (n i : ℕ) (a : A) → set (replicate n a) i a ≡ replicate n a
set-replicate zero i a = refl
set-replicate (suc n) zero a = refl
set-replicate (suc n) (suc i) a = ap (◌∷◌ a) (set-replicate n i a)

abbrev blank : FreeList
blank = free_list null 0

list_at-replicate : (n t : ℕ) → t < n → list_at (some (replicate n blank)) t ≡ some blank
unfolding list_at
list_at-replicate n t lt = get_elem?-replicate n t blank lt

list_at-replicate_inv :
    (n t : ℕ) {l : FreeList} → list_at (some (replicate n blank)) t ≡ some l → l ≡ blank
unfolding list_at
list_at-replicate_inv n t e = get_elem?-replicate_inv n t blank e

-- The loop over zeroed free lists stays in the array, and leaves it as it is.
clear_free_lists-same :
    (n k i : ℕ) (w : World)
    → w.queue.free_lists ≡ some (replicate n blank)
    → i + k ≤ n
    → clear_free_lists k i w ≡ ok tt w
unfolding clear_free_lists list_at list_set
clear_free_lists-same n zero i w e le = refl
clear_free_lists-same n (suc k) i w e le =
    let at : list_at w.queue.free_lists i ≡ some blank =
      rw e (get_elem?-replicate n i blank (omega arith)) in
    let same : list_set w.queue.free_lists i blank ≡ w.queue.free_lists =
      rw e (ap some (set-replicate n i blank)) in
    rw (store_free_list-ok w i at blank, same) (clear_free_lists-same n k (i + 1) w e (omega arith))

-- `make_node` writes to the block without a test: a failed `malloc` is a write through NULL.
pub make_node-null : (m : Alloc) (v : Value) (w : World) → m.addr ≡ null → make_node m v w ≡ fault
unfolding make_node set_value load
make_node-null m v w e = rw (malloc-null w m e)

abbrev pub made : Alloc → Value → World → World
made m v w =
    put m.addr (some (node v null))
      (put m.addr (some (node v m.contents.next)) (put m.addr (some m.contents) w))

pub make_node-ok :
    (m : Alloc) (v : Value) (w : World) → m.addr ≢ null → make_node m v w ≡ ok m.addr (made m v w)
unfolding make_node
make_node-ok m v w ne = rw (malloc-ok w m ne) (
    rw (set_value-ok (put m.addr (some m.contents) w) ne (write_self w.heap m.addr _) v) (
      rw
        (set_next-ok (put m.addr (some (node v m.contents.next)) (put m.addr (some m.contents) w))
          ne (write_self (write w.heap m.addr _) m.addr _) null)
        refl))

-- `init_queue` with memory for the node and the array: an empty queue, and an empty free list for
-- each thread.
pub init_queue-IsQueue :
    (m : Alloc) (n : ℕ) (w : World)
    → m.addr ≢ null
    → Yields
        (λ _ w'.
          IsQueue w' (λ _. []) []
          × (w'.queue.num_threads ≡ n)
          × ((a : Ptr) → a ≢ m.addr → w'.heap a ≡ w.heap a))
        (init_queue m true n w)
unfolding init_queue
init_queue-IsQueue m n w ne = rw (make_node-ok m 0 w ne) (
    rw (clear_free_lists-same n n 0 zeroed refl (omega arith)) (
      yields (
        record {
          own = assign (λ _. nobody) m.addr queued;
          front = [];
          last = 0;
          sentinel = 0;
          contents = refl;
          shape = record {
            chain = nil;
            head = refl;
            back = record {
              ne_null = ne;
              owner = assign_self (λ _. nobody) m.addr queued;
              holds = write_self _ m.addr _;
            };
            apart = refl;
            arrays = λ t lt. (blank, list_at_blank t lt);
            lists = λ t l e. IsFreeList_blank t l (list_at_inv t l e);
          };
        },
        refl,
        λ a out.
            write_ne _ m.addr a _ out ∙ write_ne _ m.addr a _ out ∙ write_ne w.heap m.addr a _ out,
      )))
  where
    zeroed : World
    zeroed = record (made m 0 w) {
      queue = record {
        head = m.addr;
        tail = m.addr;
        free_lists = some (replicate n blank);
        num_threads = w.queue.num_threads;
      };
    }

    list_at_blank : (t : ℕ) → t < n → list_at (some (replicate n blank)) t ≡ some blank
    list_at_blank t lt = list_at-replicate n t lt

    list_at_inv : (t : ℕ) (l : FreeList) → list_at (some (replicate n blank)) t ≡ some l → l ≡ blank
    list_at_inv t l e = list_at-replicate_inv n t e

    IsFreeList_blank :
        (t : ℕ) (l : FreeList)
        → l ≡ blank
        → IsFreeList (made m 0 w).heap (assign (λ _. nobody) m.addr queued) t l []
    IsFreeList_blank t l e = rw e (record { chain = nil; head = refl; size = refl })
