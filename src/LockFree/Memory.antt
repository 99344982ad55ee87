-- ===== src/LockFree/Memory.antt =====
-- The commands of Ex5.c on nodes, free lists, `head` and `tail`.
use amp_project.Base.{
  ℕ, zero, suc, ◌+◌, Bool, true, false, not, ◌&&◌, Option, none, some, List, [], ◌∷◌, ◌==◌,
  if◌then◌else◌, dec32, ltb,
}
use amp_project.Heap.{Ptr, null, Value, Alloc}
use amp_project.Sequential
use amp_project.Sequential.Memory.{
  Cmd, fault, give, ◌>>=◌, ◌>>◌, load, set_next, queue, set_head, set_tail, set_free_lists,
  set_num_threads, free, free_list, load_free_list, store_free_list,
}

-- Ex5.c makes and recycles nodes as Ex1.c does.
unfoldable pub make_node : Alloc → Value → Cmd Ptr
make_node = Sequential.make_node

unfoldable pub recycle_node : (tid : ℕ) → Ptr → (count : Option ℕ) → Cmd (Option ℕ)
recycle_node = Sequential.recycle_node

-- With an empty free list the node comes from `make_node`.
unfoldable pub upcycle_node : Alloc → (tid : ℕ) → Cmd Ptr
unfolding make_node
upcycle_node m tid = do
  l ← load_free_list tid
  if l.head == null
      then make_node m 0
      else do n ← load l.head; store_free_list tid (free_list n.next (dec32 l.size)); give l.head

-- The loop of `mm_reclaim_all` over the retired nodes.
unfoldable pub reclaim : (tid : ℕ) → List Ptr → (count : Option ℕ) → Cmd (Option ℕ)
unfolding recycle_node
reclaim tid [] count = give count
reclaim tid (n ∷ r) count = do count' ← recycle_node tid n count; reclaim tid r count'

-- `atomic_compare_exchange_weak`, and whether it exchanged; a spurious failure changes nothing.
unfoldable pub cas_head : (spurious : Bool) (expected desired : Ptr) → Cmd Bool
cas_head spurious expected desired = do
  q ← queue
  if q.head == expected && not spurious then set_head desired >> give true else give false

unfoldable pub cas_tail : (spurious : Bool) (expected desired : Ptr) → Cmd Bool
cas_tail spurious expected desired = do
  q ← queue
  if q.tail == expected && not spurious then set_tail desired >> give true else give false

unfoldable pub cas_next : (spurious : Bool) → Ptr → (expected desired : Ptr) → Cmd Bool
cas_next spurious p expected desired = do
  n ← load p
  if n.next == expected && not spurious then set_next p desired >> give true else give false

-- The loop of `destroy_queue` over one list of retired nodes, and that over all threads.
unfoldable pub free_all : List Ptr → Cmd (Unit {0})
free_all [] = give tt
free_all (n ∷ r) = do free n; free_all r

-- `Q->retired[i]` behind the last entry is undefined behaviour.
unfoldable pub free_retired : (rounds i : ℕ) → (ℕ → List Ptr) → Cmd (Unit {0})
unfolding free_all
free_retired zero i retired = give tt
free_retired (suc k) i retired =
    let rest = free_retired k (i + 1) retired in
    queue >>= λ q. if ltb i q.num_threads then free_all (retired i) >> rest else λ _. fault

-- `destroy_queue` on the nodes: those of the queue, of the free lists, and the retired ones. It leaves
-- `Q->head` as it was.
unfoldable pub destroy_lists : (fuel : ℕ) → (retired : ℕ → List Ptr) → Cmd (Unit {0})
destroy_lists fuel retired = do
  q ← queue
  Sequential.destroy_free_list fuel q.head
  elim q.free_lists [
    | none ↦ give tt
    | some ls ↦ do Sequential.destroy_free_lists fuel q.num_threads 0; set_free_lists none
  ]
  free_retired q.num_threads 0 retired
  set_num_threads 0
