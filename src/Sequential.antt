-- ===== src/Sequential.antt =====
-- project_skeleton/src/Ex1.c and Ex1.h: the sequential queue with per-thread free lists.
-- The functions as commands over the heap and the one `queue_t` that `Q` points to.
pub mod Memory
pub mod Shape
pub mod Others
pub mod Contents
pub mod Frames
pub mod Pools
pub mod Ends
pub mod Operations
pub mod Init
pub mod Clearing
pub mod Destroy
pub mod History
pub mod Examples
use amp_project.Base.{
  ℕ, zero, suc, ◌+◌, Bool, true, false, Option, none, some, ◌==◌, if◌then◌else◌, inc32, dec32, bump,
  replicate,
}
use amp_project.Heap.{Ptr, null, Value, Alloc}
use Memory.{
  FreeList, free_list, Queue, Cmd, give, ◌>>=◌, ◌>>◌, starved, load, set_value, set_next, free,
  malloc, queue, set_head, set_tail, set_free_lists, set_num_threads, load_free_list,
  store_free_list,
}

-- `m` is what `malloc` hands back; its result is not tested.
unfoldable pub make_node : Alloc → Value → Cmd Ptr
make_node m v = do new_node ← malloc m; set_value new_node v; set_next new_node null; give new_node

-- The loop over the free lists, with the rounds left and the index.
pub clear_free_lists : (rounds i : ℕ) → Cmd (Unit {0})
clear_free_lists zero i = give tt
clear_free_lists (suc k) i =
    let rest = clear_free_lists k (i + 1) in store_free_list i (free_list null 0) >> rest

-- `got_array` says whether `calloc` succeeded; it fills the array with zeros.
unfoldable pub init_queue : Alloc → (got_array : Bool) → (num_threads : ℕ) → Cmd (Unit {0})
unfolding make_node clear_free_lists
init_queue m got_array num_threads = do
  dummy ← make_node m 0
  set_head dummy
  q ← queue
  set_tail q.head
  set_free_lists (if got_array then some (replicate num_threads (free_list null 0)) else none)
  clear_free_lists num_threads 0
  set_num_threads num_threads

-- `while (Q->head != NULL)`, on fuel
pub destroy_nodes : ℕ → Cmd (Unit {0})
destroy_nodes zero = λ _. starved
destroy_nodes (suc k) =
    let rest = destroy_nodes k in
    queue >>= λ q.
    if q.head == null then give tt else do n ← load q.head; free q.head; set_head n.next; rest

-- `while (n != NULL)` over one free list, on fuel
pub destroy_free_list : ℕ → Ptr → Cmd (Unit {0})
destroy_free_list zero n = λ _. starved
destroy_free_list (suc k) n =
    if n == null then give tt else do tmp ← load n; free n; destroy_free_list k tmp.next

-- `for (int i = 0; i < Q->num_threads; ++i)`
pub destroy_free_lists : (fuel rounds i : ℕ) → Cmd (Unit {0})
unfolding destroy_free_list
destroy_free_lists fuel zero i = give tt
destroy_free_lists fuel (suc k) i =
    let rest = destroy_free_lists fuel k (i + 1) in
    do l ← load_free_list i; destroy_free_list fuel l.head; rest

pub destroy_queue : (fuel : ℕ) → Cmd (Unit {0})
unfolding destroy_nodes destroy_free_lists
destroy_queue fuel = do
  destroy_nodes fuel
  q ← queue
  elim q.free_lists [
    | none ↦ give tt
    | some ls ↦ do destroy_free_lists fuel q.num_threads 0; set_free_lists none; set_num_threads 0
  ]

-- A node from the thread's free list, or from `malloc`, which may give NULL.
unfoldable pub upcycle_node : Alloc → (tid : ℕ) → Cmd Ptr
upcycle_node m tid = do
  l ← load_free_list tid
  if l.head == null
      then malloc m
      else do n ← load l.head; store_free_list tid (free_list n.next (dec32 l.size)); give l.head

-- `count` is `*free_list_insertion_count`, `none` for a null pointer.
unfoldable pub recycle_node : (tid : ℕ) → Ptr → (count : Option ℕ) → Cmd (Option ℕ)
recycle_node tid node count = do
  l ← load_free_list tid
  set_next node l.head
  store_free_list tid (free_list node (inc32 l.size))
  give (bump count)

-- The part of `enq` behind its test for NULL.
pub link_node : Ptr → Value → Cmd Bool
link_node new_node v = do
  set_value new_node v
  set_next new_node null
  q ← queue
  set_next q.tail new_node
  set_tail new_node
  give true

unfoldable pub enq : Alloc → Value → (tid : ℕ) → Cmd Bool
unfolding upcycle_node link_node
enq m v tid = do
  new_node ← upcycle_node m tid
  if new_node == null then give false else link_node new_node v

-- The part of `deq` behind its test for an empty queue, up to `recycle_node`: the value, and the
-- sentinel that is unlinked.
unfoldable pub unlink_node : Cmd (Value × Ptr)
unlink_node = do
  q ← queue
  sentinel ← load q.head
  n ← load sentinel.next
  set_head sentinel.next
  r ← queue
  if r.tail == sentinel.next then set_tail r.head else give tt
  give (n.value, q.head)

-- The value is what `*v` gets where the result is 1; with `none` the result is 0, and `*v` stays.
pub deq : (tid : ℕ) → (count : Option ℕ) → Cmd (Option Value × Option ℕ)
unfolding unlink_node recycle_node
deq tid count = do
  q ← queue
  sentinel ← load q.head
  if sentinel.next == null
      then give (none, count)
      else do (v, node) ← unlink_node; count' ← recycle_node tid node count; give (some v, count')
