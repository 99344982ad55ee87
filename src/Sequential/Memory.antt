-- ===== src/Sequential/Memory.antt =====
-- `queue_t` and `freelist_t` of Ex1.h, and the memory operations of C as commands.
use amp_project.Base.{ℕ, Option, none, some, List, ◌==◌, if◌then◌else◌, get_elem?, set}
use amp_project.Heap.{Ptr, null, Value, Node, node, Heap, write, Alloc}

pub record FreeList : Type 0 where
  pub head : Ptr
  pub size : ℕ  -- int, as a bit pattern

abbrev pub free_list : Ptr → ℕ → FreeList
free_list p n = record { head = p; size = n }

-- `free_lists` is `none` for NULL.
pub record Queue : Type 0 where
  pub head : Ptr
  pub tail : Ptr
  pub free_lists : Option (List FreeList)
  pub num_threads : ℕ

pub record World : Type 0 where
  pub heap : Heap
  pub queue : Queue

-- A run of C code: undefined behaviour (NULL, freed or foreign memory, an index out of range), a
-- loop cut short, or a result and the world that it leaves.
pub data Exec (A : Type 0) : Type 0 where
  fault starved : Exec A
  ok : A → World → Exec A

abbrev pub Cmd : Type 0 → Type 0
Cmd A = World → Exec A

abbrev pub give : {A : Type 0} → A → Cmd A
give a w = ok a w

abbrev pub follow : {A B : Type 0} → (A → Cmd B) → Exec A → Exec B
follow k fault = fault
follow k starved = starved
follow k (ok a w) = k a w

infixl 5 ◌>>=◌ ◌>>◌
abbrev pub ◌>>=◌ : {A B : Type 0} → Cmd A → (A → Cmd B) → Cmd B
◌>>=◌ m k w = follow k (m w)

abbrev pub ◌>>◌ : {A B : Type 0} → Cmd A → Cmd B → Cmd B
◌>>◌ m n w = follow (λ _. n) (m w)

-- The world with one address of the heap, or one field of the queue, changed.
abbrev pub put : Ptr → Option Node → World → World
put p c w = record w { heap = write w.heap p c }

-- what an address holds; a fault where nothing is allocated
abbrev pub fetch : Option Node → Cmd Node
fetch none w = fault
fetch (some n) w = ok n w

-- `*p`, which is a fault at NULL
unfoldable pub load : Ptr → Cmd Node
load p w = if p == null then fault else fetch (w.heap p) w

-- `p->value = v` and `p->next = q`
unfoldable pub set_value : Ptr → Value → Cmd (Unit {0})
set_value p v = load p >>= λ n w. ok tt (put p (some (node v n.next)) w)

unfoldable pub set_next : Ptr → Ptr → Cmd (Unit {0})
set_next p q = load p >>= λ n w. ok tt (put p (some (node n.value q)) w)

unfoldable pub free : Ptr → Cmd (Unit {0})
free p = load p >>= λ n w. ok tt (put p none w)

-- `malloc(sizeof(node_t))`, which hands back `m`
unfoldable pub malloc : Alloc → Cmd Ptr
malloc m w = if m.addr == null then ok null w else ok m.addr (put m.addr (some m.contents) w)

abbrev pub queue : Cmd Queue
queue w = ok w.queue w

abbrev pub set_head : Ptr → Cmd (Unit {0})
set_head p w = ok tt (record w { queue = record (w.queue) { head = p } })

abbrev pub set_tail : Ptr → Cmd (Unit {0})
set_tail p w = ok tt (record w { queue = record (w.queue) { tail = p } })

abbrev pub set_free_lists : Option (List FreeList) → Cmd (Unit {0})
set_free_lists l w = ok tt (record w { queue = record (w.queue) { free_lists = l } })

abbrev pub set_num_threads : ℕ → Cmd (Unit {0})
set_num_threads n w = ok tt (record w { queue = record (w.queue) { num_threads = n } })

-- `Q->free_lists[tid]`
unfoldable pub list_at : Option (List FreeList) → ℕ → Option FreeList
list_at none tid = none
list_at (some ls) tid = get_elem? ls tid

unfoldable pub list_set : Option (List FreeList) → ℕ → FreeList → Option (List FreeList)
list_set none tid l = none
list_set (some ls) tid l = some (set ls tid l)

unfoldable pub load_free_list : (tid : ℕ) → Cmd FreeList
load_free_list tid w = elim (list_at w.queue.free_lists tid) [ none ↦ fault | some l ↦ ok l w ]

unfoldable pub store_free_list : (tid : ℕ) → FreeList → Cmd (Unit {0})
store_free_list tid l =
    load_free_list tid >>= λ _ w. set_free_lists (list_set w.queue.free_lists tid l) w
