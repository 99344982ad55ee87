-- ===== src/Heap.antt =====
-- The C heap of queue nodes (`node_t`), and who owns which node. Pointers are numbers, NULL is 0.
pub mod Seg
use amp_project.Base.{ℕ, Option, none, some, ◌==◌, if◌then◌else◌, ite, ℕ_discrete}

-- `value_t` is a C `int` that the queues only copy: its bit pattern.
abbrev pub Value : Type 0
Value = ℕ

abbrev pub Ptr : Type 0
Ptr = ℕ

abbrev pub null : Ptr
null = 0

-- `struct node`, with the field `data` under the name of its type
pub record Node : Type 0 where
  pub value : Value
  pub next : Ptr

abbrev pub node : Value → Ptr → Node
node data_value successor = record { value = data_value; next = successor }

-- The nodes that are allocated, by address.
abbrev pub Heap : Type 0
Heap = Ptr → Option Node

unfoldable pub write : Heap → Ptr → Option Node → Heap
write memory at new address = if address == at then new else memory address

-- What a call of `malloc` or `calloc` hands back: an address, NULL if it failed, and whatever the
-- block holds.
pub record Alloc : Type 0 where
  pub addr : Ptr
  pub contents : Node

-- The structure that a node is part of; a specification device, the program has no such field.
pub data Owner : Type 0 where
  nobody queued : Owner
  free_of : ℕ → Owner
  held_by : ℕ → Owner

abbrev pub Owners : Type 0
Owners = Ptr → Owner

unfoldable pub assign : Owners → Ptr → Owner → Owners
assign own p o a = if a == p then o else own a
