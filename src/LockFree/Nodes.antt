-- ===== src/LockFree/Nodes.antt =====
-- The nodes of a list segment, by address: what each holds, and where it leads.
use amp_project.Base.{
  ◌≡◌, ◌≢◌, refl, sym, ◌∙◌, ap, true, Bool-cases, ◌||◌, ◌⊎◌, inl, inr, some, List, [], ◌∷◌, ◌++◌,
  ◌==◌, arith,
}
use amp_project.Heap.{Ptr, null, Value, node, Heap, Owner, queued, Owners}
use amp_project.Heap.Seg.{
  Cells, values, has, ◌∉◌, first, Points, Seg, nil, cons, Seg-concat, has-concat, first-concat,
  not-mem_null, Seg-apart,
}
use amp_project.Sequential.Memory.{World}
use amp_project.Sequential.Shape.{Pool}
use amp_project.Sequential.Contents.{Holds, Layout}

abbrev pub behind : Cells → Cells
behind [] = []
behind (x ∷ xs) = xs

-- The node at `p`, and its successor, which is the end of the segment or one of its later nodes.
pub record Member (h : Heap) (own : Owners) (o : Owner) (stop : Ptr) (xs : Cells) (p : Ptr)
    : Type 0 where
  pub value : Value
  pub next : Ptr
  pub points : Points h own o p value next
  pub follows : (next ≡ stop) ⊎ (has next (behind xs) ≡ true)

has-first : (xs : Cells) (stop : Ptr) → (first xs stop ≡ stop) ⊎ (has (first xs stop) xs ≡ true)
has-first [] stop = inl refl
has-first ((p, v) ∷ xs) stop = inr (ground arith)

pub has-behind : (xs : Cells) (p : Ptr) → has p (behind xs) ≡ true → has p xs ≡ true
has-behind [] p i = i
has-behind ((q, v) ∷ xs) p i = ground arith

pub member :
    {h : Heap} {own : Owners} {o : Owner} {stop : Ptr} {xs : Cells} (p : Ptr)
    → Seg h own o stop xs
    → has p xs ≡ true
    → Member h own o stop xs p
member p nil i = cc
member {h} {own} {o} {stop} p (cons {p = q} {v} {xs} e out s) i = elim (Bool-cases (p == q)) [
  | inl here ↦
      let at : p ≡ q = ground arith in
      record { value = v; next = first xs stop; points = rw at e; follows = has-first xs stop }
  | inr there ↦
      let m = member p s (rw there at i) in
      record { value = m.value; next = m.next; points = m.points; follows = later m.next m.follows }
]
  where
    later : (x : Ptr) → (x ≡ stop) ⊎ (has x (behind xs) ≡ true) → (x ≡ stop) ⊎ (has x xs ≡ true)
    later x (inl e) = inl e
    later x (inr i) = inr (has-behind xs x i)

module _ {w : World} {own : Owners} {cells : Cells} {end : Ptr} {pool : Pool}
    (layout : Layout w own cells end pool) where
  -- the whole queue
  pub chain_of : Seg w.heap own queued null cells
  chain_of = rw (← layout.all) (Seg-concat layout.shape.chain layout.shape.back layout.shape.apart)

  pub head_is : w.queue.head ≡ first cells null
  head_is =
      layout.shape.head
      ∙ sym (first-concat layout.front end layout.last null)
      ∙ ap (λ c. first c null) layout.all

  -- A node without a successor is the last one.
  pub last_is : (p : Ptr) (v : Value) → has p cells ≡ true → w.heap p ≡ some (node v null) → p ≡ end
  last_is p v i e = elim (Bool-cases (has p layout.front)) [
    | inl inside ↦
        let m = member p layout.shape.chain inside in
        absurd (no_end m.next m.follows (cc (m.points.holds, e)))
    | inr outside ↦
        let j : (has p layout.front || (p == end)) ≡ true =
          sym (has-concat p layout.front end layout.last) ∙ ap (has p) layout.all ∙ i in
        ground arith
  ]
    where
      no_end : (x : Ptr) → (x ≡ end) ⊎ (has x (behind layout.front) ≡ true) → x ≢ null
      no_end x (inl e) nul = layout.shape.back.ne_null (sym e ∙ nul)
      no_end x (inr i) nul =
          let out = not-mem_null layout.shape.chain in
          let j = has-behind layout.front x i in cc (ap (λ a. has a layout.front) nul)

  pub head-mem : has w.queue.head cells ≡ true
  head-mem = rw head_is (rw (← layout.all) (at_front layout.front))
    where
      at_front :
          (f : Cells)
          → has (first (f ++ (end, layout.last) ∷ []) null) (f ++ (end, layout.last) ∷ []) ≡ true
      at_front [] = ground arith
      at_front ((p, v) ∷ f) = ground arith

  -- The successor of a node of the queue is one of its nodes, and not the first.
  pub successor_of :
      (p : Ptr) (v : Value) (x : Ptr)
      → has p cells ≡ true
      → w.heap p ≡ some (node v x)
      → x ≢ null
      → (has x cells ≡ true) × (x ≢ w.queue.head)
  successor_of p v x i e ne =
      let m = member p chain_of i in
      let same : m.next ≡ x = cc (m.points.holds, e) in
      elim m.follows [
        | inl nul ↦ absurd (ne (sym same ∙ nul))
        | inr j ↦
            let j' : has x (behind cells) ≡ true = rw (← same) j in
            (has-behind cells x j', later cells chain_of head_is j')
      ]
    where
      later :
          (xs : Cells)
          → Seg w.heap own queued null xs
          → w.queue.head ≡ first xs null
          → has x (behind xs) ≡ true
          → x ≢ w.queue.head
      later [] c h j here = cc j
      later ((q, a) ∷ xs) c h j here =
          let out : q ∉ xs = Seg-apart c in cc (ap (λ z. has z xs) (here ∙ h), j, out)

  -- A last node at the head is the only one.
  pub alone_is : w.queue.head ≡ end → cells ≡ (end, layout.last) ∷ []
  alone_is e = go layout.front layout.shape.head layout.shape.apart layout.all
    where
      go :
          (f : Cells)
          → w.queue.head ≡ first f end
          → end ∉ f
          → f ++ (end, layout.last) ∷ [] ≡ cells
          → cells ≡ (end, layout.last) ∷ []
      go [] at out same = sym same
      go ((p, v) ∷ f) at out same = absurd (let here : p ≡ end = sym at ∙ e in ground arith)

  abbrev pub holds_all :
      {sentinel : Value} {xs : List Value}
      → values cells ≡ sentinel ∷ xs
      → Holds w.heap w.queue.head xs
  holds_all {sentinel} contents = record {
    own = own;
    cells = cells;
    sentinel = sentinel;
    chain = chain_of;
    at_head = head_is;
    contents = contents;
  }
