-- ===== src/Heap/Seg.antt =====
-- List segments: the nodes that `next` pointers lead through.
use amp_project.Base.{
  ◌≡◌, ◌≢◌, refl, ◌∙◌, Bool, true, false, Bool-cases, inl, inr, ◌||◌, none, some, List, [], ◌∷◌,
  ◌++◌, arith, ◌==◌,
}
use amp_project.Heap.{Ptr, null, Value, node, Heap, Owner, Owners}

-- address and value of each node, in order
abbrev pub Cells : Type 0
Cells = List (Ptr × Value)

abbrev pub has : Ptr → Cells → Bool
has a [] = false
has a ((p, v) ∷ xs) = (a == p) || has a xs

infix 40 ◌∉◌
abbrev pub ◌∉◌ : Ptr → Cells → Type 0
a ∉ xs = has a xs ≡ false

-- where a walk over `xs` that ends at `stop` begins
abbrev pub first : Cells → Ptr → Ptr
first [] stop = stop
first ((p, v) ∷ xs) stop = p

abbrev pub values : Cells → List Value
values [] = []
values ((p, v) ∷ xs) = v ∷ values xs

-- The node at `p` belongs to `o`, and holds value `v` and successor `q`.
pub record Points (h : Heap) (own : Owners) (o : Owner) (p : Ptr) (v : Value) (q : Ptr)
    : Type 0 where
  pub ne_null : p ≢ null
  pub owner : own p ≡ o
  pub holds : h p ≡ some (node v q)

-- From `first xs stop` the `next` pointers lead through the distinct nodes `xs`, all owned by `o`,
-- to `stop`.
pub data Seg (h : Heap) (own : Owners) (o : Owner) (stop : Ptr) : Cells → Type 0 where
  nil : Seg h own o stop []
  cons :
      {p : Ptr} {v : Value} {xs : Cells}
      → Points h own o p v (first xs stop)
      → p ∉ xs
      → Seg h own o stop xs
      → Seg h own o stop ((p, v) ∷ xs)

-- `g` and `own'` differ from `h` and `own` at most at the node `a`
pub record SameBut (a : Ptr) (h g : Heap) (own own' : Owners) : Type 0 where
  pub cells : (b : Ptr) → b ≢ a → g b ≡ h b
  pub owners : (b : Ptr) → b ≢ a → own' b ≡ own b

pub has-concat :
    (a : Ptr) (xs : Cells) (p : Ptr) (v : Value)
    → has a (xs ++ (p, v) ∷ []) ≡ (has a xs || (a == p))
has-concat a [] p v = ground arith
has-concat a ((q, w) ∷ xs) p v = ground (arith, has-concat a xs p v)

pub values-concat :
    (xs : Cells) (p : Ptr) (v : Value) → values (xs ++ (p, v) ∷ []) ≡ values xs ++ v ∷ []
values-concat [] p v = refl
values-concat ((q, w) ∷ xs) p v = cc (values-concat xs p v)

pub first-concat :
    (xs : Cells) (p : Ptr) (v : Value) (stop : Ptr) → first (xs ++ (p, v) ∷ []) stop ≡ first xs p
first-concat [] p v stop = refl
first-concat ((q, w) ∷ xs) p v stop = refl

module _ {h : Heap} {own : Owners} {o : Owner} {stop : Ptr} where
  -- a node that belongs elsewhere is not in the segment
  pub not-mem_of_owner : {xs : Cells} (a : Ptr) → Seg h own o stop xs → own a ≢ o → a ∉ xs
  not-mem_of_owner a nil ne = refl
  not-mem_of_owner a (cons e out s) ne = ground (arith, e.owner, not-mem_of_owner a s ne)

  -- neither is an address that holds no node
  pub not-mem_of_none : {xs : Cells} (a : Ptr) → Seg h own o stop xs → h a ≡ none → a ∉ xs
  not-mem_of_none a nil free = refl
  not-mem_of_none a (cons e out s) free = ground (arith, e.holds, not-mem_of_none a s free)

  pub owner_of_mem : {xs : Cells} (a : Ptr) → Seg h own o stop xs → has a xs ≡ true → own a ≡ o
  owner_of_mem a nil i = cc
  owner_of_mem a (cons {p} e out s) i = elim (Bool-cases (a == p)) [
    | inl here ↦ let at : a ≡ p = ground arith in rw at e.owner
    | inr there ↦ owner_of_mem a s (rw there at i)
  ]

  -- only the nodes of its owner matter to a segment
  pub Seg-agree :
      {g : Heap} {xs : Cells}
      → Seg h own o stop xs
      → ((a : Ptr) → own a ≡ o → g a ≡ h a)
      → Seg g own o stop xs
  Seg-agree nil same = nil
  Seg-agree (cons {p} e out s) same =
      cons (record { ne_null = e.ne_null; owner = e.owner; holds = same p e.owner ∙ e.holds }) out
        (Seg-agree s same)

  -- nor NULL
  pub not-mem_null : {xs : Cells} → Seg h own o stop xs → null ∉ xs
  not-mem_null nil = refl
  not-mem_null (cons e out s) = ground (arith, e.ne_null, not-mem_null s)

  -- a node outside a segment may change hands and contents
  pub Seg-frame :
      {g : Heap} {own' : Owners} {xs : Cells} {a : Ptr}
      → Seg h own o stop xs
      → SameBut a h g own own'
      → a ∉ xs
      → Seg g own' o stop xs
  Seg-frame nil same out = nil
  Seg-frame {a} (cons {p} e new s) same out =
      let ne : p ≢ a = ground arith in
      cons
        (record {
          ne_null = e.ne_null;
          owner = same.owners p ne ∙ e.owner;
          holds = same.cells p ne ∙ e.holds;
        })
        new (Seg-frame s same (ground arith))

-- a node linked behind the segment extends it
pub Seg-concat :
    {h : Heap} {own : Owners} {o : Owner} {stop p : Ptr} {v : Value} {xs : Cells}
    → Seg h own o p xs
    → Points h own o p v stop
    → p ∉ xs
    → Seg h own o stop (xs ++ (p, v) ∷ [])
Seg-concat nil t out = cons t refl nil
Seg-concat {stop} {p} {v} (cons {p = a} {xs} e new s) t out =
    cons (rw first-concat e) (rw (has-concat, new) (ground arith)) (Seg-concat s t (ground arith))

-- The three parts of a segment that is not empty.
module _ {h : Heap} {own : Owners} {o : Owner} {stop p : Ptr} {v : Value} {xs : Cells} where
  pub Seg-head : Seg h own o stop ((p, v) ∷ xs) → Points h own o p v (first xs stop)
  Seg-head (cons e out s) = e

  pub Seg-apart : Seg h own o stop ((p, v) ∷ xs) → p ∉ xs
  Seg-apart (cons e out s) = out

  pub Seg-tail : Seg h own o stop ((p, v) ∷ xs) → Seg h own o stop xs
  Seg-tail (cons e out s) = s
