-- ===== src/Sequential/Others.antt =====
-- What threads hold outside all lists, and what a step of one of them leaves to the others.
use amp_project.Base.{ℕ, ◌≡◌, ◌≢◌, sym, ◌∙◌, ap, none, some}
use amp_project.Heap.{Ptr, null, Node, held_by, Owners}
use amp_project.Sequential.Memory.{World}

-- Thread `t` holds node `p`.
pub record Held (w : World) (own : Owners) (t : ℕ) (p : Ptr) : Type 0 where
  pub ne_null : p ≢ null
  pub mine : own p ≡ held_by t
  pub content : Node
  pub holds : w.heap p ≡ some content

pub Held-same :
    {w w' : World} {own own' : Owners} {t : ℕ} {p : Ptr}
    → Held w own t p
    → own' p ≡ own p
    → w'.heap p ≡ w.heap p
    → Held w' own' t p
Held-same h owner cell = record {
  ne_null = h.ne_null;
  mine = owner ∙ h.mine;
  content = h.content;
  holds = cell ∙ h.holds;
}

-- Between `w` and `w'` thread `t` took nothing that others hold, and did not write to it.
pub record Untouched (t : ℕ) (w w' : World) (own own' : Owners) : Type 0 where
  pub owner : (u : ℕ) → u ≢ t → (a : Ptr) → Held w own u a → own' a ≡ held_by u
  pub cell : (u : ℕ) → u ≢ t → (a : Ptr) → Held w own u a → w'.heap a ≡ w.heap a

module _ {t : ℕ} {w w' : World} {own own' : Owners} where
  pub Held-Untouched :
      Untouched t w w' own own' → (u : ℕ) → u ≢ t → (a : Ptr) → Held w own u a → Held w' own' u a
  Held-Untouched k u ne a h = record {
    ne_null = h.ne_null;
    mine = k.owner u ne a h;
    content = h.content;
    holds = k.cell u ne a h ∙ h.holds;
  }

  pub Untouched-trans :
      {w2 : World} {own2 : Owners}
      → Untouched t w w' own own'
      → Untouched t w' w2 own' own2
      → Untouched t w w2 own own2
  Untouched-trans j k = record {
    owner = λ u ne a h. k.owner u ne a (Held-Untouched j u ne a h);
    cell = λ u ne a h. k.cell u ne a (Held-Untouched j u ne a h) ∙ j.cell u ne a h;
  }

  -- The owner and the contents of one node change, which no other thread holds.
  pub Untouched-node :
      (p : Ptr)
      → ((u : ℕ) → u ≢ t → own p ≡ held_by u → w.heap p ≡ none)
      → ((b : Ptr) → b ≢ p → own' b ≡ own b)
      → ((b : Ptr) → b ≢ p → w'.heap b ≡ w.heap b)
      → Untouched t w w' own own'
  Untouched-node p out owners cells = record {
    owner = λ u ne a h. owners a (not_p u ne a h) ∙ h.mine;
    cell = λ u ne a h. cells a (not_p u ne a h);
  }
    where
      not_p : (u : ℕ) → u ≢ t → (a : Ptr) → Held w own u a → a ≢ p
      not_p u ne a h e =
          let free = out u ne (ap own (sym e) ∙ h.mine) in cc (ap w.heap e, free, h.holds)

-- No node changes.
pub Untouched-refl :
    {t : ℕ} {w w' : World} {own : Owners}
    → ((a : Ptr) → w'.heap a ≡ w.heap a)
    → Untouched t w w' own own
Untouched-refl same = record { owner = λ u ne a h. h.mine; cell = λ u ne a h. same a }
