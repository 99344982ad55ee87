-- ===== src/Lending/System.antt =====
-- The threads of `small_bench`: each turn is a critical section, and the turns interleave in any
-- order. A thread whose loop has ended takes no more turns.
use amp_project.Base.{
  ℕ, zero, suc, ◌+◌, ◌^◌, ◌<◌, ◌≡◌, refl, ◌∙◌, some, List, ◌⊎◌, inl, inr, arith, get_elem?, set,
  replicate, get_elem?-set_self, get_elem?-set_ne, get_elem?-lt, ℕ_discrete, dec_lt,
}
use amp_project.Lending.{Library, Reader, turn, stocked, new_reader}
use amp_project.Lending.Totals.{total, total-set}
use amp_project.Lending.Turn.{turn-Turned, turn-failed, chosen}

pub record Room : Type 0 where
  pub library : Library
  pub readers : List Reader

abbrev pub opening : ℕ → Room
opening n = record { library = stocked; readers = replicate n new_reader }

-- Reader `t` takes a turn with the number that it drew.
pub data Step (times : ℕ) (s : Room) : Room → Type 0 where
  take_turn :
      (t choice : ℕ) {r : Reader}
      → get_elem? s.readers t ≡ some r
      → r.i < times
      → Step times s (record {
        library = (turn choice s.library r).0;
        readers = set s.readers t (turn choice s.library r).1;
      })

pub data Reach (n times : ℕ) : Room → Type 0 where
  start : Reach n times (opening n)
  next : {s s' : Room} → Reach n times s → Step times s s' → Reach n times s'

abbrev pub art_held : Reader → ℕ
art_held r = r.herlihy_shavit_luchangco_spear

abbrev pub c_held : Reader → ℕ
c_held r = r.kernigham_ritchie

abbrev pub lends : Reader → ℕ
lends r = r.counters.successful_lends

abbrev pub returns : Reader → ℕ
returns r = r.i

-- A reader that goes on and has a book to give back.
pub record Giver (times : ℕ) (s : Room) : Type 0 where
  pub thread : ℕ
  pub reader : Reader
  pub present : get_elem? s.readers thread ≡ some reader
  pub unfinished : reader.i < times
  pub holding : 0 < art_held reader + c_held reader

pub record Inv (times : ℕ) (s : Room) : Type 0 where
  pub art : s.library.art_of_multiprocessor_programming + total art_held s.readers ≡ 20
  pub c : s.library.the_c_programming_language + total c_held s.readers ≡ 20
  pub balance :
      total lends s.readers
      ≡ total returns s.readers + total art_held s.readers + total c_held s.readers
  pub giver :
      (s.library.art_of_multiprocessor_programming + s.library.the_c_programming_language ≡ 0)
      → Giver times s

total-replicate : (f : Reader → ℕ) (n : ℕ) → f new_reader ≡ 0 → total f (replicate n new_reader) ≡ 0
total-replicate f zero e = refl
total-replicate f (suc n) e = omega (arith, total-replicate f n e)

opening-Inv : (n times : ℕ) → Inv times (opening n)
opening-Inv n times = record {
  art = omega (arith, total-replicate art_held n refl);
  c = omega (arith, total-replicate c_held n refl);
  balance = omega (
    arith,
    total-replicate art_held n refl,
    total-replicate c_held n refl,
    total-replicate lends n refl,
    total-replicate returns n refl,
  );
  giver = λ e. absurd (omega arith);
}

-- A turn that leaves the library empty lent its last book, or changed neither books nor rounds.
turn-empty :
    (choice : ℕ) (l : Library) (r : Reader)
    → (turn choice l r).0.art_of_multiprocessor_programming
        + (turn choice l r).0.the_c_programming_language
      ≡ 0
    → ((turn choice l r).1.i ≡ r.i)
      × ((0 < art_held (turn choice l r).1 + c_held (turn choice l r).1)
          ⊎ ((l.art_of_multiprocessor_programming + l.the_c_programming_language ≡ 0)
              × (art_held (turn choice l r).1 + c_held (turn choice l r).1
                  ≡ art_held r + c_held r)))
unfolding turn
turn-empty choice l r e = (ground arith, ground arith)

-- Reader `t` goes from `r` to `r'`.
module _ {times : ℕ} {s : Room} (inv : Inv times s) (t choice : ℕ) {r : Reader}
    (at : get_elem? s.readers t ≡ some r) (more : r.i < times) where
  abbrev moved : Room
  moved = record {
    library = (turn choice s.library r).0;
    readers = set s.readers t (turn choice s.library r).1;
  }

  turn-Giver :
      moved.library.art_of_multiprocessor_programming + moved.library.the_c_programming_language ≡ 0
      → Giver times moved
  turn-Giver e = elim (turn-empty choice s.library r e).1 [
    | inl some_held ↦ record {
      thread = t;
      reader = (turn choice s.library r).1;
      present = get_elem?-set_self s.readers t _ (get_elem?-lt s.readers t at);
      unfinished = omega (arith, (turn-empty choice s.library r e).0);
      holding = some_held;
    }
    | inr (was_empty, same) ↦ keep (inv.giver was_empty) same
  ]
    where
      keep :
          Giver times s
          → art_held (turn choice s.library r).1 + c_held (turn choice s.library r).1
            ≡ art_held r + c_held r
          → Giver times moved
      keep g same = elim (ℕ_discrete t g.thread) [
        | yes here ↦
            let at' : get_elem? s.readers t ≡ some g.reader = rw here g.present in
            let is_r : g.reader ≡ r = cc in
            record {
              thread = t;
              reader = (turn choice s.library r).1;
              present = get_elem?-set_self s.readers t _ (get_elem?-lt s.readers t at);
              unfinished = omega (arith, (turn-empty choice s.library r e).0);
              holding = omega (arith, same, rw is_r at g.holding);
            }
        | no other ↦ record {
          thread = g.thread;
          reader = g.reader;
          present = get_elem?-set_ne s.readers t g.thread _ other ∙ g.present;
          unfinished = g.unfinished;
          holding = g.holding;
        }
      ]

  turn-Inv : Inv times moved
  turn-Inv =
      let d = turn-Turned choice s.library r in
      let r' = (turn choice s.library r).1 in
      record {
        art = omega (arith, inv.art, d.art_kept, total-set art_held s.readers t r r' at);
        c = omega (arith, inv.c, d.c_kept, total-set c_held s.readers t r r' at);
        balance = omega (
          arith,
          inv.balance,
          d.balance,
          total-set art_held s.readers t r r' at,
          total-set c_held s.readers t r r' at,
          total-set lends s.readers t r r' at,
          total-set returns s.readers t r r' at,
        );
        giver = turn-Giver;
      }

-- In every reachable state both books add up to 20 copies, in the library and with the readers, and
-- each lend is matched by a return or by a book that is still held.
pub Reach-Inv : {n times : ℕ} {s : Room} → Reach n times s → Inv times s
Reach-Inv {n} {times} start = opening-Inv n times
Reach-Inv (next r (take_turn t choice at more)) = turn-Inv (Reach-Inv r) t choice at more

-- A reader that goes on, and a draw with which its turn lends or returns a book.
pub record Progress (times : ℕ) (s : Room) : Type 0 where
  pub thread : ℕ
  pub reader : Reader
  pub choice : ℕ
  pub present : get_elem? s.readers thread ≡ some reader
  pub unfinished : reader.i < times
  pub succeeds :
      (turn choice s.library reader).1.counters.failed_turns ≡ reader.counters.failed_turns

module _ {times : ℕ} {s : Room} (t : ℕ) {r : Reader} (at : get_elem? s.readers t ≡ some r)
    (more : r.i < times) where
  progress : (choice : ℕ) → 0 < chosen choice s.library r → Progress times s
  progress choice some_copy = record {
    thread = t;
    reader = r;
    choice = choice;
    present = at;
    unfinished = more;
    succeeds = (turn-failed choice s.library r).1 some_copy;
  }

  -- a draw for a book that the library or the reader has
  some-Progress :
      0
        < s.library.art_of_multiprocessor_programming
          + s.library.the_c_programming_language
          + art_held r
          + c_held r
      → Progress times s
  some-Progress h = elim (dec_lt 0 (s.library.art_of_multiprocessor_programming + art_held r)) [
    | yes art ↦ progress (2 ^ 30 + 1) art
    | no none_art ↦ progress 0 (omega arith)
  ]

-- No deadlock: while some reader goes on, some reader that goes on can take a turn that succeeds,
-- although readers that have ended keep the books that they hold.
pub no_deadlock :
    {n times : ℕ} {s : Room}
    → Reach n times s
    → (t : ℕ) {r : Reader} → get_elem? s.readers t ≡ some r
    → r.i < times
    → Progress times s
no_deadlock {times} {s} reach t {r} at more =
    elim (dec_lt 0
      (s.library.art_of_multiprocessor_programming + s.library.the_c_programming_language)) [
        | yes stock ↦ some-Progress t at more (omega arith)
        | no is_empty ↦
            let g = (Reach-Inv reach).giver (omega arith) in
            some-Progress g.thread g.present g.unfinished (omega (arith, g.holding))
      ]
