-- ===== src/Batch/Listing.antt =====
-- `parse_spec_list` of bench.h: the loop ends, and reads the specs between the brackets.
use amp_project.Base.{
  ℕ, zero, suc, ◌+◌, ◌*◌, ◌<◌, ◌≡◌, refl, sym, subst, ◌∙◌, some, List, [], ◌∷◌, ◌++◌, ◌==◌, arith,
  length, length-append, get_elem?, replicate, Bool-cases, inl, inr,
}
use mathlib.Core.List.{append_assoc}
use amp_project.Batch.{
  BatchSpec, Parsed, ok, ◌>>=◌, peek, advance, skip_ws, grow, parse_elems, parse_spec_list,
}
use amp_project.Batch.Runtime.{Bytes, Libc, StaysInside}
use amp_project.Batch.Grammar.{Elements, last_element, then_comma, Bracketed}
use amp_project.Batch.Parsing.{Ends, ended, died, IsSpec, parse_spec-Spec, skip_ws-le, advance-le}

abbrev pub AllSpecs : List BatchSpec → Type 0
AllSpecs [] = Unit {0}
AllSpecs (e ∷ es) = IsSpec e × AllSpecs es

AllSpecs-concat :
    (es : List BatchSpec) (e : BatchSpec) → AllSpecs es → IsSpec e → AllSpecs (es ++ e ∷ [])
AllSpecs-concat [] e all is = (is, tt)
AllSpecs-concat (x ∷ es) e all is = (all.0, AllSpecs-concat es e all.1 is)

pub AllSpecs-replicate : (n : ℕ) (e : BatchSpec) → IsSpec e → AllSpecs (replicate n e)
AllSpecs-replicate zero e is = tt
AllSpecs-replicate (suc n) e is = (is, AllSpecs-replicate n e is)

pub get_elem?-IsSpec :
    (es : List BatchSpec) (i : ℕ) {e : BatchSpec} → AllSpecs es → get_elem? es i ≡ some e → IsSpec e
get_elem?-IsSpec [] i all h = cc h
get_elem?-IsSpec (x ∷ es) zero {e} all h = let same : e ≡ x = cc h in rw same all.0
get_elem?-IsSpec (x ∷ es) (suc i) all h = get_elem?-IsSpec es i all.1 h

pub bind-Ends :
    {A B : Type 0} {P : A → Type 0} {Q : B → Type 0} {m : Parsed A} (f : A → Parsed B)
    → Ends P m
    → ((a : A) → P a → Ends Q (f a))
    → Ends Q (m >>= f)
bind-Ends f (ended p) next = next _ p
bind-Ends f died next = died

-- What ends well gives a value; it is kept beside what holds of it.
pub Ends-value :
    {A : Type 0} {P : A → Type 0} {m : Parsed A} → Ends P m → Ends (λ a. P a × (m ≡ ok a)) m
Ends-value (ended p) = ended (p, refl)
Ends-value died = died

pub Ends-weaken :
    {A : Type 0} {P Q : A → Type 0} {m : Parsed A} → Ends P m → ((a : A) → P a → Q a) → Ends Q m
Ends-weaken (ended p) f = ended (f _ p)
Ends-weaken died f = died

-- Specs that the program can use, at least one.
abbrev pub SomeSpecs : List BatchSpec → Type 0
SomeSpecs es = AllSpecs es × (0 < length es)

module _ (libc : Libc) (inside : StaysInside libc) where
  grow-Ends : (len cap : ℕ) → Ends (λ _. Unit {0}) (grow libc len cap)
  unfolding grow
  grow-Ends len cap = elim (Bool-cases (len == cap)) [
    | inr room ↦ rw room (ended tt)
    | inl full ↦ rw full (elim (Bool-cases (libc.allocates (cap * 2))) [
      | inl more ↦ rw more (ended tt)
      | inr less ↦ rw less died
    ])
  ]

  -- What `parse_elems` at `s` adds to `elems`: the elements that stand there.
  record Added (close_ch : ℕ) (elems : List BatchSpec) (s : Bytes) (out : List BatchSpec × Bytes)
      : Type 0 where
    new : List BatchSpec
    is : out.0 ≡ elems ++ new
    stand : Elements libc close_ch s new (out.1)
    good : SomeSpecs (out.0)

  -- Each round reads a spec, so the text gets shorter and the fuel lasts.
  parse_elems-Added :
      (close_ch fuel cap : ℕ) (elems : List BatchSpec) (s : Bytes)
      → length s < fuel
      → AllSpecs elems
      → Ends (Added close_ch elems s) (parse_elems libc close_ch fuel cap elems s)
  unfolding parse_elems
  parse_elems-Added close_ch zero cap elems s lt all = absurd (omega arith)
  parse_elems-Added close_ch (suc fuel) cap elems s lt all =
      bind-Ends _ (grow-Ends (length elems) cap) λ cap' _.
        bind-Ends _ (Ends-value (parse_spec-Spec libc inside s)) λ out (p, read).
          let t = skip_ws libc out.1 in
          let all' = AllSpecs-concat elems out.0 all p.0 in
          elim (Bool-cases (peek t == b',')) [
            | inl comma ↦ rw comma (
                Ends-weaken
                  (parse_elems-Added close_ch fuel cap' (elems ++ out.0 ∷ [])
                    (skip_ws libc (advance t))
                    (omega (
                      arith,
                      p.1,
                      skip_ws-le libc inside out.1,
                      skip_ws-le libc inside (advance t),
                      advance-le t,
                    ))
                    all')
                  λ out' a. record {
                    new = out.0 ∷ a.new;
                    is = a.is ∙ append_assoc elems (out.0 ∷ []) a.new;
                    stand = then_comma read (ground arith) a.stand;
                    good = a.good;
                  })
            | inr other ↦ rw other (elim (Bool-cases (peek t == close_ch)) [
              | inl close ↦ rw close (
                  ended (record {
                    new = out.0 ∷ [];
                    is = refl;
                    stand = last_element read (ground arith);
                    good = (all', omega (arith, length-append elems (out.0 ∷ [])));
                  }))
              | inr junk ↦ rw junk died
            ])
          ]

  -- The list is what stands in the brackets behind white space.
  pub parse_spec_list-Bracketed :
      (open_ch close_ch : ℕ) (s : Bytes)
      → Ends
          (λ es. SomeSpecs es × Bracketed libc open_ch close_ch (skip_ws libc s) es)
          (parse_spec_list libc open_ch close_ch s)
  unfolding parse_spec_list
  parse_spec_list-Bracketed open_ch close_ch s =
      let t = skip_ws libc s in
      let u = skip_ws libc (advance t) in
      elim (Bool-cases (peek t == open_ch)) [
        | inr other ↦ rw other died
        | inl opened ↦ rw opened (elim (Bool-cases (libc.allocates 8)) [
          | inr less ↦ rw less died
          | inl memory ↦ rw memory (elim (Bool-cases (peek u == close_ch)) [
            | inl closed ↦ rw closed died
            | inr more ↦ rw more (
                bind-Ends _ (parse_elems-Added close_ch (length u + 1) 8 [] u (omega arith) tt)
                  λ out a. elim (Bool-cases (peek (skip_ws libc out.1) == 0)) [
                    | inl at_end ↦ rw at_end (
                        ended (
                          a.good,
                          record {
                            opened = ground arith;
                            rest = out.1;
                            elements =
                                subst (λ es. Elements libc close_ch u es (out.1)) (sym a.is)
                                  a.stand;
                            at_end = ground arith;
                          },
                        ))
                    | inr junk ↦ rw junk died
                  ])
          ])
        ])
      ]
