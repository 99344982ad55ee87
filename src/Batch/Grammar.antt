-- ===== src/Batch/Grammar.antt =====
-- The forms of a batch size pattern in bench.h, as a relation between a text and its specs that does
-- not mention the loops of the parser.
use amp_project.Base.{ℕ, ◌≡◌, ◌≢◌, List, [], ◌∷◌, length}
use amp_project.Batch.{BatchSpec, ok, peek, advance, skip_ws, parse_spec}
use amp_project.Batch.Runtime.{Bytes, Libc}

module _ (libc : Libc) where
  -- From `s` on stand the specs, in order, with commas between them, then the bracket `close`, and
  -- behind it the second text.
  pub data Elements (close : ℕ) : Bytes → List BatchSpec → Bytes → Type 0 where
    last_element :
        {s r : Bytes} {e : BatchSpec}
        → parse_spec libc s ≡ ok (e, r)
        → peek (skip_ws libc r) ≡ close
        → Elements close s (e ∷ []) (advance (skip_ws libc r))
    then_comma :
        {s r p : Bytes} {e : BatchSpec} {es : List BatchSpec}
        → parse_spec libc s ≡ ok (e, r)
        → peek (skip_ws libc r) ≡ b','
        → Elements close (skip_ws libc (advance (skip_ws libc r))) es p
        → Elements close s (e ∷ es) p

  -- Specs in brackets, and nothing behind them.
  pub record Bracketed (open_ch close_ch : ℕ) (s : Bytes) (es : List BatchSpec) : Type 0 where
    pub opened : peek s ≡ open_ch
    pub rest : Bytes
    pub elements : Elements close_ch (skip_ws libc (advance s)) es rest
    pub at_end : peek (skip_ws libc rest) ≡ 0

  -- The text, behind its white space, gives the specs that the `n` threads have in turn: a list to be
  -- repeated, a list with one spec for each thread, or one spec for all.
  pub data Describes (n : ℕ) (s : Bytes) : List BatchSpec → Type 0 where
    repeated_list : {es : List BatchSpec} → Bracketed b'[' b']' s es → Describes n s es
    list_for_each :
        {es : List BatchSpec} → Bracketed b'{' b'}' s es → length es ≡ n → Describes n s es
    one_for_all :
        {e : BatchSpec} {r : Bytes}
        → peek s ≢ b'['
        → peek s ≢ b'{'
        → parse_spec libc s ≡ ok (e, r)
        → peek (skip_ws libc r) ≡ 0
        → Describes n s (e ∷ [])
