-- ===== src/Batch/Runtime.antt =====
-- What bench.h uses of the C library.
use amp_project.Base.{ℕ, ◌≤◌, ◌≡◌, Bool, true, false, ◌&&◌, List, [], ◌∷◌, ◌++◌, leb, length}

abbrev pub Bytes : Type 0
Bytes = List ℕ

-- `negsuc n` is -(n + 1).
pub data ℤ : Type 0 where
  pos : ℕ → ℤ
  negsuc : ℕ → ℤ

-- INT32_MAX
abbrev pub int_max : ℕ
int_max = 2147483647

-- `strtol(s, &end, 10)`: the value, where it stopped, and whether it set `errno`.
pub record Conversion : Type 0 where
  pub value : ℤ
  pub end : Bytes
  pub range_error : Bool

-- `allocates n` says whether there is memory for an array of `n` specs; `rand_r` gives a number and
-- the next state.
pub record Libc : Type 0 where
  pub isspace : ℕ → Bool
  pub strtol : Bytes → Conversion
  pub atoi : Bytes → ℤ
  pub allocates : ℕ → Bool
  pub rand_r : ℕ → ℕ × ℕ

-- `end` points into the text that was handed over.
abbrev pub StaysInside : Libc → Type 0
StaysInside libc = (s : Bytes) → length (libc.strtol s).end ≤ length s

abbrev pub is_digit : ℕ → Bool
is_digit c = leb b'0' c && leb c b'9'

-- whether the text goes on with a digit
abbrev pub digit_next : Bytes → Bool
digit_next [] = false
digit_next (c ∷ s) = is_digit c

-- `strtol` reads what `printf("%d")` writes for a number that is not negative, up to the first byte
-- that is no digit; such a text begins with a digit; and neither digits nor the marks of a tuple are
-- white space.
pub record ReadsBack (libc : Libc) (decimal : ℕ → Bytes) : Type 0 where
  pub reads :
      (n : ℕ) (rest : Bytes)
      → n ≤ int_max
      → digit_next rest ≡ false
      → libc.strtol (decimal n ++ rest) ≡ record { value = pos n; end = rest; range_error = false }
  pub begins : (n : ℕ) → digit_next (decimal n) ≡ true
  pub no_space : (c : ℕ) → is_digit c ≡ true → libc.isspace c ≡ false
  pub open_mark : libc.isspace b'(' ≡ false
  pub comma : libc.isspace b',' ≡ false
  pub close_mark : libc.isspace b')' ≡ false
