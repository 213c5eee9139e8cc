-- ===== src/Clock.antt =====
-- `ts` of internal/store/store.go and the comparisons of stored times: a time is written as
-- RFC 3339 text in UTC with a fraction without trailing zeros, and SQLite compares the texts byte
-- by byte. A time is a number of nanoseconds. The years 0 to 9999 have texts of one width up to
-- the second, whose order is that of the seconds.
pub mod Order
use codexbot.Common.{
  ℕ, ◌+◌, ◌/◌, ◌%◌, ◌++◌, Bool, true, false, not, List, [], ◌∷◌, map, ltb, eqb, if◌then◌else◌,
}

abbrev pub Time : Type 0
Time = ℕ

abbrev pub second : ℕ
second = 1000000000

abbrev pub seconds : Time → ℕ
seconds t = t / second

abbrev pub nanos : Time → ℕ
nanos t = t % second

-- The nine digits of a fraction of a second.
abbrev pub fraction_digits : ℕ → List ℕ
fraction_digits n =
    n / 100000000 % 10
    ∷ n / 10000000 % 10
    ∷ n / 1000000 % 10
    ∷ n / 100000 % 10
    ∷ n / 10000 % 10
    ∷ n / 1000 % 10
    ∷ n / 100 % 10
    ∷ n / 10 % 10
    ∷ n % 10
    ∷ []

-- Without the zeros at the end.
pub trim_zeros : List ℕ → List ℕ
trim_zeros [] = []
trim_zeros (d ∷ ds) = elim (trim_zeros ds) [
  | [] ↦ if eqb d 0 then [] else d ∷ []
  | e ∷ es ↦ d ∷ e ∷ es
]

abbrev pub after_seconds : List ℕ → List ℕ
after_seconds [] = b'Z' ∷ []
after_seconds (d ∷ ds) = b'.' ∷ map (λ e. e + 48) (d ∷ ds) ++ b'Z' ∷ []

-- What the text has after the seconds.
pub suffix : Time → List ℕ
suffix t = after_seconds (trim_zeros (fraction_digits (nanos t)))

-- The order of SQLite's BINARY collation.
pub bytes_before : List ℕ → List ℕ → Bool
bytes_before xs [] = false
bytes_before [] (y ∷ ys) = true
bytes_before (x ∷ xs) (y ∷ ys) =
    let rest = bytes_before xs ys in if ltb x y then true else if ltb y x then false else rest

-- `a < b` of two stored times.
pub before : Time → Time → Bool
before a b =
    if ltb (seconds a) (seconds b)
    then true
    else if ltb (seconds b) (seconds a)
    then false
    else bytes_before (suffix a) (suffix b)

-- `a <= b` of two stored times.
abbrev pub at_most : Time → Time → Bool
at_most a b = not (before b a)
