-- ===== src/Clock/Order.antt =====
-- How the order of stored times differs from the order of times.
use codexbot.Common.{
  ℕ, ◌<◌, ◌≡◌, ◌≢◌, refl, sym, ◌⊎◌, ◌↔◌, true, false, List, [], ◌∷◌, arith, All, inl, inr, ap,
}
use codexbot.Clock.{
  Time, second, seconds, nanos, fraction_digits, trim_zeros, after_seconds, suffix, bytes_before,
  before, at_most,
}

trim_zeros-nil : (ds : List ℕ) → trim_zeros ds ≡ [] → All (λ d. d ≡ 0) ds
unfolding trim_zeros
trim_zeros-nil [] h = tt
trim_zeros-nil (d ∷ ds) h = ground (arith, trim_zeros-nil ds)

trim_zeros_whole : (t : Time) → nanos t ≡ 0 → trim_zeros (fraction_digits (nanos t)) ≡ []
unfolding trim_zeros
trim_zeros_whole t h = ground arith

digits_zero : (n : ℕ) → n < second → All (λ d. d ≡ 0) (fraction_digits n) → n ≡ 0
digits_zero n h (a, (b, (c, (d, (e, (f, (g, (i, (j, _))))))))) = omega arith

suffix_whole : (t : Time) → nanos t ≡ 0 → suffix t ≡ b'Z' ∷ []
unfolding suffix
suffix_whole t h = ap after_seconds (trim_zeros_whole t h)

starts_with_point : (ds : List ℕ) → ds ≢ [] → (rest : List ℕ) × (after_seconds ds ≡ b'.' ∷ rest)
starts_with_point [] h = absurd (h refl)
starts_with_point (d ∷ ds) h = (_, refl)

suffix_fraction : (t : Time) → nanos t ≢ 0 → (rest : List ℕ) × (suffix t ≡ b'.' ∷ rest)
unfolding suffix
suffix_fraction t h =
    starts_with_point (trim_zeros (fraction_digits (nanos t)))
      λ e. h (digits_zero (nanos t) (omega arith) (trim_zeros-nil _ e))

-- Between different seconds the stored order is the order of the times.
pub before-of_seconds :
    (a b : Time) → seconds a < seconds b → (before a b ≡ true) × (before b a ≡ false)
unfolding before
before-of_seconds a b h = ground arith

-- In one second, a stored fraction comes before the whole second.
pub fraction_before_whole :
    (a b : Time)
    → seconds a ≡ seconds b
    → nanos a ≢ 0
    → nanos b ≡ 0
    → (before a b ≡ true) × (before b a ≡ false)
unfolding before bytes_before
fraction_before_whole a b s ha hb =
    let (rest, e) = suffix_fraction a ha in ground (arith, e, suffix_whole b hb)

whole_cases :
    (a b : Time)
    → nanos a ≡ 0
    → (seconds a < seconds b)
      ⊎ ((a ≡ b) ⊎ ((seconds b < seconds a) ⊎ ((seconds a ≡ seconds b) × (nanos b ≢ 0))))
whole_cases a b h = ground arith

-- A stored time of a whole second is at most another stored time exactly if that lies in a later
-- second or is the same instant: the other instants of its own second count as earlier.
pub at_most_whole :
    (a b : Time) → nanos a ≡ 0 → (at_most a b ≡ true) ↔ ((seconds a < seconds b) ⊎ (a ≡ b))
unfolding before bytes_before
at_most_whole a b h = elim (whole_cases a b h) [
  | inl later ↦ ground (arith, before-of_seconds a b later)
  | inr (inl same) ↦ ground (arith, suffix_whole a h)
  | inr (inr (inl earlier)) ↦ ground (arith, before-of_seconds b a earlier)
  | inr (inr (inr (s, n))) ↦ ground (arith, fraction_before_whole b a (sym s) n h)
]
