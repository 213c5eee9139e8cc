-- ===== src/Server/Api/Pages.antt =====
-- The events on a page of a task's output.
use mathlib.Core.Path.{subst}
use codexbot.Common.{
  ℕ, zero, suc, ◌+◌, ◌≤◌, ◌<◌, ◌≡◌, inl, inr, Bool, true, ◌&&◌, String, List, [], ◌∷◌, arith,
  eq_iff, ◌==◌, length, take, map, select, All, All-mono, ltb, Bool-cases, ℤ, pos, ok,
}
use codexbot.Domain.Records.{Event}
use codexbot.Store.Database.{Db}
use codexbot.Store.Tasks.Query.{collaboration_limit}
use codexbot.Store.Timeline.Outbox.{
  sort_by_sequence, is_beyond, events_after, events_after_limit, shortened,
}
use codexbot.Store.Timeline.Outbox.Sorted.{insert-All}
use codexbot.Server.Api.Read.{page_bytes, fitting, first_page}

module _ (P : Event → Type 0) where
  sort-All : (es : List Event) → All P es → All P (sort_by_sequence es)
  unfolding sort_by_sequence
  sort-All [] h = tt
  sort-All (e ∷ es) (h, hs) = insert-All P e (sort_by_sequence es) h (sort-All es hs)

  pub take-All : (n : ℕ) (es : List Event) → All P es → All P (take n es)
  take-All zero es h = tt
  take-All (suc n) [] h = tt
  take-All (suc n) (e ∷ es) (h, hs) = (h, take-All n es hs)

  map-All :
      (f : Event → Event)
      → ((e : Event) → P e → P (f e))
      → (es : List Event) → All P es
      → All P (map f es)
  map-All f k [] h = tt
  map-All f k (e ∷ es) (h, hs) = (k e h, map-All f k es hs)

  fitting-All :
      (size : Event → ℕ) (used : ℕ) (es : List Event) → All P es → All P (fitting size used es)
  unfolding fitting
  fitting-All size used [] h = tt
  fitting-All size used (e ∷ es) (h, hs) = elim (Bool-cases (ltb page_bytes (used + size e))) [
    | inl b ↦ rw b tt
    | inr b ↦ rw b (h, fitting-All size (used + size e) es hs)
  ]

  pub first_page-All : (size : Event → ℕ) (es : List Event) → All P es → All P (first_page size es)
  unfolding first_page
  first_page-All size [] h = tt
  first_page-All size (e ∷ es) (h, hs) = (h, fitting-All size (size e) es hs)

select-All : (p : Event → Bool) (es : List Event) → All (λ e. p e ≡ true) (select p es)
select-All p [] = tt
select-All p (e ∷ es) = elim (Bool-cases (p e)) [
  | inl b ↦ rw b (b, select-All p es)
  | inr b ↦ rw b (select-All p es)
]

pub take-length : (n : ℕ) (es : List Event) → length (take n es) ≤ n
take-length zero es = omega arith
take-length (suc n) [] = omega arith
take-length (suc n) (e ∷ es) = omega (arith, take-length n es)

fitting-length :
    (size : Event → ℕ) (used : ℕ) (es : List Event) → length (fitting size used es) ≤ length es
unfolding fitting
fitting-length size used [] = omega arith
fitting-length size used (e ∷ es) = ground (arith, fitting-length size (used + size e) es)

pub first_page-length :
    (size : Event → ℕ) (es : List Event) → length (first_page size es) ≤ length es
unfolding first_page
first_page-length size [] = omega arith
first_page-length size (e ∷ es) = omega (arith, fitting-length size (size e) es)

-- An event of the run that comes after a sequence.
abbrev pub IsOutput : String → ℕ → Event → Type 0
IsOutput run_id after e = (e.run_id ≡ run_id) × (after < e.sequence)

pub events-IsOutput :
    (preview : String → String) (run_id : String) (after : ℕ) (limit : ℤ) (db : Db)
    (es : List Event)
    → events_after_limit preview run_id (pos after) limit db ≡ ok es
    → All (IsOutput run_id after) es
unfolding events_after_limit events_after
events-IsOutput preview run_id after limit db es h =
    let mine = λ (e : Event). e.run_id == run_id && is_beyond (pos after) e.sequence in
    let P = IsOutput run_id after in
    let selected : All P (select mine db.events) =
      All-mono (λ e. mine e ≡ true) P
        (λ e m. (ground (arith, m, eq_iff e.run_id run_id), ground (arith, m)))
        (select mine db.events) (select-All mine db.events) in
    let shown =
      map-All P (λ (e : Event). record e { payload = shortened preview e.payload }) (λ e k. k) _
        (take-All P (collaboration_limit limit) _ (sort-All P (select mine db.events) selected)) in
    subst (All P) (ground arith) shown
