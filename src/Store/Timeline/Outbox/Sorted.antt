-- ===== src/Store/Timeline/Outbox/Sorted.antt =====
-- What a client that reads the outbox gets.
use codexbot.Common.{
  ◌≤◌, ◌≡◌, refl, ◌∙◌, inl, inr, Bool, ◌&&◌, String, List, [], ◌∷◌, arith, select, count, ◌==◌, leb,
  All, All-mono, Bool-cases, ℤ,
}
use codexbot.Domain.Records.{Event}
use codexbot.Store.Database.{Db}
use codexbot.Store.Timeline.Outbox.{insert_by_sequence, sort_by_sequence, is_beyond, events_after}

abbrev pub Follows : Event → Event → Type 0
Follows e x = e.sequence ≤ x.sequence

-- Each event comes after those before it in the list, by its sequence.
abbrev pub IsAscending : List Event → Type 0
IsAscending [] = Unit
IsAscending (e ∷ es) = All (Follows e) es × IsAscending es

pub insert-All :
    (P : Event → Type 0) (e : Event) (es : List Event)
    → P e
    → All P es
    → All P (insert_by_sequence e es)
unfolding insert_by_sequence
insert-All P e [] p h = (p, tt)
insert-All P e (x ∷ xs) p (h, hs) = elim (Bool-cases (leb e.sequence x.sequence)) [
  | inl s ↦ rw s (p, (h, hs))
  | inr s ↦ rw s (h, insert-All P e xs p hs)
]

insert-IsAscending :
    (e : Event) (es : List Event) → IsAscending es → IsAscending (insert_by_sequence e es)
unfolding insert_by_sequence
insert-IsAscending e [] h = (tt, tt)
insert-IsAscending e (x ∷ xs) (h, hs) = elim (Bool-cases (leb e.sequence x.sequence)) [
  | inl s ↦ rw s (
    (ground (arith, s), All-mono (Follows x) (Follows e) (λ y q. ground (arith, s, q)) xs h),
    (h, hs),
  )
  | inr s ↦ rw s (insert-All (Follows x) e xs (ground (arith, s)) h, insert-IsAscending e xs hs)
]

sort-IsAscending : (es : List Event) → IsAscending (sort_by_sequence es)
unfolding sort_by_sequence
sort-IsAscending [] = tt
sort-IsAscending (e ∷ es) = insert-IsAscending e (sort_by_sequence es) (sort-IsAscending es)

count-insert :
    (p : Event → Bool) (e : Event) (es : List Event)
    → count p (insert_by_sequence e es) ≡ count p (e ∷ es)
unfolding insert_by_sequence
count-insert p e [] = refl
count-insert p e (x ∷ xs) = ground (arith, count-insert p e xs)

count-sort : (p : Event → Bool) (es : List Event) → count p (sort_by_sequence es) ≡ count p es
unfolding sort_by_sequence
count-sort p [] = refl
count-sort p (e ∷ es) = ground (arith, count-insert p e (sort_by_sequence es), count-sort p es)

count-select :
    (w p : Event → Bool) (es : List Event) → count p (select w es) ≡ count (λ e. w e && p e) es
count-select w p [] = refl
count-select w p (e ∷ es) = ground (arith, count-select w p es)

-- A reader of the outbox gets the events of the run beyond the sequence in ascending order, each
-- as often as it is stored and no other: by any test, as many of them pass as of those stored.
pub events_after-IsAscending :
    (run_id : String) (after : ℤ) (db : Db)
    → IsAscending (events_after run_id after db)
      × ((p : Event → Bool)
          → count p (events_after run_id after db)
            ≡ count (λ e. (e.run_id == run_id && is_beyond after e.sequence) && p e) db.events)
unfolding events_after
events_after-IsAscending run_id after db =
    let mine = λ (e : Event). e.run_id == run_id && is_beyond after e.sequence in
    (
      sort-IsAscending (select mine db.events),
      λ p. count-sort p (select mine db.events) ∙ count-select mine p db.events,
    )
