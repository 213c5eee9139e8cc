-- ===== src/Store/Timeline/Page/Bounds.antt =====
-- How much of a timeline a page takes.
use mathlib.Core.Path.{subst}
use codexbot.Common.{
  ℕ, suc, zero, ◌≤◌, ◌<◌, ◌≡◌, refl, ap, ◌⊎◌, ◌++◌, ◌==◌, not, inl, inr, Bool, true, ◌&&◌, String,
  List, [], ◌∷◌, arith, map, select, take, length, ltb, All, Bool-cases, ℤ, pos, negsuc, ok,
}
use codexbot.Domain.Records.{Event}
use codexbot.Store.Database.{Db, TimelineRow}
use codexbot.Store.Timeline.{event_of, is_scheduled_run}
use codexbot.Store.Timeline.Page.{
  page_limit, is_visible, in_window, timeline_page, agent_timeline_after,
}

take-All :
    (P : Event → Type 0) (n : ℕ) (rows : List TimelineRow)
    → All (λ row. P (event_of row)) rows
    → All P (map event_of (take n rows))
take-All P zero rows h = tt
take-All P (suc n) [] h = tt
take-All P (suc n) (x ∷ xs) (h, hs) = (h, take-All P n xs hs)

select-All :
    (w : TimelineRow → Bool) (P : TimelineRow → Type 0)
    → ((row : TimelineRow) → w row ≡ true → P row)
    → (rows : List TimelineRow) → All P (select w rows)
select-All w P f [] = tt
select-All w P f (x ∷ xs) = elim (Bool-cases (w x)) [
  | inl e ↦ rw e (f x e, select-All w P f xs)
  | inr e ↦ rw e (select-All w P f xs)
]

-- A page of a list: its first rows, all of them if they are no more than the limit.
pub record IsPage (limit : ℕ) (page all : List Event) : Type 0 where
  pub rest : List Event
  pub split : all ≡ page ++ rest
  pub full : (length page ≡ limit) ⊎ ((rest ≡ []) × (length page ≤ limit))

take-IsPage :
    (n : ℕ) (rows : List TimelineRow) → IsPage n (map event_of (take n rows)) (map event_of rows)
take-IsPage zero rows = record { rest = map event_of rows; split = refl; full = inl refl }
take-IsPage (suc n) [] = record { rest = []; split = refl; full = inr (refl, omega arith) }
take-IsPage (suc n) (x ∷ xs) =
    let p = take-IsPage n xs in
    record {
      rest = p.rest;
      split = ap (λ es. event_of x ∷ es) p.split;
      full = elim p.full [ inl e ↦ inl (ap suc e) | inr (e, le) ↦ inr (e, omega (arith, le)) ];
    }

-- The limit that a request for so many events gets.
pub data LimitOf : ℤ → ℕ → Type 0 where
  chosen : (n : ℕ) → 1 ≤ n → n ≤ 2001 → LimitOf (pos n) n
  none_chosen : LimitOf (pos 0) 500
  negative : (n : ℕ) → LimitOf (negsuc n) 500
  too_many : (n : ℕ) → 2001 < n → LimitOf (pos n) 2001

page_limit-LimitOf : {limit : ℤ} {n : ℕ} → LimitOf limit n → page_limit limit ≡ n
unfolding page_limit
page_limit-LimitOf (chosen n low high) = ground arith
page_limit-LimitOf none_chosen = refl
page_limit-LimitOf (negative n) = refl
page_limit-LimitOf (too_many n more) = ground arith

-- The events of the agent's timeline beyond the cursor, but for those of scheduled runs.
abbrev pub beyond : String → ℕ → Db → List Event
beyond agent after db = map event_of (
    select
      (λ row.
        (row.agent_id == agent && not (is_scheduled_run db row.run_id)) && ltb after row.sequence)
      db.agent_timeline)

select-same :
    (p q : TimelineRow → Bool)
    → ((row : TimelineRow) → p row ≡ q row)
    → (rows : List TimelineRow) → select p rows ≡ select q rows
select-same p q h [] = refl
select-same p q h (x ∷ xs) = ground (arith, h x, select-same p q h xs)

window-beyond :
    (agent : String) (after : ℕ) (db : Db) (rows : List TimelineRow)
    → select (λ row. is_visible db agent row && in_window after 0 true row) rows
      ≡ select
          (λ row.
            (row.agent_id == agent && not (is_scheduled_run db row.run_id))
            && ltb after row.sequence)
          rows
window-beyond agent after db = select-same _ _ (λ row. ground arith)

-- An incremental page whose cursor is not negative is never refused, and has the first events of the agent's timeline beyond the
-- cursor, but for those of scheduled runs: as many as the limit if there are so many, else all. The
-- limit is the one asked for if it is between 1 and 2001, else 500 if it is less and 2001 if it is
-- more.
pub agent_timeline_after_bounds :
    (agent : String) (after : ℕ) (limit : ℤ) (db : Db) (n : ℕ)
    → LimitOf limit n
    → (es : List Event) × (agent_timeline_after agent (pos after) limit db ≡ ok es)
      × IsPage n es (beyond agent after db)
      × All (λ e. after < e.sequence) es
unfolding agent_timeline_after timeline_page
agent_timeline_after_bounds agent after limit db n chosen_limit =
    let window = λ (row : TimelineRow). is_visible db agent row && in_window after 0 true row in
    let rows = select window db.agent_timeline in
    let page =
      subst
        (λ all.
          IsPage (page_limit limit) (map event_of (take (page_limit limit) rows))
            (map event_of all))
        (window-beyond agent after db db.agent_timeline) (take-IsPage (page_limit limit) rows) in
    (
      map event_of (take (page_limit limit) rows),
      ground arith,
      subst (λ k. IsPage k (map event_of (take (page_limit limit) rows)) (beyond agent after db))
          (page_limit-LimitOf chosen_limit) page,
      take-All (λ e. after < e.sequence) (page_limit limit) rows
          (select-All window (λ row. after < row.sequence) (λ row e. ground (arith, e))
            db.agent_timeline),
    )
