-- ===== src/Store/Sidebar/Update.antt =====
-- What an accepted update of the sidebar stores.
use mathlib.Core.Path.{ap₂}
use mathlib.Core.List.{append-nil}
use codexbot.Common.{
  ℕ, ◌+◌, ◌≡◌, ◌≢◌, refl, ap, ◌∙◌, inl, inr, true, String, List, [], ◌∷◌, ◌++◌, arith, eq_iff,
  eq_refl, select, ok, Result-cases, Bool-cases,
}
use codexbot.Domain.Layout.{SidebarSection, Layout, sectioned}
use codexbot.Store.Sidebar.{
  SidebarRow, member, remove, take_active, take_sections, sidebar_layout, validate_sidebar,
  place_all, is_empty, update_layout,
}
use codexbot.Store.Sidebar.Partition.{
  occurrences, IsDistinct, placed, occurrences-append, occurrences-remove, occurs_once,
  remove-IsDistinct, not_member-occurrences, left-IsDistinct, sections_left-IsDistinct,
}

-- Taking identifiers out of the active ones leaves the others.
place_all-divides :
    (id : String) (ids active left : List String)
    → IsDistinct active
    → place_all ids active ≡ ok left
    → occurrences id ids + occurrences id left ≡ occurrences id active
unfolding place_all
place_all-divides id [] active left d h =
    let same : active ≡ left = ground arith in rw same (omega arith)
place_all-divides id (x ∷ ids) active left d h = elim (Bool-cases (member x active)) [
  | inr e ↦ absurd (ground (arith, e))
  | inl e ↦
      let ih =
        place_all-divides id ids (remove x active) left (remove-IsDistinct x active d)
          (ground (arith, e)) in
      ground
        (arith, ih, occurrences-remove id x active, eq_iff x id, d id, occurs_once id x active d e)
]

record Accepted (revision : ℕ) (l : Layout) (ids : List String) (row row' : SidebarRow)
    : Type 0 where
  valid : Layout
  current : row.revision ≡ revision
  all_placed : place_all (valid.unsectioned_agent_ids ++ sectioned valid.sections) ids ≡ ok []
  stored : row' ≡ record { revision = revision + 1; layout = valid }

none_left : (left : List String) → is_empty left ≡ true → left ≡ []
none_left [] h = refl
none_left (x ∷ xs) h = ground arith

update_layout-Accepted :
    (revision : ℕ) (l : Layout) (ids : List String) (row row' : SidebarRow)
    → update_layout revision l ids row ≡ ok row'
    → Accepted revision l ids row row'
unfolding update_layout
update_layout-Accepted revision l ids row row' h = elim (Result-cases (validate_sidebar l)) [
  | inr (x, e) ↦ absurd (ground (arith, e))
  | inl (valid, e) ↦
      let order = valid.unsectioned_agent_ids ++ sectioned valid.sections in
      elim (Result-cases (place_all order ids)) [
        | inr (x, e') ↦ absurd (ground (arith, e, e'))
        | inl (left, e') ↦
            let done : left ≡ [] = none_left left (ground (arith, e, e')) in
            record {
              valid = valid;
              current = ground (arith, e, e');
              all_placed = e' ∙ ap ok done;
              stored = ground (arith, e, e');
            }
      ]
]

module _ (revision : ℕ) (l : Layout) (ids : List String) (row row' : SidebarRow)
    (d : IsDistinct ids) (accepted : update_layout revision l ids row ≡ ok row') where
  -- An accepted update was made against the stored revision, takes the next one, and stores a
  -- layout that places every active agent exactly once and no other, where no two agents share an
  -- identifier.
  pub update_layout-places :
      (row.revision ≡ revision)
      × (row'.revision ≡ revision + 1)
      × ((id : String) → occurrences id (placed row'.layout) ≡ occurrences id ids)
  update_layout-places =
      let a = update_layout-Accepted revision l ids row row' accepted in
      (
        a.current,
        ap (λ (r : SidebarRow). r.revision) a.stored,
        λ id. rw a.stored (
            omega (
              arith,
              place_all-divides id _ ids [] d a.all_placed,
              occurrences-append id a.valid.unsectioned_agent_ids (sectioned a.valid.sections),
              occurrences-append id (sectioned a.valid.sections) a.valid.unsectioned_agent_ids,
            )),
      )

  -- Two clients that saw the same revision cannot both succeed: once an update is accepted, none
  -- against the revision that it replaced is.
  pub update_layout_once :
      (l' : Layout) (ids' : List String) (row'' : SidebarRow)
      → update_layout revision l' ids' row' ≢ ok row''
  update_layout_once l' ids' row'' h =
      let a = update_layout-Accepted revision l ids row row' accepted in
      let b = update_layout-Accepted revision l' ids' row' row'' h in
      absurd (omega (arith, b.current, ap (λ (r : SidebarRow). r.revision) a.stored))

-- A list of which nothing is missing among the active identifiers is taken whole.
take_active-whole :
    (ids rest active : List String)
    → IsDistinct active
    → ((id : String) → occurrences id ids + occurrences id rest ≡ occurrences id active)
    → ((take_active ids active).0 ≡ ids)
      × ((id : String) → occurrences id (take_active ids active).1 ≡ occurrences id rest)
unfolding take_active
take_active-whole [] rest active d h = (refl, λ id. omega (arith, h id))
take_active-whole (x ∷ ids) rest active d h = elim (Bool-cases (member x active)) [
  | inr e ↦ absurd (ground (arith, not_member-occurrences x active e, h x, eq_refl x))
  | inl e ↦
      let ih = take_active-whole ids rest (remove x active) (remove-IsDistinct x active d) (λ id.
        ground (
          arith,
          h id,
          occurrences-remove id x active,
          eq_iff x id,
          occurs_once id x active d e,
        )) in
      rw e (ap (λ (ys : List String). x ∷ ys) ih.0, ih.1)
]

take_sections-whole :
    (ss : List SidebarSection) (rest active : List String)
    → IsDistinct active
    → ((id : String) → occurrences id (sectioned ss) + occurrences id rest ≡ occurrences id active)
    → ((take_sections ss active).0 ≡ ss)
      × ((id : String) → occurrences id (take_sections ss active).1 ≡ occurrences id rest)
unfolding take_sections
take_sections-whole [] rest active d h = (refl, λ id. omega (arith, h id))
take_sections-whole (s ∷ ss) rest active d h =
    let (mine, left) = take_active-whole s.agent_ids (sectioned ss ++ rest) active d (λ id. omega (
      arith,
      h id,
      occurrences-append id (sectioned ss) rest,
      occurrences-append id s.agent_ids (sectioned ss),
    )) in
    let (others, last) =
      take_sections-whole ss rest (take_active s.agent_ids active).1
        (left-IsDistinct s.agent_ids active d)
        (λ id. omega (arith, left id, occurrences-append id (sectioned ss) rest)) in
    (λ i. record s { agent_ids = mine i } ∷ others i, last)

nil_of_occurrences : (left : List String) → ((id : String) → occurrences id left ≡ 0) → left ≡ []
nil_of_occurrences [] h = refl
nil_of_occurrences (x ∷ xs) h = absurd (ground (arith, h x, eq_refl x))

select_none : (ids : List String) → select (λ (x : String). member x []) ids ≡ []
select_none [] = refl
select_none (x ∷ xs) = select_none xs

-- What an accepted update stored is what the sidebar shows, as long as the active agents are the
-- same: no agent moves, and none is added at the end.
pub sidebar-update :
    (revision : ℕ) (l : Layout) (ids : List String) (row row' : SidebarRow)
    → IsDistinct ids
    → update_layout revision l ids row ≡ ok row'
    → sidebar_layout row'.layout ids ≡ row'.layout
unfolding sidebar_layout
sidebar-update revision l ids row row' d accepted =
    let (_, _, places) = update_layout-places revision l ids row row' d accepted in
    let stored = row'.layout in
    let (sections, left) =
      take_sections-whole stored.sections stored.unsectioned_agent_ids ids d (λ id. omega (
        arith,
        places id,
        occurrences-append id (sectioned stored.sections) stored.unsectioned_agent_ids,
      )) in
    let (loose, last) =
      take_active-whole stored.unsectioned_agent_ids [] (take_sections stored.sections ids).1
        (sections_left-IsDistinct stored.sections ids d) (λ id. omega (arith, left id)) in
    let rest = (take_active stored.unsectioned_agent_ids (take_sections stored.sections ids).1).1 in
    let empty : rest ≡ [] = nil_of_occurrences rest last in
    let none_more : select (λ x. member x rest) ids ≡ [] = rw empty (select_none ids) in
    λ i. record {
      sections = sections i;
      unsectioned_agent_ids =
          (ap₂ (λ (xs ys : List String). xs ++ ys) loose none_more
              ∙ append-nil stored.unsectioned_agent_ids)
            i;
    }
