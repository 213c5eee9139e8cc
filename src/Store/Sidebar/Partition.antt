-- ===== src/Store/Sidebar/Partition.antt =====
-- Where the sidebar shows the active agents.
use mathlib.Core.Path.{subst}
use codexbot.Common.{
  ℕ, ◌+◌, ◌≤◌, ◌<◌, ◌≡◌, refl, sym, ap, ◌∙◌, inl, inr, Bool, true, false, String, List, [], ◌∷◌,
  ◌++◌, arith, eq_iff, ◌==◌, count, select, Bool-cases, count-append, if◌then◌else◌,
}
use codexbot.Domain.Layout.{SidebarSection, Layout, sectioned}
use codexbot.Store.Sidebar.{member, remove, take_active, take_sections, sidebar_layout}

-- How often an identifier stands in a list.
abbrev pub occurrences : String → List String → ℕ
occurrences id = count (λ x. x == id)

-- No identifier stands twice.
abbrev pub IsDistinct : List String → Type 0
IsDistinct ids = (id : String) → occurrences id ids ≤ 1

-- Every agent that a layout places, in order.
abbrev pub placed : Layout → List String
placed l = sectioned l.sections ++ l.unsectioned_agent_ids

pub occurrences-append :
    (id : String) (xs ys : List String)
    → occurrences id (xs ++ ys) ≡ occurrences id xs + occurrences id ys
occurrences-append id = count-append (λ x. x == id)

pub occurrences-remove :
    (id x : String) (xs : List String)
    → occurrences id (remove x xs) ≡ (if x == id then 0 else occurrences id xs)
occurrences-remove id x [] = ground arith
occurrences-remove id x (y ∷ ys) =
    ground (arith, occurrences-remove id x ys, eq_iff y x, eq_iff y id, eq_iff x id)

pub occurs_of_member :
    (id : String) (xs : List String) → member id xs ≡ true → 0 < occurrences id xs
occurs_of_member id [] h = ground arith
occurs_of_member id (x ∷ xs) h = ground (arith, occurs_of_member id xs)

pub not_member-occurrences :
    (id : String) (xs : List String) → member id xs ≡ false → occurrences id xs ≡ 0
not_member-occurrences id [] h = refl
not_member-occurrences id (x ∷ xs) h = ground (arith, not_member-occurrences id xs)

pub remove-IsDistinct : (x : String) (xs : List String) → IsDistinct xs → IsDistinct (remove x xs)
remove-IsDistinct x xs d id = ground (arith, occurrences-remove id x xs, d id)

pub occurs_once :
    (id x : String) (active : List String)
    → IsDistinct active
    → member x active ≡ true
    → x ≡ id
    → occurrences id active ≡ 1
occurs_once id x active d e same = omega (
  arith,
  d id,
  subst (λ (s : String). 0 < occurrences s active) same (occurs_of_member x active e),
)

-- What is taken and what is left are the active identifiers, divided.
pub take_active-divides :
    (id : String) (ids active : List String)
    → IsDistinct active
    → occurrences id (take_active ids active).0 + occurrences id (take_active ids active).1
      ≡ occurrences id active
unfolding take_active
take_active-divides id [] active d = omega arith
take_active-divides id (x ∷ ids) active d = elim (Bool-cases (member x active)) [
  | inl e ↦
      let ih = take_active-divides id ids (remove x active) (remove-IsDistinct x active d) in
      rw e (
        ground (
          arith,
          ih,
          occurrences-remove id x active,
          eq_iff x id,
          d id,
          occurs_once id x active d e,
        ))
  | inr e ↦ rw e (take_active-divides id ids active d)
]

pub left-IsDistinct :
    (ids active : List String) → IsDistinct active → IsDistinct (take_active ids active).1
left-IsDistinct ids active d id = omega (arith, take_active-divides id ids active d, d id)

pub sections_left-IsDistinct :
    (ss : List SidebarSection) (active : List String)
    → IsDistinct active
    → IsDistinct (take_sections ss active).1
unfolding take_sections
sections_left-IsDistinct [] active d = d
sections_left-IsDistinct (s ∷ ss) active d =
    sections_left-IsDistinct ss _ (left-IsDistinct s.agent_ids active d)

take_sections-divides :
    (id : String) (ss : List SidebarSection) (active : List String)
    → IsDistinct active
    → occurrences id (sectioned (take_sections ss active).0)
        + occurrences id (take_sections ss active).1
      ≡ occurrences id active
unfolding take_sections
take_sections-divides id [] active d = omega arith
take_sections-divides id (s ∷ ss) active d = omega (
  arith,
  occurrences-append id (take_active s.agent_ids active).0
      (sectioned (take_sections ss (take_active s.agent_ids active).1).0),
  take_active-divides id s.agent_ids active d,
  take_sections-divides id ss (take_active s.agent_ids active).1
      (left-IsDistinct s.agent_ids active d),
)

pub occurrences-select :
    (id : String) (keep : String → Bool) (ids : List String)
    → occurrences id (select keep ids) ≡ (if keep id then occurrences id ids else 0)
occurrences-select id keep [] = ground arith
occurrences-select id keep (x ∷ xs) = elim (Bool-cases (x == id)) [
  | inl e ↦
      let same : keep x ≡ keep id = ap keep ((eq_iff x id).0 e) in
      ground (arith, occurrences-select id keep xs, e, same)
  | inr e ↦ ground (arith, occurrences-select id keep xs, e)
]

-- Of the identifiers that are left, those among `ids` are all.
occurrences-left :
    (id : String) (ids left : List String)
    → IsDistinct ids
    → occurrences id left ≤ occurrences id ids
    → occurrences id (select (λ x. member x left) ids) ≡ occurrences id left
occurrences-left id ids left d h = elim (Bool-cases (member id left)) [
  | inl e ↦
      occurrences-select id (λ x. member x left) ids
      ∙ rw e (omega (arith, h, d id, occurs_of_member id left e))
  | inr e ↦
      occurrences-select id (λ x. member x left) ids ∙ rw e (sym (not_member-occurrences id left e))
]

-- Whatever layout is stored, the sidebar places every active agent exactly once and no other,
-- where no two agents share an identifier.
pub sidebar_layout-places :
    (stored : Layout) (ids : List String)
    → IsDistinct ids
    → (id : String) → occurrences id (placed (sidebar_layout stored ids)) ≡ occurrences id ids
unfolding sidebar_layout
sidebar_layout-places stored ids d id =
    let sections = take_sections stored.sections ids in
    let loose = take_active stored.unsectioned_agent_ids sections.1 in
    let first = take_sections-divides id stored.sections ids d in
    let second =
      take_active-divides id stored.unsectioned_agent_ids sections.1
        (sections_left-IsDistinct stored.sections ids d) in
    omega (
      arith,
      first,
      second,
      occurrences-append id (sectioned sections.0) (loose.0 ++ select (λ x. member x loose.1) ids),
      occurrences-append id loose.0 (select (λ x. member x loose.1) ids),
      occurrences-left id ids loose.1 d (omega (arith, first, second)),
    )
