-- ===== src/Store/Schedules/Claim.antt =====
-- The claims of a schedule's run for one time.
use codexbot.Common.{
  ◌≡◌, ap, ◌∙◌, ◌>>=◌, inl, inr, Bool, true, false, ◌&&◌, String, List, [], ◌∷◌, Option, some,
  arith, eq_iff, eq_refl, ◌==◌, any, count, eqb, update, insert, Fault, ok, err, Result-cases,
  Bool-cases,
}
use mathlib.Core.Path.{subst}
use codexbot.Clock.{Time}
use codexbot.Domain.Records.{Run, RunSource, Conversation, Schedule, is_active}
use codexbot.Store.Database.{Db}
use codexbot.Store.Runs.{insert_run, append_run_input, same_slot, source_eq}
use codexbot.Store.Runs.Active.{append_run_input-runs, append_terminal-runs}
use codexbot.Store.Schedules.{
  claimable, advanced, is_fresh_claim, insert_conversation, claimed_run, append_end, claim_at,
  claim_schedule_run,
}

insert_run-slot :
    (r : Run) (db db' : Db)
    → insert_run r db ≡ ok db'
    → (db'.runs ≡ insert r db.runs) × (any (same_slot r) db.runs ≡ false)
unfolding insert_run
insert_run-slot r db db' h = ground arith

insert_conversation-runs :
    (c : Conversation) (db db' : Db) → insert_conversation c db ≡ ok db' → db'.runs ≡ db.runs
unfolding insert_conversation
insert_conversation-runs c db db' h = ground arith

append_end-runs :
    (r : Run) (now : Time) (db db' : Db) → append_end r now db ≡ ok db' → db'.runs ≡ db.runs
unfolding append_end
append_end-runs r now db db' h = elim (Bool-cases (is_active r.status)) [
  | inl e ↦ ground (arith, e)
  | inr e ↦ append_terminal-runs r.agent_id r.id r.error r.status now db db' (rw e at h)
]

source_eq_sound :
    (s : RunSource) (id : String)
    → source_eq s (RunSource.schedule id) ≡ true
    → s ≡ RunSource.schedule id
unfolding source_eq
source_eq_sound (RunSource.schedule a) id h = ap RunSource.schedule ((eq_iff a id).0 h)
source_eq_sound (RunSource.collaboration a) id h = absurd (ground arith)
source_eq_sound (RunSource.other a) id h = absurd (ground arith)

module _ (t : Time) (sc : Schedule) (c : Conversation) (r : Run) (next : Option Time)
    (enabled : Bool) (now : Time) (db db' : Db) where
  -- The rows of a claim.
  insert_all :
      (db₁ : Db)
      → (insert_conversation c db₁ >>= λ db₂. insert_run (claimed_run r now) db₂ >>= λ db₃.
          append_run_input r now db₃ >>= λ db₄. append_end r now db₄)
        ≡ ok db'
      → (db'.runs ≡ insert (claimed_run r now) db₁.runs)
        × (any (same_slot (claimed_run r now)) db₁.runs ≡ false)
  insert_all db₁ h = elim (Result-cases (insert_conversation c db₁)) [
    | inr (x, e) ↦ absurd (ground (arith, rw e at h))
    | inl (db₂, e) ↦ elim (Result-cases (insert_run (claimed_run r now) db₂)) [
      | inr (x, f) ↦ absurd (ground (arith, rw (e, f) at h))
      | inl (db₃, f) ↦ elim (Result-cases (append_run_input r now db₃)) [
        | inr (x, g) ↦ absurd (ground (arith, rw (e, f, g) at h))
        | inl (db₄, g) ↦
            let (rows, free) = insert_run-slot (claimed_run r now) db₂ db₃ f in
            let same = insert_conversation-runs c db₁ db₂ e in
            let input = append_run_input-runs r now db₃ db₄ g in
            let last = append_end-runs r now db₄ db' (rw (e, f, g) at h) in
            (
              last ∙ input ∙ rows ∙ ap (insert (claimed_run r now)) same,
              subst (λ rs. any (same_slot (claimed_run r now)) rs ≡ false) same free,
            )
      ]
    ]
  ]

  claim_at-runs :
      claim_at t sc c r next enabled now db ≡ ok db'
      → (db'.runs ≡ insert (claimed_run r now) db.runs)
        × (any (same_slot (claimed_run r now)) db.runs ≡ false)
        × (eqb (count (claimable sc.id t) db.schedules) 1 ≡ true)
  unfolding claim_at
  claim_at-runs h = elim (Bool-cases (eqb (count (claimable sc.id t) db.schedules) 1)) [
    | inr due ↦ absurd (ground (arith, rw due at h))
    | inl due ↦
        elim (Bool-cases
          (c.id == r.conversation_id && c.agent_id == r.agent_id && sc.agent_id == r.agent_id)) [
            | inr own ↦ absurd (ground (arith, rw (due, own) at h))
            | inl own ↦
                let (rows, free) =
                  insert_all
                    (record db {
                      schedules =
                          update (claimable sc.id t) (advanced t next enabled now) db.schedules;
                    })
                    (rw (due, own) at h) in
                (rows, free, due)
          ]
  ]

  claim-runs :
      claim_schedule_run sc c r next enabled now db ≡ ok db'
      → (r.scheduled_for ≡ some t)
      → (db'.runs ≡ insert (claimed_run r now) db.runs)
        × (any (same_slot (claimed_run r now)) db.runs ≡ false)
        × (eqb (count (claimable sc.id t) db.schedules) 1 ≡ true)
        × (r.source ≡ RunSource.schedule sc.id)
  unfolding claim_schedule_run
  claim-runs h at = elim (Bool-cases (is_fresh_claim sc c r)) [
    | inl e ↦
        let (rows, free, due) = claim_at-runs (ground (arith, h, at, e)) in
        (rows, free, due, source_eq_sound r.source sc.id (ground (arith, e)))
    | inr e ↦ absurd (ground (arith, h, at, e))
  ]

any-insert :
    {A : Type 0} (p : A → Bool) (a : A) (xs : List A) → p a ≡ true → any p (insert a xs) ≡ true
any-insert p a [] h = ground arith
any-insert p a (x ∷ xs) h = ground (arith, any-insert p a xs h)

-- In the state after a successful claim of a schedule's run for a time, every claim of a run of
-- that schedule for that time fails, whatever its other arguments are.
pub claim_once :
    (t : Time) (sc : Schedule) (c : Conversation) (r : Run) (next : Option Time) (enabled : Bool)
    (now : Time) (db db' : Db)
    → claim_schedule_run sc c r next enabled now db ≡ ok db'
    → r.scheduled_for ≡ some t
    → (sc' : Schedule) (c' : Conversation) (r' : Run) (next' : Option Time) (enabled' : Bool)
      (now' : Time)
    → sc'.id ≡ sc.id
    → r'.scheduled_for ≡ some t
    → (x : Fault) × (claim_schedule_run sc' c' r' next' enabled' now' db' ≡ err x)
claim_once t sc c r next enabled now db db' h at sc' c' r' next' enabled' now' same at' =
    elim (Result-cases (claim_schedule_run sc' c' r' next' enabled' now' db')) [
      | inr (x, e) ↦ (x, e)
      | inl (db'', e) ↦
          let (rows, _, _, src) = claim-runs t sc c r next enabled now db db' h at in
          let (_, free, _, src') = claim-runs t sc' c' r' next' enabled' now' db' db'' e at' in
          let taken : same_slot (claimed_run r' now') (claimed_run r now) ≡ true =
            rw (src, src', same, at, at') (unfold source_eq in ground (arith, eq_refl sc.id)) in
          absurd (
            ground (
              arith,
              any-insert (same_slot (claimed_run r' now')) (claimed_run r now) db.runs taken,
              subst (λ rs. any (same_slot (claimed_run r' now')) rs ≡ false) rows free,
            ))
    ]
