-- ===== src/Server/Rules.antt =====
-- How what holds of the parts of an action holds of the whole: what it does to the tasks, and how
-- many tasks it delivers.
use mathlib.Core.Path.{subst}
use codexbot.Common.{
  ℕ, ◌+◌, ◌≤◌, ◌≡◌, inl, inr, Bool, true, false, [], ◌∷◌, arith, Result, ok, if◌then◌else◌, count,
  count-append, Result-cases,
}
use codexbot.Store.Database.{Db}
use codexbot.Store.Tasks.Effects.{here}
use codexbot.Store.Tasks.Growth.{Kept, Kept-trans}
use codexbot.Store.Tasks.History.{after}
use codexbot.Server.World.{
  World, Action, Attempt, done, failed, Failure, Call, resume, ◌>>=◌, ◌>>◌, pure, fail, skip, read,
  query, change, exec, perform, write, try, ignore, ask, note, settle, Reply,
}

-- A call that hands a task to an agent.
abbrev pub is_delivery : Call → Bool
is_delivery (Call.start_turn id r) = true
is_delivery (Call.steer_turn id r) = true
is_delivery _ = false

abbrev pub deliveries : World → ℕ
deliveries w = count is_delivery w.calls

-- What an action leaves: the tasks evolve as by operations of their own store, and at most so many
-- more are delivered.
pub record Leaves (n : ℕ) (w w' : World) : Type 0 where
  pub kept : Kept w.db w'.db
  pub spent : deliveries w' ≤ n + deliveries w

pub record Does {A : Type 0} (n : ℕ) (m : Action A) : Type 0 where
  pub at : (w : World) → Leaves n w (m w).1

Leaves-trans : {a b c : World} (n k : ℕ) → Leaves n a b → Leaves k b c → Leaves (n + k) a c
Leaves-trans {a} {b} {c} n k p q = record {
  kept = Kept-trans a.db b.db c.db p.kept q.kept;
  spent = omega (arith, p.spent, q.spent);
}

pub Leaves-mono : {a b : World} (n k : ℕ) → n ≤ k → Leaves n a b → Leaves k a b
Leaves-mono n k h p = record { kept = p.kept; spent = omega (arith, h, p.spent) }

pub Leaves-refl : (w : World) → Leaves 0 w w
Leaves-refl w = record { kept = here; spent = omega arith }

resume-Does :
    {A B : Type 0} (n k : ℕ) (next : A → Action B) (w : World) (p : Attempt A × World)
    → Leaves n w p.1
    → ((a : A) → Does k (next a))
    → Leaves (n + k) w (resume next p).1
resume-Does n k next w (done a, mid) h d = Leaves-trans n k h ((d a).at mid)
resume-Does n k next w (failed e, mid) h d = Leaves-mono n (n + k) (omega arith) h

pub bind-Does :
    {A B : Type 0} (n k : ℕ) (m : Action A) (next : A → Action B)
    → Does n m
    → ((a : A) → Does k (next a))
    → Does (n + k) (m >>= next)
unfolding ◌>>=◌
bind-Does n k m next h d = record { at = λ w. resume-Does n k next w (m w) (h.at w) d }

pub then-Does :
    {B : Type 0} (n k : ℕ) (m : Action (Unit {0})) (next : Action B)
    → Does n m
    → Does k next
    → Does (n + k) (m >> next)
unfolding ◌>>◌
then-Does n k m next h d = record {
  at = λ w. resume-Does n k (λ _. next) w (m w) (h.at w) (λ _. d);
}

pub try-Does : {A : Type 0} (n : ℕ) (m : Action A) → Does n m → Does n (try m)
unfolding try
try-Does n m h = record { at = h.at }

pub ignore-Does : {A : Type 0} (n : ℕ) (m : Action A) → Does n m → Does n (ignore m)
unfolding ignore
ignore-Does n m h = record { at = h.at }

pub if-Does :
    {A : Type 0} (n : ℕ) (b : Bool) (m k : Action A)
    → Does n m
    → Does n k
    → Does n (if b then m else k)
if-Does n true m k h d = h
if-Does n false m k h d = d

pub note-Does : (call : Call) → is_delivery call ≡ false → Does 0 (note call)
unfolding note
note-Does call quiet = record {
  at = λ w. record {
    kept = here;
    spent = rw (count-append is_delivery w.calls (call ∷ [])) (ground (arith, quiet));
  };
}

pub ask-Does :
    {A : Type 0} (n : ℕ) (call : Call) (reply : Reply A)
    → count is_delivery (call ∷ []) ≤ n
    → Does n (ask call reply)
unfolding ask
ask-Does n call reply h = record {
  at = λ w. record {
    kept = here;
    spent = rw (count-append is_delivery w.calls (call ∷ [])) (omega (arith, h));
  };
}

-- Operations of the store deliver nothing.
pub write-Does : (op : Db → Db) → ((db : Db) → Kept db (op db)) → Does 0 (write op)
unfolding write
write-Does op h = record { at = λ w. record { kept = h w.db; spent = omega arith } }

pub change-Does :
    {A : Type 0} (op : Db → A × Db) → ((db : Db) → Kept db (op db).1) → Does 0 (change op)
unfolding change
change-Does op h = record { at = λ w. record { kept = h w.db; spent = omega arith } }

pub exec-Does : (op : Db → Result Db) → ((db : Db) → Kept db (after db (op db))) → Does 0 (exec op)
unfolding exec
exec-Does op h = record {
  at = λ w. elim (Result-cases (op w.db)) [
    | inl (db', e) ↦
        rw e
          (record { kept = subst (λ r. Kept w.db (after w.db r)) e (h w.db); spent = omega arith })
    | inr (x, e) ↦ rw e (Leaves-refl w)
  ];
}

pub perform-Does :
    {A : Type 0} (op : Db → Result (A × Db))
    → ((db : Db) (a : A) (db' : Db) → op db ≡ ok (a, db') → Kept db db')
    → Does 0 (perform op)
unfolding perform
perform-Does op h = record {
  at = λ w. elim (Result-cases (op w.db)) [
    | inl ((a, db'), e) ↦ rw e (record { kept = h w.db a db' e; spent = omega arith })
    | inr (x, e) ↦ rw e (Leaves-refl w)
  ];
}

pub query-Does : {A : Type 0} (q : Db → Result A) → Does 0 (query q)
unfolding query
query-Does q = record {
  at = λ w. elim (Result-cases (q w.db)) [
    | inl (a, e) ↦ rw e (Leaves-refl w)
    | inr (x, e) ↦ rw e (Leaves-refl w)
  ];
}

pub mono-Does : {A : Type 0} (n k : ℕ) (m : Action A) → n ≤ k → Does n m → Does k m
mono-Does n k m h d = record { at = λ w. Leaves-mono n k h (d.at w) }

-- Actions that end at once.
pub pure-Does : {A : Type 0} (a : A) → Does 0 (pure a)
unfolding pure
pure-Does a = record { at = Leaves-refl }

pub fail-Does : {A : Type 0} (e : Failure) → Does {A = A} 0 (fail e)
unfolding fail
fail-Does e = record { at = Leaves-refl }

pub settle-Does : {A : Type 0} (r : Attempt A) → Does 0 (settle r)
unfolding settle
settle-Does r = record { at = Leaves-refl }

pub skip-Does : Does 0 skip
unfolding skip
skip-Does = record { at = Leaves-refl }

pub read-Does : {A : Type 0} (q : Db → A) → Does 0 (read q)
unfolding read
read-Does q = record { at = Leaves-refl }
