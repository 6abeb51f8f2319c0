-- ===== src/Store/Atomic.antt =====
-- Calls that change nothing when they fail, and calls that cannot fail.
use furtalk.Base.{◌≡◌, refl, Bool, true, false, if◌then◌else◌}
use furtalk.Domain.{Error}
use furtalk.Store.{Db, Action, Result, ok, err, pure, lift, raise_if, run_in_tx, ◌>>=◌, ◌>>◌}

abbrev pub Unchanged : {A : Type 0} → Db → Result A × Db → Type 0
Unchanged db (ok a, db') = Unit {0}
Unchanged db (err e, db') = db' ≡ db

-- An error leaves the database as it was.
pub record Atomic {A : Type 0} (m : Action A) : Type 0 where
  pub clean : (db : Db) → Unchanged db (m db)

abbrev pub Succeeds : {A : Type 0} → Result A × Db → Type 0
Succeeds (ok a, db') = Unit {0}
Succeeds (err e, db') = ⊥

pub record Infallible {A : Type 0} (m : Action A) : Type 0 where
  pub succeeds : (db : Db) → Succeeds (m db)

pub Infallible-pure : {A : Type 0} (a : A) → Infallible (pure a)
Infallible-pure a = record { succeeds = λ db. tt }

pub Infallible-bind :
    {A B : Type 0} {m : Action A} {f : A → Action B}
    → Infallible m
    → ((a : A) → Infallible (f a))
    → Infallible (m >>= f)
Infallible-bind {A} {B} {m} {f} i j = record { succeeds = λ db. next (m db) (i.succeeds db) }
  where
    next : (r : Result A × Db) → Succeeds r → Succeeds (◌>>=◌ (λ _. r) f r.1)
    next (ok a, db') s = (j a).succeeds db'
    next (err e, db') s = absurd s

pub Infallible-if :
    {A : Type 0} (b : Bool) {m n : Action A}
    → Infallible m
    → Infallible n
    → Infallible (if b then m else n)
Infallible-if true i j = i
Infallible-if false i j = j

pub Atomic-raise_if :
    {B : Type 0} (b : Bool) (e : Error) {next : Action B}
    → Atomic next
    → Atomic (raise_if b e >> next)
Atomic-raise_if true e a = record { clean = λ db. refl }
Atomic-raise_if false e a = record { clean = λ db. a.clean db }

pub Atomic-lift :
    {A B : Type 0} (r : Result A) {f : A → Action B}
    → ((a : A) → Atomic (f a))
    → Atomic (lift r >>= f)
Atomic-lift (ok a) k = record { clean = λ db. (k a).clean db }
Atomic-lift (err e) k = record { clean = λ db. refl }

pub Atomic-run_in_tx : {A : Type 0} (m : Action A) → Atomic (run_in_tx m)
Atomic-run_in_tx {A} m = record { clean = λ db. rolled_back db (m db) }
  where
    rolled_back : (db : Db) (r : Result A × Db) → Unchanged db (run_in_tx (λ _. r) db)
    rolled_back db (ok a, db') = tt
    rolled_back db (err e, db') = refl

-- What follows cannot fail.
pub Atomic-then :
    {A B : Type 0} {m : Action A} {f : A → Action B}
    → Atomic m
    → ((a : A) → Infallible (f a))
    → Atomic (m >>= f)
Atomic-then {A} {B} {m} {f} a i = record { clean = λ db. next db (m db) (a.clean db) }
  where
    succeeded : (db : Db) (r : Result B × Db) → Succeeds r → Unchanged db r
    succeeded db (ok b, db') s = tt
    succeeded db (err e, db') s = absurd s

    next : (db : Db) (r : Result A × Db) → Unchanged db r → Unchanged db (◌>>=◌ (λ _. r) f db)
    next db (ok x, db') u = succeeded db (f x db') ((i x).succeeds db')
    next db (err e, db') u = u
