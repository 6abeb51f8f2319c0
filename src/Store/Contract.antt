-- ===== src/Store/Contract.antt =====
-- Contracts of calls: an invariant of the database that a call keeps, whether it succeeds or fails,
-- and a property of the value that it returns. There is a rule for each way to build a call.
use furtalk.Base.{◌≡◌, refl, subst, Bool, true, false, Option, none, some, if◌then◌else◌}
use furtalk.Domain.{Error}
use furtalk.Store.{
  Db, Action, Result, ok, err, pure, raise, gets, lift, or_raise, raise_if, modify, run_in_tx,
  catch, ◌>>=◌, ◌>>◌,
}

abbrev pub Holds : {A : Type 0} → (A → Db → Type 0) → (Db → Type 0) → Result A × Db → Type 0
Holds Q E (ok a, db) = Q a db
Holds Q E (err e, db) = E db

-- From a database with the property `P` the call leads to one with `P`, and its value has `V`.
pub record Yields (P : Db → Type 0) {A : Type 0} (V : A → Type 0) (m : Action A) : Type 0 where
  pub run : (db : Db) → P db → Holds (λ a db'. P db' × V a) P (m db)

-- The call keeps the invariant; nothing is said of its value.
abbrev pub Keeps : (Db → Type 0) → {A : Type 0} → Action A → Type 0
Keeps P = Yields P (λ _. Unit {0})

module _ {P : Db → Type 0} where
  module _ {A : Type 0} {V : A → Type 0} where
    pub after : {m : Action A} → Yields P V m → (db : Db) → P db → P (m db).1
    after {m} y db p = kept (m db) (y.run db p)
      where
        kept : (r : Result A × Db) → Holds (λ a db'. P db' × V a) P r → P r.1
        kept (ok a, db') h = h.0
        kept (err e, db') h = h

    pub Yields-pure : (a : A) → V a → Yields P V (pure a)
    Yields-pure a v = record { run = λ db p. (p, v) }

    pub Yields-raise : (e : Error) → Yields P V (raise e)
    Yields-raise e = record { run = λ db p. p }

    pub Yields-lift : (r : Result A) → ((a : A) → r ≡ ok a → V a) → Yields P V (lift r)
    Yields-lift (ok a) v = record { run = λ db p. (p, v a refl) }
    Yields-lift (err e) v = record { run = λ db p. p }

    pub Yields-if :
        (b : Bool) {m n : Action A}
        → (b ≡ true → Yields P V m)
        → (b ≡ false → Yields P V n)
        → Yields P V (if b then m else n)
    Yields-if true y z = y refl
    Yields-if false y z = z refl

    pub Yields-run_in_tx : {m : Action A} → Yields P V m → Yields P V (run_in_tx m)
    Yields-run_in_tx {m} y = record { run = λ db p. kept db p (m db) (y.run db p) }
      where
        kept :
            (db : Db)
            → P db
            → (r : Result A × Db) → Holds (λ a db'. P db' × V a) P r
            → Holds (λ a db'. P db' × V a) P (run_in_tx (λ _. r) db)
        kept db p (ok a, db') h = h
        kept db p (err e, db') h = p

    pub Keeps-of_Yields : {m : Action A} → Yields P V m → Keeps P m
    Keeps-of_Yields {m} y = record { run = λ db p. kept (m db) (y.run db p) }
      where
        kept :
            (r : Result A × Db)
            → Holds (λ a db'. P db' × V a) P r
            → Holds (λ a db'. P db' × Unit {0}) P r
        kept (ok a, db') h = (h.0, tt)
        kept (err e, db') h = h

    pub Yields-bind :
        {B : Type 0} {W : B → Type 0} {m : Action A} {f : A → Action B}
        → Yields P V m
        → ((a : A) → V a → Yields P W (f a))
        → Yields P W (m >>= f)
    Yields-bind {B} {W} {m} {f} y z = record { run = λ db p. kept db (m db) (y.run db p) }
      where
        kept :
            (db : Db) (r : Result A × Db)
            → Holds (λ a db'. P db' × V a) P r
            → Holds (λ b db'. P db' × W b) P (◌>>=◌ (λ _. r) f db)
        kept db (ok a, db') h = (z a h.1).run db' h.0
        kept db (err e, db') h = h

  pub Yields-gets : {A : Type 0} (f : Db → A) → Keeps P (gets f)
  Yields-gets f = record { run = λ db p. (p, tt) }

  pub Yields-raise_if : (b : Bool) (e : Error) → Yields P (λ _. b ≡ false) (raise_if b e)
  Yields-raise_if true e = record { run = λ db p. p }
  Yields-raise_if false e = record { run = λ db p. (p, refl) }

  -- A guard that stands last.
  pub Yields-guard :
      {V : Unit {0} → Type 0} (b : Bool) (e : Error)
      → (b ≡ false → V tt)
      → Yields P V (raise_if b e)
  Yields-guard true e v = record { run = λ db p. p }
  Yields-guard false e v = record { run = λ db p. (p, v refl) }

  pub Keeps-modify : (f : Db → Db) → ((db : Db) → P db → P (f db)) → Keeps P (modify f)
  Keeps-modify f k = record { run = λ db p. (k db p, tt) }

  -- A call whose every outcome leaves the invariant in force keeps it.
  pub Keeps-outcome : {A : Type 0} (m : Action A) → ((db : Db) → P db → P (m db).1) → Keeps P m
  Keeps-outcome {A} m k = record { run = λ db p. held (m db) (k db p) }
    where
      held : (r : Result A × Db) → P r.1 → Holds (λ a db'. P db' × Unit {0}) P r
      held (ok a, db') p = (p, tt)
      held (err e, db') p = p

-- The value that a call returns has the property that its contract gives.
pub value_of :
    {P : Db → Type 0} {A : Type 0} {V : A → Type 0} {m : Action A}
    → Yields P V m
    → (a : A) (db db' : Db) → P db
    → m db ≡ (ok a, db')
    → V a
value_of {P} {A} {V} {m} y a db db' p e = (subst (Holds (λ a db'. P db' × V a) P) e (y.run db p)).1

-- A lookup that raises an error where it finds nothing.
pub Yields-lookup :
    {P : Db → Type 0} {A : Type 0} {V : A → Type 0} (f : Db → Option A) (e : Error)
    → ((db : Db) → P db → (a : A) → f db ≡ some a → V a)
    → Yields P V (gets f >>= λ o. or_raise o e)
Yields-lookup {P} {A} {V} f e v = record { run = λ db p. found db p (f db) refl }
  where
    found :
        (db : Db)
        → P db
        → (o : Option A) → f db ≡ o
        → Holds (λ a db'. P db' × V a) P (or_raise o e db)
    found db p none q = p
    found db p (some a) q = (p, v db p a q)

pub Yields-catch :
    {P : Db → Type 0} {A : Type 0} {V : A → Type 0} {m : Action A} {handler : Error → Action A}
    → Yields P V m
    → ((e : Error) → Yields P V (handler e))
    → Yields P V (catch m handler)
Yields-catch {P} {A} {V} {m} {handler} y z = record { run = λ db p. kept db (m db) (y.run db p) }
  where
    kept :
        (db : Db) (r : Result A × Db)
        → Holds (λ a db'. P db' × V a) P r
        → Holds (λ a db'. P db' × V a) P (catch (λ _. r) handler db)
    kept db (ok a, db') h = h
    kept db (err e, db') h = (z e).run db' h

-- The database after a transaction is the one before it or the one that its body left.
pub run_in_tx-outcome :
    (P : Db → Type 0) {A : Type 0} (m : Action A) (db : Db)
    → P db
    → P (m db).1
    → P (run_in_tx m db).1
run_in_tx-outcome P {A} m db p q = held (m db) q
  where
    held : (r : Result A × Db) → P r.1 → P (run_in_tx (λ _. r) db).1
    held (ok a, db') q = q
    held (err e, db') q = p

-- A value that is returned in the end changes nothing.
pub then_pure-outcome :
    (P : Db → Type 0) {A B : Type 0} (m : Action A) (b : B) (db : Db)
    → P (m db).1
    → P ((m >>= λ _. pure b) db).1
then_pure-outcome P {A} {B} m b db q = held (m db) q
  where
    held : (r : Result A × Db) → P r.1 → P (◌>>=◌ (λ _. r) (λ _. pure b) db).1
    held (ok a, db') q = q
    held (err e, db') q = q

-- From this database the call leads to one with the property.
pub record Leads (P : Db → Type 0) {A : Type 0} (db : Db) (m : Action A) : Type 0 where
  pub out : P (m db).1

module _ {P : Db → Type 0} {db : Db} where
  pub Leads-pure : {A : Type 0} (a : A) → P db → Leads P db (pure a)
  Leads-pure a p = record { out = p }

  pub Leads-raise_if :
      {B : Type 0} (b : Bool) (e : Error) {next : Action B}
      → P db
      → (b ≡ false → Leads P db next)
      → Leads P db (raise_if b e >> next)
  Leads-raise_if true e p k = record { out = p }
  Leads-raise_if false e p k = record { out = (k refl).out }

  pub Leads-if :
      {B : Type 0} (b : Bool) {m n : Action B}
      → (b ≡ true → Leads P db m)
      → (b ≡ false → Leads P db n)
      → Leads P db (if b then m else n)
  Leads-if true k l = k refl
  Leads-if false k l = l refl

  pub Leads-lift :
      {A B : Type 0} (r : Result A) {k : A → Action B}
      → P db
      → ((a : A) → r ≡ ok a → Leads P db (k a))
      → Leads P db (lift r >>= k)
  Leads-lift (ok a) p f = record { out = (f a refl).out }
  Leads-lift (err e) p f = record { out = p }

  pub Leads-or_raise :
      {A B : Type 0} (o : Option A) (e : Error) {k : A → Action B}
      → P db
      → ((a : A) → o ≡ some a → Leads P db (k a))
      → Leads P db (or_raise o e >>= k)
  Leads-or_raise (some a) e p f = record { out = (f a refl).out }
  Leads-or_raise none e p f = record { out = p }
