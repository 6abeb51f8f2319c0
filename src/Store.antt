-- ===== src/Store.antt =====
-- The database that the services work on, and the shape of a service call: it returns a result or
-- an error beside the database, and what was written before an error stays written, unless a
-- transaction (internal/platform/gormtx) rolls it back. Queries do not fail for reasons of their
-- own: a lost connection is not modelled.
pub mod Comments
pub mod Atomic
pub mod Contract
pub mod Threads
pub mod Likes
pub mod Users
use furtalk.Base.{ℕ, Bool, true, false, Option, none, some, List, ◌∷◌}
use furtalk.Domain.{Error}
use furtalk.Domain.Entities.{User, Comment, Thread, Site, Like, CommentEvent}

pub record Db : Type 0 where
  pub users : List User
  pub sites : List Site
  pub threads : List Thread
  pub comments : List Comment
  pub likes : List Like
  -- The events handed to the bus, newest first.
  pub events : List CommentEvent
  pub next_user : ℕ
  pub next_thread : ℕ
  pub next_comment : ℕ

-- What a Go function returns: a value, or an error that is not nil.
pub data Result (A : Type 0) : Type 0 where
  err : Error → Result A
  ok : A → Result A

abbrev pub Action : Type 0 → Type 0
Action T = (db : Db) → Result T × Db

module _ {T : Type 0} where
  -- A result that is known without looking at the database.
  abbrev pub lift : Result T → Action T
  lift r db = (r, db)

  abbrev pub raise : Error → Action T
  raise e = lift (err e)

  abbrev pub pure : T → Action T
  pure x = lift (ok x)

  -- A read.
  abbrev pub gets : (Db → T) → Action T
  gets read db = lift (ok (read db)) db

  -- `gorm.ErrRecordNotFound` and its like.
  abbrev pub or_raise : Option T → Error → Action T
  or_raise (some x) e = pure x
  or_raise none e = raise e

  -- `errors.Is` on the error of a call: the handler sees the database that the call left.
  abbrev pub catch : Action T → (Error → Action T) → Action T
  catch m handler db = let (r, db') = m db in elim r [ ok a ↦ (ok a, db') | err e ↦ handler e db' ]

  -- `RunInTx`: an error undoes every write of the body.
  abbrev pub run_in_tx : Action T → Action T
  run_in_tx m db = let (r, db') = m db in elim r [ ok a ↦ (ok a, db') | err e ↦ (err e, db) ]

-- One call after another; an error ends the chain with the database as it is then.
abbrev pub ◌>>=◌ : {S T : Type 0} → Action S → (S → Action T) → Action T
◌>>=◌ first next db =
    let (r, left) = first db in elim r [ err e ↦ (err e, left) | ok x ↦ next x left ]

-- `if … { return err }`
abbrev pub raise_if : Bool → Error → Action (Unit {0})
raise_if false e = pure tt
raise_if true e = raise e

-- A write that cannot fail.
abbrev pub modify : (Db → Db) → Action (Unit {0})
modify write db = lift (ok tt) (write db)

abbrev pub ◌>>◌ : {T : Type 0} → Action (Unit {0}) → Action T → Action T
first >> next = first >>= λ _. next

infixl 5 ◌>>=◌ ◌>>◌
abbrev pub publish : CommentEvent → Action (Unit {0})
publish ev db = (ok tt, record db { events = ev ∷ db.events })
