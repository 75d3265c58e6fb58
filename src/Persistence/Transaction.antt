-- ===== src/Persistence/Transaction.antt =====
-- The transaction of a request (SQLAlchemy's `AsyncSession`): statements read and write the working
-- tables, `commit` publishes them, an exception leaves the block and drops what was not committed.
use cortex_tutor.Prelude.{Bool, true, false}
use cortex_tutor.Persistence.Models.{Db}
use cortex_tutor.Prelude.Result.{Error, Result, ok, err}

pub record Tx : Type 0 where
  pub committed : Db
  pub working : Db

abbrev pub Exec : Type 0 → Type 0
Exec A = Tx → Result A × Tx

abbrev pub continue : {A B : Type 0} → Result A → (A → Exec B) → Exec B
continue (ok a) f tx = f a tx
continue (err e) f tx = (err e, tx)

infixl 5 ◌>>=◌ ◌>>◌
abbrev pub ◌>>=◌ : {A B : Type 0} → Exec A → (A → Exec B) → Exec B
◌>>=◌ m f tx = let (r, tx') = m tx in continue r f tx'

abbrev pub ◌>>◌ : {B : Type 0} → Exec (Unit {0}) → Exec B → Exec B
m >> k = m >>= λ _. k

module _ {A : Type 0} where
  abbrev pub pure : A → Exec A
  pure a tx = (ok a, tx)

  abbrev pub raise : Error → Exec A
  raise e tx = (err e, tx)

  abbrev pub lift : Result A → Exec A
  lift r tx = (r, tx)

  -- a query
  abbrev pub reads : (Db → A) → Exec A
  reads f tx = (ok (f tx.working), tx)

  abbrev pub queries : (Db → Result A) → Exec A
  queries f tx = (f tx.working, tx)

  -- a statement that writes and returns rows
  abbrev pub writes : (Db → A × Db) → Exec A
  writes f tx = let (a, db) = f tx.working in (ok a, record tx { working = db })

-- a statement that a constraint may refuse
abbrev pub statement : {A : Type 0} → (Db → Result A × Db) → Exec A
statement f tx = let (r, db) = f tx.working in (r, record tx { working = db })

abbrev pub modifies : (Db → Db) → Exec (Unit {0})
modifies f tx = (ok tt, record tx { working = f tx.working })

-- other requests commit, and their writes become visible
abbrev pub interleave : (Db → Db) → Exec (Unit {0})
interleave f tx = (ok tt, record { committed = f tx.committed; working = f tx.working })

abbrev pub commit : Exec (Unit {0})
commit tx = (ok tt, record tx { committed = tx.working })

abbrev pub rollback : Exec (Unit {0})
rollback tx = (ok tt, record tx { working = tx.committed })

abbrev pub require : Bool → Error → Exec (Unit {0})
require true e tx = (ok tt, tx)
require false e tx = (err e, tx)

-- `async with sessionmaker() as db: ...`: the result, and the tables that others see afterwards
abbrev pub in_transaction : {A : Type 0} → Exec A → Db → Result A × Db
in_transaction m db = let (r, tx) = m (record { committed = db; working = db }) in (r, tx.committed)
