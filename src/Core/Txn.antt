-- ===== src/Core/Txn.antt =====
-- How a call ends, and the calls on a transaction. A call on a transaction changes its state and
-- returns, fails with an error, or panics. What it wrote before an error stays written in the
-- transaction, so the state comes back on every path.
use taskchampion_sync_server.Prelude.{Option, none, some}
use taskchampion_sync_server.Core.Types.{StorageError, ServerError}

pub data Outcome (E A : Type 0) : Type 0 where
  ok : A → Outcome E A
  err : E → Outcome E A
  panic : Outcome E A

abbrev pub Txn : Type 0 → Type 0 → Type 0 → Type 0
Txn T E A = T → Outcome E A × T

abbrev pub map_err : {E F A : Type 0} → (E → F) → Outcome E A → Outcome F A
map_err f (ok a) = ok a
map_err f (err e) = err (f e)
map_err f panic = panic

-- `?` where no transaction is at hand
abbrev pub and_then : {E A B : Type 0} → Outcome E A → (A → Outcome E B) → Outcome E B
and_then (ok a) f = f a
and_then (err e) f = err e
and_then panic f = panic

module _ {T E A : Type 0} where
  abbrev pub pure : A → Txn T E A
  pure a t = (ok a, t)

  abbrev pub fail : E → Txn T E A
  fail e t = (err e, t)

  abbrev pub crash : Txn T E A
  crash t = (panic, t)

  -- `o.ok_or(e)?`
  abbrev pub ok_or : Option A → E → Txn T E A
  ok_or none e = fail e
  ok_or (some a) e = pure a

abbrev pub continue : {T E A B : Type 0} → Outcome E A → (A → Txn T E B) → Txn T E B
continue (ok a) f t = f a t
continue (err e) f t = (err e, t)
continue panic f t = (panic, t)

infixl 5 ◌>>=◌ ◌>>◌
abbrev pub ◌>>=◌ : {T E A B : Type 0} → Txn T E A → (A → Txn T E B) → Txn T E B
◌>>=◌ m f t = let (r, t') = m t in continue r f t'

abbrev pub ◌>>◌ : {T E A B : Type 0} → Txn T E A → Txn T E B → Txn T E B
m >> k = m >>= λ _. k

-- `e?` where the error becomes `ServerError::Other`
abbrev pub other? : {T A : Type 0} → Txn T StorageError A → Txn T ServerError A
other? m t = let (r, t') = m t in (map_err ServerError.other r, t')
