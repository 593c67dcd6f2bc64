-- ===== src/State/Connection/Laws.antt =====
-- What a transaction guarantees.
use p4sync_git.Prelude.{◌≡◌, refl, true, false, arith}
use p4sync_git.Exec.{Result, ok, err, Exec}
use p4sync_git.State.Schema.{Db}
use p4sync_git.State.Connection.{StateStore, transaction, write}

-- A body that itself opens and closes no transaction and commits nothing: what the methods of
-- the class are while the flag is set.
abbrev pub IsDeferred : {A : Type 0} → Exec StateStore A → Type 0
IsDeferred body =
    (s : StateStore)
    → s.in_transaction ≡ true
    → ((body s).1.disk ≡ s.disk) × ((body s).1.in_transaction ≡ true)

-- What a transaction that began with nothing pending leaves, by how its body ended.
abbrev pub AllOrNothing : {A : Type 0} → Result A × StateStore → Result A × StateStore → Type 0
AllOrNothing (ok a, s') (r, t) =
    (r ≡ ok a) × (t.disk ≡ s'.conn) × (t.conn ≡ s'.conn) × (t.in_transaction ≡ false)
AllOrNothing (err e, s') (r, t) =
    (r ≡ err e) × (t.disk ≡ s'.disk) × (t.conn ≡ s'.disk) × (t.in_transaction ≡ false)

-- A transaction entered outside of any other commits all that its body wrote if the body returns,
-- and nothing if it raises: then the connection and the file hold what the file held before.
pub transaction_atomic :
    {A : Type 0} (body : Exec StateStore A) (s : StateStore)
    → IsDeferred body
    → s.in_transaction ≡ false
    → let (r, s') = body (record s { in_transaction = true }) in
      AllOrNothing (r, record s' { disk = s.disk }) (transaction body s)
unfolding transaction
transaction_atomic body s d h = ground (arith, d (record s { in_transaction = true }) refl)

-- Inside another transaction `transaction` is its body, which the outer one commits.
pub transaction_nested :
    {A : Type 0} (body : Exec StateStore A) (s : StateStore)
    → s.in_transaction ≡ true
    → transaction body s ≡ body s
unfolding transaction
transaction_nested body s h = ground arith

-- Every write is deferred inside a transaction and durable outside of one.
pub write-durable :
    (change : Db → Db) (s : StateStore)
    → s.in_transaction ≡ false
    → (write change s).disk ≡ change s.conn
unfolding write
write-durable change s h = ground arith

pub write-disk :
    (change : Db → Db) (s : StateStore) → s.in_transaction ≡ true → (write change s).disk ≡ s.disk
unfolding write
write-disk change s h = ground arith

pub write-conn : (change : Db → Db) (s : StateStore) → (write change s).conn ≡ change s.conn
unfolding write
write-conn change s = ground arith

pub write-in_transaction :
    (change : Db → Db) (s : StateStore) → (write change s).in_transaction ≡ s.in_transaction
unfolding write
write-in_transaction change s = ground arith
