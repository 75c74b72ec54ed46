-- ===== src/Store/Lift.antt =====
-- Functions that raise an HTTPException and do not touch the database, called inside a transaction.
use dark_noc.Fallible.{Attempt, returned, raised}
use dark_noc.Store.Tx.{Error, ok, err, Tx}

abbrev pub Checked : Type 0 → Type 0
Checked A = Attempt Error A

abbrev pub lift : {A : Type 0} → Checked A → Tx A
lift (returned a) h = ok (a, h)
lift (raised e) h = err e
