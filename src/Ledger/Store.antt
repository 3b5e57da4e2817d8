-- ===== src/Ledger/Store.antt =====
-- The database of openchain/db/db.go as the ledger uses it: three of its column families, batches of
-- changes, and reads. The fourth family belongs to the implementation of the world state.
use hyperledger_fabric.Base.{bytes_key, Bytes}
use hyperledger_fabric.Base.Map.{Map, lookup, insert, delete}
use mathlib.Core.Option.{Option, none, some}
use mathlib.Core.List.{List, [], ◌∷◌}

pub record Db : Type 0 where
  pub blockchain_cf : Map Bytes Bytes
  pub state_delta_cf : Map Bytes Bytes
  pub indexes_cf : Map Bytes Bytes

-- What `PutCF` and `DeleteCF` add to a write batch.
pub data Change : Type 0 where
  put_blockchain : Bytes → Bytes → Change
  put_state_delta : Bytes → Bytes → Change
  delete_state_delta : Bytes → Change
  put_index : Bytes → Bytes → Change

abbrev pub make_change : Change → Db → Db
make_change (put_blockchain k v) d = record d { blockchain_cf = insert k v d.blockchain_cf }
make_change (put_state_delta k v) d = record d { state_delta_cf = insert k v d.state_delta_cf }
make_change (delete_state_delta k) d = record d { state_delta_cf = delete k d.state_delta_cf }
make_change (put_index k v) d = record d { indexes_cf = insert k v d.indexes_cf }

-- `DB.Write`, when it succeeds: the changes of the batch, in their order.
unfoldable pub write_batch : List Change → Db → Db
write_batch [] d = d
write_batch (c ∷ cs) d = write_batch cs (make_change c d)

-- The slice that `get` returns: a key that is missing reads as nil, and so does an empty value.
abbrev pub not_empty : Option Bytes → Option Bytes
not_empty none = none
not_empty (some []) = none
not_empty (some (b ∷ bs)) = some (b ∷ bs)

-- `get` of a column family.
abbrev pub get_cf : Bytes → Map Bytes Bytes → Option Bytes
get_cf k m = not_empty (lookup k m)
