-- ===== src/Execution/SeqScan.antt =====
-- Table scans: komfydb/execution/seq_scan.h and seq_scan.cc.
pub mod Streaming
pub mod Table
use komfy_db.Base.{ℕ, false, Bytes}
use komfy_db.Base.State.{State}
use komfy_db.Base.Status.{StatusOr, ok, ◌>>=◌}
use komfy_db.Common.TupleDesc.{TupleDesc}
use komfy_db.Storage.Ids.{Record}
use komfy_db.Storage.TableIterator.{TableIterator, open_table, next, tuple_desc_of}
use komfy_db.Execution.Iterator.{Operator}

-- `FetchNext`, with the iterator of the table as the state
unfoldable pub fetch : ℕ → State TableIterator Record
unfolding next
fetch fuel = next fuel

abbrev pub seq_scan : ℕ → Operator TableIterator
seq_scan fuel = record {
  open_own = open_table;
  rewind_own = open_table;
  resets = false;
  fetch_next = fetch fuel;
}

-- `Create`: the schema of the scan
unfoldable pub create : TableIterator → StatusOr TupleDesc
create iterator = tuple_desc_of iterator
