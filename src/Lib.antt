-- ===== src/Lib.antt =====
-- A model of KomfyDB, a small relational database in C++, with the theorems about it.
--
-- The program keeps each table in a heap file of pages of 4096 bytes. A page is a bitmap of its
-- slots and then the slots, each a record in a fixed-length encoding. The operators of a query are
-- iterators that pull records from their children: filters, projections, joins, limits, sorting,
-- aggregation, insertion and deletion.
--
-- Files, with the code that each models:
--   Base: shared names; results and errors (`Status`, komfydb/utils/status_macros.h), state passing
--     (`State`), integers and lists over the native numbers.
--   Common/Op: komfydb/execution/op.h and op.cc (`flip` is `Op::Flip`, `str_to_op` is `Op::StrToOp`).
--   Common/Field: komfydb/common/type.cc, int_field.cc and string_field.cc; `compare_fields` is
--     `Field::Compare`. Field/Order has its laws.
--   Common/TupleDesc and Common/Tuple: komfydb/common/tuple_desc.cc, td_item.cc and tuple.cc.
--   Storage/Ids: komfydb/storage/page_id.cc, record_id.cc and record.cc.
--   Storage/Header, Storage/Codec and Storage/HeapPage: komfydb/storage/heap_page.cc. The bitmap, the
--     encoding of fields, and the page: `create`, `get_page_data`, `add_tuples`, `remove_record` and
--     `get_records` are `HeapPage::Create`, `GetPageData`, `AddTuples`, `RemoveRecord` and
--     `GetRecords`. HeapPage/Slots has the view of a page as a function from slot numbers and the
--     well-formedness of a page. HeapPage/Filling has what one slot's filling changes, HeapPage/Dumps
--     what is read of the bytes of slots, HeapPage/Reread the records that are read.
--   Storage/HeapFile: komfydb/storage/heap_file.cc.
--   Storage/Catalog: komfydb/storage/catalog.cc.
--   Storage/BufferPool: komfydb/storage/buffer_pool.cc, over the catalog and its files; `get_page`,
--     `insert_tuples` and `remove_tuples` are `GetPage`, `InsertTuples` and `RemoveTuples`. The loop
--     of `InsertTuples` that makes new pages is on fuel, one unit for each page. BufferPool/Lru counts
--     pages in lists; BufferPool/Sound has the invariant of the pool and its LRU list;
--     BufferPool/Coherent has the latest records of a page, `view`, and when the pool and the files
--     agree on them; HeapFile/Disk has what stands in a file for a page.
--   Storage/TableIterator and Execution/SeqScan: komfydb/storage/table_iterator.cc and
--     komfydb/execution/seq_scan.cc. The buffer pool is part of the state of a scan. `HasNext` calls
--     itself for each page: it is on fuel, one unit more than the table has pages.
--   Execution/LogicalPlan: komfydb/common/column_ref.h and komfydb/execution/logical_plan: the nodes,
--     `check_ref` (`CheckColumnRef`) and `get_column_ref`. LogicalPlan/Build has the calls `Add...`,
--     which take the plan and give the plan afterwards; a subquery is a value of any type.
--     LogicalPlan/Equiv has `GetEquiv` and what `ProcessScanNodes` and `ProcessJoinNodes` do to the
--     union-find forest `equiv`; the recursion of `GetEquiv` is on fuel, and one unit more than there
--     are joins is enough. LogicalPlan/Fields has `GetIndexForColumnRef`, from
--     komfydb/execution/op_iterator.cc, and the loops of `ProcessAggregateNodes` and
--     `ProcessSelectNodes` that find fields by it. LogicalPlan/Physical has the physical plan, a tree of
--     operators with the schema and the aliases of each, and how one operator is made
--     (`InstatiateJoin` of komfydb/optimizer/join_optimizer.cc among them); Physical/Generate has
--     `GeneratePhysicalPlan` with the map `subplans`, in which a plan that was moved out is null.
--     Subqueries are nested at most `n` deep, for any `n`. Physical/WellFormed, Outputs and Planned
--     are about what is made, Aligned about the search for columns, Returning, Finishing and Ending
--     about termination, Scans, Placed, Started and Complete about the tables that a plan reads.
--   Execution/Executor and Common/Print: komfydb/execution/executor.cc and the string conversions of
--     fields, tuples and schemas. Executor/Lines wraps words and lays out lines, Executor/Text has the
--     texts, and `pretty_execute` and `python_execute` are the loops over the records, on fuel, one
--     unit more than there are records.
--   Parser: komfydb/parser.cc. Parser/Syntax has what the code reads of the trees of hsql, the SQL
--     parser, as data types. Parser/Condition is `ParseSimpleExpression` and its helpers, Parser/Select
--     the rest of what makes a logical plan of a SELECT, Parser/Statement the other statements and
--     `ParseQuery`. `GeneratePhysicalPlan` and the parser of hsql are fields of an interface there.
--     Parser/Built has the calls that the parser may make on a plan.
--   Database: komfydb/database.cc. The state is the buffer pool, with the catalog, and the counter of
--     tables. Database/Repl has the loops of queries, over the lines that they read; what they write and
--     the signals that they send are a list of events. The executor on an iterator is a parameter there.
--   Execution/Iterator: komfydb/execution/op_iterator.h and op_iterator.cc. A class is an `Operator`
--     on the state of the class, `FetchNext` and what it does on `Open` and `Rewind`; `iterator`
--     makes of it what a parent calls. Iterator/Streams says what an iterator produces.
--   Execution/Fixed, Filter, Limit, Project, Join, OrderBy, Aggregate, Aggregator, Modify and
--     Predicate: the files of these names under komfydb/execution; Modify is insert.cc and
--     delete.cc.
--   Examples: concrete data on which the theorems are applied.
--
-- A status or a `StatusOr` is a `StatusOr` here: a value, an error code without its message, `fault`
-- for undefined behaviour and for an exception or an assertion that fails, and `no_fuel` where a
-- loop on fuel is cut off. A method that changes its object takes the state and gives the new one
-- besides the result.
--
-- Fuel: the loops of a filter, a join and of what collects a child's records take one unit for each
-- record that they read. More units than the child has records are enough, and the theorems about
-- streams say so in their conditions. The loops over slots and fields are recursions on them.
--
-- Numbers: an `int` of a stored field has 32 bits and is parsed from four bytes; the sum of an
-- aggregate that leaves 32 bits is undefined behaviour. Sizes, slot numbers and counts are taken
-- not to overflow, except for the length of a file, which the code keeps in 32 bits.
--
-- Not modelled: the SQL parser hsql and its trees beyond what the code reads of them; the command
-- line; the terminal that queries are read from; transactions and locks; the statistics of the optimizer,
-- which have no behaviour yet; what only explains a plan or writes to the log.
-- The sort of the standard library, the order in which a hash map is walked and the width of the
-- terminal are parameters; the aliases of a plan are walked in the order of a list. Operators whose
-- children share the buffer pool are modelled on the state of each child.
-- A rewind that fails keeps the record that was fetched ahead.
pub mod Base
pub mod Common
pub mod Storage
pub mod Execution
pub mod Parser
pub mod Database
pub mod Examples
