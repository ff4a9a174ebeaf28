-- ===== src/Lib.antt =====
-- A model of the FireBin API server (an inventory of electronic parts, written in Go), with the
-- theorems that make it correct.
--
-- internal/repository/stock.go keeps the stock: every lot of a part at a location, and a log of
-- movements. Each of its methods is one database transaction over the tables stock_items,
-- stock_transactions and parts. The model is the tables as lists (Stock/Model), the SQL statements
-- as functions on them, with the constraints of internal/db/migrations (Stock/Table), and each
-- method as a chain of statements that stops at the first error (Stock/Tx). The row that Adjust,
-- AdjustLot, RelocateLot and SplitLot return is read after the commit, outside of the transaction:
-- the model reads it before any other transaction changes it, and without a failure of the
-- connection. The methods are Adjust and AdjustLot (Stock/Adjust), Move, MovePartToLocation and
-- RelocateLot (Stock/Transfer), SplitLot, MergeLot, CountEmptyLots and DeleteEmptyLots
-- (Stock/Lots). Stock/Feed is collapseMoves, by which Recent and ListTransactions show a move as
-- one row; the key of a move is its part and time, not their text. Stock/History runs any sequence
-- of calls. The modules below these prove one thing each: Stock/Lookup and Stock/Sums say what an
-- update does to a lookup or to a total, Stock/Ledger is the invariant, Stock/Moved the
-- conservation of quantities.
--
-- internal/picklist/picklist.go says what to pull from stock to build a board. Its Compute is
-- Pick/Compute, over two lookups that it is given: of a board, and of the lots of parts (the
-- interface LotSource). It first adds up what the lines of the board require (Pick/Demand), then
-- takes lots in their order and notes shortfalls (Pick/Allocate), then sorts the entries
-- (Pick/Walk). Pick/Source is StockForParts of internal/repository/stock.go, which fills the
-- interface from the tables of Stock; the collation by which the database orders names is an
-- argument.
--
-- internal/jobs runs background work: River executes it, and the tables tasks and job_logs tell
-- clients of it. Jobs/Store is the statements of store.go, Jobs/Run the harness of run.go (Run,
-- Progress, ForEach) with the worker body as an argument, Jobs/Service the enqueueing, the cancel
-- and the sweeps of service.go, with River's answers as arguments, Jobs/Logs the paging of a
-- task's log. Jobs/History runs any interleaving of the writes. Times are milliseconds. The
-- registry of cancel functions is not modelled: that a context is cancelled is an argument of the
-- loop.
--
-- internal/kicad reads design files. Kicad/Sexpr is sexpr.go, on the bytes of a file: each round
-- of the loop of parseList costs a unit of fuel, and parse_sexpr has one more than the file has
-- bytes, which Kicad/Sexpr/Clean shows to be enough and Kicad/Sexpr/Stuck shows not to exist in
-- one case. Kicad/Sexpr/Print is a writer, for the round trip only. Kicad/Bom is bom.go: the
-- components of schematics and boards (Kicad/Bom/Extract), their grouping into lines and panels
-- (Kicad/Bom/Group), the order of references (Kicad/Bom/Order), and rowsToLines (Kicad/Bom/Rows).
-- Kicad/Panel is DetectPanelPCB of panel.go. The sorts are Go's insertion sort (Base/Sort), which
-- its library runs on short slices; on longer ones it may order entries of which neither is less
-- differently. The reader of CSV files is the standard library's.
--
-- internal/barcode reads the codes on distributors' bags: Barcode/Eigp is eigp114.go, Barcode/Lcsc
-- is lcsc.go, with the fields both fill in Barcode/Label and Go's string functions in
-- Barcode/Text. Events is internal/events/broker.go: the channels that Subscribe makes are a list.
-- Subscribe and the function it returns hold the lock and are a step each; Publish holds the read
-- lock, so that any number of its calls are under way at once, and each round of their loops is a
-- step. Events/Queues is what they promise. Assistant/History is the trimming of a conversation in
-- internal/assistant/history.go.
--
-- HttpLib is internal/kicad/httplib, which serves the inventory to KiCad: the mapping of a part
-- (HttpLib/Mapping) and the refresh of the catalogue (HttpLib/Snapshot) over the answers of its
-- Source. HttpLib/Mapping/Loop composes it with Kicad/Bom: a part that is placed from the library
-- is read back from the schematic. Tags is the dictionary of suggestions in
-- internal/tags/dictionary.go. Title is CleanTitle of internal/datasheets/title.go, the test of
-- the titles that PDFs declare.
--
-- A text is a list of bytes in Kicad/Sexpr, Kicad/Bom, Kicad/Panel and Assistant, and a list of
-- code points, as Go ranges over it, in Kicad/Bom/Rows, Barcode, Tags, HttpLib and Title, for
-- texts that are valid UTF-8. The lower case of bytes is that of the ASCII letters: in a
-- property's name the Kelvin sign and the dotted capital I, which Go lowers to ASCII letters, are
-- kept.
--
-- A quantity is NUMERIC(18,4) in the tables: here an integer count of ten-thousandths, without the
-- bound of 18 digits and without the rounding of the float64 that the Go code computes with. The
-- counts of BOM lines are 64-bit integers, with their wrap-around. Identifiers and times are
-- numbers, supplied to each call by Env, as the database generates them; an identifier that is in
-- use is a violated constraint. Transactions are taken one after the other, as the row locks (FOR
-- UPDATE) make them for the lots they read. The foreign keys to suppliers and users, the failures
-- of the connection, and the columns that no method computes with are left out.
pub mod Base
pub mod Stock
pub mod Pick
pub mod Jobs
pub mod Kicad
pub mod Assistant
pub mod Barcode
pub mod Events
pub mod Tags
pub mod Title
pub mod HttpLib
