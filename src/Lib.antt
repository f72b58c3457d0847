-- ===== src/Lib.antt =====
-- ModelsDB keeps a catalog of language models. Every fact about a model is a cell: a value of the model
-- in a column, stamped with the source that stated it. What is shown of a column is the answer of its
-- first source, in the column's declared order, that has a cell. The sources are OpenRouter and
-- HuggingFace, which are automatic, research, the reader's own hand, and the app itself.
--
-- Files, by the part of the program that they model:
--   Store/Source     internal/store/source.go: the sources and their kinds
--   Store/Schema     the tables of internal/dbcore/db.go and of its later migrations as one record, Db;
--                    the refusals of internal/store as a result type; modelMustExist, columnByKey,
--                    stampModelWritten
--   Store/Cells      internal/store/cells.go: sortKeyFor, writeOneCell, WriteCells
--   Store/Columns    internal/store/cells.go and custom_columns.go: CreateColumn, checkSourceList,
--                    cleanOptions, DeleteColumn, RelabelColumn
--   Store/Colors     internal/store/colors.go: which colour rules a column takes
--   Store/Own        internal/store/savecells.go and rounding.go: sourceForOwnWrite, writeOwnCells and
--                    the check of every value before a row is made
--   Store/Shipped    internal/store/shipped.go and feedabout.go: seeding the shipped columns, what kind
--                    a column is, declaring every column's sources at a start
--   Store/Reads      the answers view of internal/dbcore/pivotcontract.go and the loop body of
--                    AllProvenance of internal/store/provenance.go
--   Store/Variations internal/store/variations.go and removal.go: FileAsVariation, UnfileVariation,
--                    SetHidden, DeleteModelPermanently
--   Store/Reconcile  internal/store/reconcile.go: planReconcile, renameRow, mergeRowInto,
--                    ReconcileRenamedModel
--   Shared/Number    internal/shared/number.go and rounding.go: ParseNumber, TwoDecimals
--   Catalog/Pacing   internal/catalog/pacing.go: the pause, the back-off and the retry loop
--   SelfUpdate/Sums  internal/selfupdate/sums.go: ParseSums, FormatSums, CheckAsset, CheckNewer
--   App/Refresh      internal/app/refresh.go and modelupdate.go: the controller of the refresh as steps
--                    between its locked sections, the record of a run, modelUpdateDue
--   App/Search       internal/app/searchsyntax.go: parseSearch and matches
--   App/Closeness    internal/app/modelquery.go and similarnames.go: editDistance, sharesAWord,
--                    closenessReason
--   App/Query        internal/app/modelquery.go: in Query the values, in Query/Read readCellTest,
--                    readLinkTest and readHideFree, in Query/Match holdsValue and the matches methods, in
--                    Query/Answer parseModelQuery, filterAndProject and project
--   App/Similar      internal/app/similarnames.go: foldName, nameCloseness, rankSimilarModels, and in
--                    Similar/Question parseSimilarQuery; closeColumns of modelquery.go
--   App/Backup       internal/app/backupschedule.go: the daily backup, its gate, performBackup,
--                    handleBackupRun, listConfiguredBackups
--   Prelude          what all of them share: tests on numbers, lists, tables by key, text, runes, integers
-- The children of a file hold its theorems, and the files whose names end in Tests runs at concrete inputs.
--
-- How the state corresponds. The text of a request and of a row is a list of code points, of which the
-- program reads the ASCII ones alone or maps each by itself; the rows that processModels builds are tables. Db holds the rows of models, columns, cells and source_records, each by
-- its primary key; column_options and column_sources are lists inside a column, whose order is their
-- position and rank. A function that runs in a transaction is a function from Db to a result that is
-- the new Db or a refusal; `after` gives what is kept, which on a refusal is the Db before. A Go map is
-- a table whose first row for a key counts. A source, a kind of value and a way to resolve are texts in
-- Go; here a text becomes one of the known ones by the function that the program validates it with. A
-- refusal keeps which error it is and the key it names, not its wording. The figure of a number cell is
-- the exact decimal that its text states, whose nearest float64 the program stores.
--
-- The numbers are the native ones. Go's int64 is written out where a product can pass its range
-- (`wrap64`), and a version's parts are bounded by 2^63 as strconv.Atoi bounds them. The retry loop
-- recurses on the retries left, of which the program gives five. The loop of parseSearch over a text has the length of
-- the text as fuel, of which each turn takes at least one. Every other loop is over a list.
--
-- Parameters: the time of a call, http.ParseTime, the responses of a server, the clock, time.Parse,
-- filepath.Clean, what the file system answers, what ContentDigest, the fingerprint of the files and
-- BackupTo answer at each moment of a call that backs up, what a fetch of the catalog answers, the feed
-- paths that columns are made from, the random number of a pause, the snapshot before a reconciliation,
-- the hash SHA-256, the tables of package unicode beyond ASCII, json.Unmarshal of an array, the order of
-- float64, and the float64 operations that TwoDecimals is written with.
--
-- Not modelled: failures of the database engine other than the refusals of its constraints, the
-- network, the file system, the migrations, the HTTP handlers, the command line and the browser front
-- end. A request to back up now and an attempt of the scheduler come one after the other; the database
-- may be written between any two of their readings.
pub mod Prelude
pub mod App
pub mod Shared
pub mod Catalog
pub mod SelfUpdate
pub mod Store
