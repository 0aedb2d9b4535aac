-- ===== src/Lib.antt =====
-- The core of uql, an ORM whose queries are plain objects: the queries it builds, the text it writes
-- into SQL, the pages and rows it reads, its transactions and the connections they hold, the calls
-- that its HTTP layer takes, and the migrations that change a schema.
--
-- Parts, each with the file that models it (paths under packages/orm/src):
--   Base, Text, Result: Boolean tests on numbers and strings, lists, a text as its character codes, and
--     the errors that the code throws, as values.
--   Dialect.Like: dialect/operators.ts (likeLiteral, likePattern, likeTokens, likeRegex, LIKE_OPS) and
--     escapeRegExp of util/string.util.ts. A text is the list of its character codes. A regular
--     expression is the list of pieces that the code joins.
--   Dialect.WhereSql: renderWhere, compare and compareLogicalOperator of dialect/abstractSqlDialect.ts,
--     with chain and conjunction, over the maps of Querier.Where. A condition on a column is one token. Grammar
--     says how SQL reads the tokens, and Unique has a reader of them. The fuel of chain_on is the number of the
--     parts, which is enough, as Fuel has it.
--   Dialect.SqlLiteral: util/sqlLiteral.ts, with utcTimestamp and bytesToHex. A value is a JsValue, whose
--     numbers and dates come with the text that JavaScript gives them, and an object with the answers of
--     escapeObject's tests of it, as its constructor. Like an engine does, Scan reads
--     a literal back out of a statement.
--   Querier.Where: the $where maps that util/query.util.ts builds, and namesRows of
--     dialect/operators.ts. Meaning says what a map selects, over rows whose fields hold a value or null.
--   Querier.Keyset: querier/keyset.ts. keyset_clauses is keysetClauses; Read has assertPageable and the
--     two halves of keysetRead, the query and the page. There a cursor is the values that it decodes to, and
--     a value is compared by an order that is given. Prefix is totalPrefix, over declaredIndexes of
--     util/ddlExpression.util.ts. The rows that a query is answered are those of a table in the order that is
--     asked: for a page after a cursor it is the page's own, and Before reads it off the query's $sort.
--   Querier.Cursor: querier/cursor.ts. A document is a JSON value; what the platform encodes and decodes is
--     in CursorPlatform, and Carries says that it reads back the document that it wrote.
--   Querier.Transaction: querier/transaction.ts. A step is what runs between two awaits: a look of claim
--     at the slot, or free. Transactions on one connection are numbers.
--   Querier.Scope: transaction, onCommit, beginTransaction, commitTransaction, rollbackTransaction and release
--     of querier/abstractQuerier.ts, with openTransaction and endTransaction of querier/abstractSqlQuerier.ts.
--     A callback is a tree of what it awaits, one thing at a time: it sends statements, registers callbacks and
--     nests transactions, and neither releases the querier nor begins a manual transaction. The driver and the
--     engine are an Engine, and Laws says what engines document of transactions and savepoints; an engine
--     without savepoints is one that fails to open them.
--   Querier.RowReader: querier/rowReader.ts. A raw row is the members of a JSON value; the decoders and
--     JSON.parse are given. A row that the code changes in place is one that is returned.
--   Querier.SharedHandle: querier/abstractSharedHandleQuerierPool.ts. A step is what getQuerier, an open or end
--     runs between two awaits.
--   Migrate.SchemaChange: migrate/schemaChange.ts over SchemaDiff of type/migration.ts.
--   Migrate.Migrator: the run of migrate/migrator.ts (journal, migrate, runInOrder, runMigration,
--     loadMigration, migrationFiles) and the journal of migrate/storage/databaseStorage.ts. What a file
--     exports, the order of names and the session's transaction are fields of MigrationSession;
--     TransactionLaws is what a session promises of the last: it ends as its work does, or fails and leaves
--     the database as it was.
--   Migrate.Target: sqlSession, withForeignKeysOff and mongoSession of migrate/migrationTarget.ts over a querier whose own
--     transaction and whose answers to two pragmas are given. EngineLaws is what engines promise of that
--     transaction, and sql_session-TransactionLaws is how the session keeps its promise by it. The switch of
--     foreign keys, a setting of the connection, is taken to succeed and is not modelled. The statements of a
--     schema change that an engine commits by itself are not either: there a transaction that fails leaves
--     the whole of its work or none.
--   Migrate.Lock: holdingLock of migrate/migrationLock.ts. The lock, the clock and the wait are fields of
--     LockSession, where taking the lock may reject; ClockLaws is what the clock promises.
--   Schema.CanonicalType: schema/canonicalType.ts over the types of schema/types.ts: the comparisons, and
--     in Names the table of type names and the names that a canonical type has.
--   Http.Json, Http.Wire, Http.Exposure, Http.Hide: http/wireCall.ts (API_OPS, parseWireCall) and
--     http/exposure.ts. What a client sends is a JSON value. getMeta is a function from the name of an
--     entity's class, and the entities that are served are a test on it. A refusal is its error, without
--     its message and path.
--   Schema.CreateOrder: schema/dependencyGraph.ts. visit takes fuel, of which one more than the longest
--     chain of dependencies is enough.
--   Schema.Match, Schema.Nodes, Schema.Differ, Schema.Renames: schema/matchByKey.ts and
--     schema/schemaASTDiffer.ts over the nodes of schema/types.ts, with isOwnedName and qualifyName of
--     util/sql.util.ts. A schema is its tables and its foreign keys in order; the type of a default, how two
--     defaults compare and how a type is normalized are given. Indexes are not compared there.
--   Schema.Indexes: schema/indexDifferences.ts, with what it reads of util/indexEntry.util.ts, type/vector.ts and
--     util/dialect.util.ts. The names that uql derives for an index are a test that is given.
--
-- Every function of the code but visit, chain and the loop of holdingLock is structural recursion. The
-- last takes fuel too, of which two more than the timeout holds waits of 250 milliseconds is enough.
--
-- Not modelled: the drivers, the pools of connections and the CLI (they do input and output), the
-- type-level part of the sources, the names derived for indexes, the JSON paths, relations and raw SQL
-- of a $where map, how a save cascades to relations, transactions nested at once in one another's flow,
-- and the parts of the SQL dialects that only concatenate text.
pub mod Base
pub mod Text
pub mod Result
pub mod Dialect
pub mod Querier
pub mod Migrate
pub mod Schema
pub mod Http
