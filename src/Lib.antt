-- ===== src/Lib.antt =====
-- litelog is an embedded database of facts (entity, attribute, value, transaction) in Go, on SQLite,
-- with Datalog queries. This library models its core and proves what makes it correct.
--
-- A caller defines attributes (attributes.go) and hands batches of facts to Transact (transact.go). A
-- batch runs inside one write transaction of a connection (pool.go): identity values are resolved to
-- entities first, and then each fact is encoded (values.go), appended to the history table `datoms`,
-- and written to `current_datoms`, which holds the facts that are true now. A query is EDN text: the
-- lexer and the parser of edn/ make nodes of it, query/parser.go clauses, query/algebrize.go an
-- algebraic query, and query/translate.go SQL text with parameters. A temporal view (query_api.go,
-- pull.go) reads the history as of a transaction instead of the current facts.
--
-- The files, each with the code that it is about:
--   Prelude          what all share: lists, byte strings, association lists, tests of numbers
--   Result, Action   Go's (value, error) results, and actions that carry a state along with them
--   Types            types.go
--   Values           values.go; RoundTrip and Order have its theorems
--   Store            schema.go: the tables as lists of rows, and the SQL statements of transact.go and
--                    attributes.go as functions on them, keys and conflicts included
--   Schema           attributes.go: the cache; Lookup has its laws
--   Pool             pool.go: counters, loadState, withConn and withWriteConn; Laws and Load. Open is
--                    Open with the scripts of schema.go, and Settled what it leaves of the pool
--   Attributes       attributes.go: DefineAttribute; Registry has what it keeps, and Defined what it
--                    answers
--   Transact         transact.go: one fact of a batch; Facts says what consistent tables are, and Single
--                    that one fact keeps them so; Transact/Batch is the whole of `transact`, with the
--                    invariant (Consistent), the history (History, by way of Growth), and views of it
--                    after later transactions (Past)
--   Temporal         query_api.go and pull.go: the conditions of temporal views on rows; AsOf
--   TypedRead        query_api.go and pull.go: values from typed columns; Agree
--   Compile          query_api.go: compileQuery. Inputs binds arguments, Views moves a query to the
--                    history, Params encodes parameters, Whole puts the steps together; Placeholders
--                    and Leftover are about the whole
--   Execute          query_api.go: executeQuery and the queries around it. Rows has the columns of a
--                    row, Binding is about parameters and Reading about results
--   Pull             pull.go: patterns, results and the pull of all attributes. Rows has the rows that
--                    statements select, Depth is about nesting, Specific has the pulls of named
--                    attributes, Plain what they mean; Simple, Agree and Endless
--   Functions        udf.go: registered functions, their installation and their values; Registered has
--                    what a connection finds, and Arguments what functions are given
--   Edn/Runes        the UTF-8 of the Go library, as far as the lexer relies on it; Utf8
--   Edn/Lexer        edn/token.go, edn/lexer.go; Laws and Quoted
--   Edn/Node         edn/node.go
--   Edn/Parser       edn/parser.go; Fuel and Shape
--   Query/Ast        query/ast.go
--   Query/Parser     query/parser.go; Print
--   Query/Algebra    query/algebrize.go: the data and TypedColumn
--   Query/Algebrize  query/algebrize.go: patterns, joins and filters; Phases has the subqueries and
--                    the whole of Algebrize; Ranges and Tables are about the tables that it names
--   Query/Translate  query/translate.go; Marks, Columns and Statement count placeholders, Inputs is
--                    about references to inputs, Selected about the SELECT
--   Query/Recursive  query/recursive.go: the SQL of a rule's body, and Plan the whole of PlanRecursive;
--                    Bound and Plan/Safe are about variables and arguments, Marks and
--                    Plan/Placeholders about placeholders
-- Modules named Tests run the definitions on small inputs.
--
-- A method of `DB` takes and returns the state `Db`; inside a transaction the state is `TxState`, and an
-- error leaves the state that it was met in. A function that the Go code writes in one piece is cut
-- along its comments and branches: each part says which it is. Values of 64 bits are natural numbers
-- below 2 ^ 64, which stand for their bit patterns, and the encoders' arithmetic on them is written out
-- with its wrap-around. The counters are computed with it when a database is opened; handing out an
-- ID does not wrap, since the counters grow by one. SQLite takes a NaN for NULL where a float is bound,
-- and keeps -0.0 as 0.0 in a column.
--
-- Recursion is structural nearly everywhere. The UTF-8 decoder has the number of bytes as fuel, since
-- each step takes a byte. The EDN parser's two functions call each other on fuel: a node and the list of
-- nodes up to a bracket take a token at each turn, so that twice the number of runes and one more
-- is enough, and the loop of ParseAll needs one turn for each rune. The loop of a pull over the rows
-- of an attribute has fuel, one turn for each row of the table and one more being enough where it is
-- known to end.
--
-- Parameters, which stand for code that is not in the repository: the answers of the connection
-- pool, what the function that ends an SQLite transaction does (documented: it commits if its error
-- is nil and rolls back if it is not), the clock, strconv.ParseFloat, the statements that SQLite
-- prepares, with their rows, its readings of a column, its answers to scripts, and CreateFunction.
-- In a pull, Prepare hands out the one statement that a connection has for a text, reset and
-- cleared. The texts of errors are left out. Go's maps are association lists: where the code walks a
-- map, the model takes one of the orders that Go may take.
--
-- Not modelled: SQLite's execution of SQL text, and with it what indexes, pragmas and migrations
-- do; the mutexes; and patterns of a pull that point back into themselves.
pub mod Prelude
pub mod Result
pub mod Action
pub mod Types
pub mod Values
pub mod Store
pub mod Schema
pub mod Pool
pub mod Attributes
pub mod Transact
pub mod Temporal
pub mod TypedRead
pub mod Compile
pub mod Execute
pub mod Pull
pub mod Functions
pub mod Edn
pub mod Query
