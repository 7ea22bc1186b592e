-- ===== src/Compile/Views.antt =====
-- query_api.go: `applyAsOf`, the query on the table of the history with the conditions of a view.
pub mod Clean
pub mod References
use litelog.Prelude.{
  ℕ, suc, ◌+◌, Bytes, Option, none, some, List, [], ◌∷◌, ◌++◌, map, ltb, text, if◌then◌else◌,
}
use litelog.Types.{GoValue, int64}
use litelog.Query.Algebra.{
  table_at, TableBinding, FilterArg, Filter, RawFilter, AlgebraicQuery, algebraic,
}
use litelog.Temporal.{DbView}

-- The index hints name indexes that the history does not have.
unfoldable pub on_history : Bytes → TableBinding → TableBinding
on_history hist tb = record tb { table = hist; index_hint = [] }

abbrev pub column_arg : Bytes → ℕ → Bytes → FilterArg
column_arg variable i column = record {
  variable = variable;
  table = table_at i;
  column = column;
  constant = none;
  value_type = 0;
}

abbrev pub constant_arg : ℕ → FilterArg
constant_arg n = record {
  variable = [];
  table = table_at 0;
  column = [];
  constant = some (int64 n);
  value_type = 0;
}

-- `column fn ?` on the table with this index.
abbrev pub compares : Bytes → Bytes → Bytes → ℕ → ℕ → Filter
compares fn variable column i n = record {
  fn = fn;
  args = column_arg variable i column ∷ constant_arg n ∷ [];
  binding = none;
}

-- The condition that no retraction up to the transaction is recorded.
unfoldable pub not_retracted : Bytes → Bytes → ℕ → RawFilter
not_retracted hist alias tx_id =
    let r = alias ++ text "_r" in
    record {
      sql =
          text "NOT EXISTS (SELECT 1 FROM "
          ++ hist
          ++ text " AS "
          ++ r
          ++ text " WHERE "
          ++ r
          ++ text ".e = "
          ++ alias
          ++ text ".e AND "
          ++ r
          ++ text ".a = "
          ++ alias
          ++ text ".a AND "
          ++ r
          ++ text ".v = "
          ++ alias
          ++ text ".v AND "
          ++ r
          ++ text ".added = 0 AND "
          ++ r
          ++ text ".tx <= ?)";
      params = some (int64 tx_id) ∷ [];
    }

pub not_ended : Bytes → ℕ → RawFilter
not_ended alias ms = record {
  sql = text "COALESCE(" ++ alias ++ text ".valid_to, 9223372036854775807) > ?";
  params = some (int64 ms) ∷ [];
}

-- The filters that one table gets, and its raw filters.
unfoldable pub view_filters : DbView → ℕ → Bytes → List Filter
view_filters view i alias =
    compares (text "=") (alias ++ text "_added") (text "added") i 1
    ∷ ((if ltb 0 view.tx_id
          then compares (text "<=") (alias ++ text "_tx") (text "tx") i view.tx_id ∷ []
          else [])
        ++ elim view.valid_time [
          | none ↦ []
          | some ms ↦ compares (text "<=") (alias ++ text "_vf") (text "valid_from") i ms ∷ []
        ])

unfoldable pub view_raw : DbView → Bytes → Bytes → List RawFilter
view_raw view hist alias =
    (if ltb 0 view.tx_id then not_retracted hist alias view.tx_id ∷ [] else [])
    ++ elim view.valid_time [ none ↦ [] | some ms ↦ not_ended alias ms ∷ [] ]

-- The loop over the tables, from an index on.
unfoldable pub all_view_filters : DbView → ℕ → List TableBinding → List Filter
all_view_filters view i [] = []
all_view_filters view i (tb ∷ tables) =
    view_filters view i tb.alias ++ all_view_filters view (i + 1) tables

unfoldable pub all_view_raw : DbView → Bytes → List TableBinding → List RawFilter
all_view_raw view hist [] = []
all_view_raw view hist (tb ∷ tables) = view_raw view hist tb.alias ++ all_view_raw view hist tables

unfoldable pub apply_as_of : DbView → Bytes → AlgebraicQuery → AlgebraicQuery
apply_as_of view hist (algebraic find tables joins fs raw nots ors orders agg) =
    algebraic find (map (on_history hist) tables) joins (fs ++ all_view_filters view 0 tables)
      (raw ++ all_view_raw view hist tables) nots ors orders agg
