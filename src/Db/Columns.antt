-- ===== src/Db/Columns.antt =====
-- The rows that pkg/db hands to the client of the database, a column at a time (`proto.Input` of
-- ch-go), and the `PersistableObject` of service.go that describes a table.
use Prim.Native.String.{String}
use eth_cl_state_analyzer.Common.{ℕ, Bool, List, [], ◌∷◌, ◌++◌}

-- A cell. A text that the source makes of a hash, a key or an address is the number that these
-- bytes spell, and `hex` is one made of bytes; an `i64` is its bit pattern; an `f32` is the number
-- that is converted to float32, and `gwei_as_eth` one that is divided by 10 ^ 9 there.
pub data Cell : Type 0 where
  u64 u32 u16 u8 i64 : ℕ → Cell
  flag : Bool → Cell
  f32 gwei_as_eth : ℕ → Cell
  str : ℕ → Cell
  text : String → Cell
  hex : List ℕ → Cell
  strs : List ℕ → Cell

pub record Column : Type 0 where
  pub name : String
  pub cells : List Cell

-- A table: its name, the columns that its INSERT query names, and the columns of its input, each
-- with the cell that an item gets there.
pub record Table (A : Type 0) : Type 0 where
  pub name : String
  pub query_columns : List String
  pub fields : List (String × (A → Cell))

module _ {A : Type 0} where
  -- The columns before the loop of an input function.
  unfoldable pub no_rows : List (String × (A → Cell)) → List Column
  no_rows [] = []
  no_rows ((name, cell) ∷ fields) = record { name = name; cells = [] } ∷ no_rows fields

  -- The body of the loop: each column appends its cell of the item.
  unfoldable pub append_row : List (String × (A → Cell)) → A → List Column → List Column
  append_row [] item columns = columns
  append_row (f ∷ fields) item [] = []
  append_row ((name, cell) ∷ fields) item (c ∷ columns) =
      record c { cells = c.cells ++ cell item ∷ [] } ∷ append_row fields item columns

  unfoldable pub append_rows : List (String × (A → Cell)) → List A → List Column → List Column
  unfolding append_row
  append_rows fields [] columns = columns
  append_rows fields (item ∷ items) columns =
      append_rows fields items (append_row fields item columns)

  -- The input function of a table.
  unfoldable pub input_of : Table A → List A → List Column
  unfolding no_rows append_rows
  input_of t items = append_rows t.fields items (no_rows t.fields)
