-- ===== src/Batch.antt =====
-- zizq/src/batch.rs: the builder of a batch's jq expressions. `show` is `to_string` of a number.
use Prim.Native.String.{◌++◌ as str_append}
use zizq_rust.Prelude.{ℕ, String, List, [], ◌∷◌}
use zizq_rust.Enqueue.{BatchConfig}

pub data FoldMode : Type 0 where
  append dedup sorted : FoldMode

pub record BatchConfigAt : Type 0 where
  pub path : String
  pub limit : ℕ
  pub mode : FoldMode

unfoldable pub batch_at : String → ℕ → BatchConfigAt
batch_at path limit = record { path = path; limit = limit; mode = append }

unfoldable pub set_dedup : BatchConfigAt → BatchConfigAt
set_dedup b = record b { mode = dedup }

abbrev sorted_mode : FoldMode → FoldMode
sorted_mode append = sorted
sorted_mode mode = mode

unfoldable pub set_sorted : BatchConfigAt → BatchConfigAt
set_sorted b = record b { mode = sorted_mode b.mode }

-- `format!`, of the pieces in order.
abbrev concat : List String → String
concat [] = ""
concat (s ∷ rest) = str_append s (concat rest)

abbrev fold_of : FoldMode → String → String
fold_of append path = concat ("$existing | " ∷ path ∷ " += ($new | " ∷ path ∷ ")" ∷ [])
fold_of dedup path =
    concat ("$existing | " ∷ path ∷ " = ((" ∷ path ∷ ") + ($new | " ∷ path ∷ ") | unique)" ∷ [])
fold_of sorted path =
    concat ("$existing | " ∷ path ∷ " = ((" ∷ path ∷ ") + ($new | " ∷ path ∷ ") | sort)" ∷ [])

unfoldable pub keyed_by : (ℕ → String) → String → BatchConfigAt → BatchConfig
keyed_by show key b = record {
  key = key;
  when =
      concat (
        "(($existing | "
        ∷ b.path
        ∷ ") + ($new | "
        ∷ b.path
        ∷ ")) | length <= "
        ∷ show b.limit
        ∷ []);
  fold = fold_of b.mode b.path;
}
