-- ===== src/Tests/Kind.antt =====
-- The batch key of a derived job kind.
use zizq_rust.Prelude.{◌≡◌, refl, ℕ, String, Option, some, none, List, [], ◌∷◌, codes}
use zizq_rust.Enqueue.{JobKind}
use zizq_rust.JqPath.{field, payload_except}
use zizq_rust.JqPath.Removal.{replace}
use zizq_rust.Derive.Meta.{Exprs, Arg, nested, assigned, item as meta, no_more}
use zizq_rust.Derive.Attrs.{BatchAttr, append}
use zizq_rust.Derive.Attrs.Container.{ZizqAttrs, parse_attrs}
use zizq_rust.Derive.Path.{parse_path}
use zizq_rust.Derive.Kind.{Emitted, emit_path, batch_config, derive_job_kind, emit_kind, emit_batch}
use zizq_rust.Derive.Kind.Keys.{derive_job_kind-batch}
use zizq_rust.Tests.Trees.{Tree, leaf, members, no_fields, entry, trees}

data Expr : Type 0 where
  number : ℕ → Expr
  text : String → Expr

abbrev str_of : Expr → Option String
str_of (text s) = some s
str_of (number n) = none

abbrev num_of : Expr → ℕ
num_of (number n) = n
num_of (text s) = 0

abbrev exprs : Exprs Expr
exprs = record { as_str = str_of; as_bool = λ e. none; elems = λ e. none }

abbrev emitted : Emitted Expr ℕ Tree trees
emitted = record {
  number = num_of;
  real = num_of;
  to_value = λ t. t;
  as_bytes = codes;
  from_codes = λ c. "ids";
  show = λ n. "10";
  hash_hex = λ v. "00";
}

abbrev batch : BatchAttr Expr
batch = record { path = ".ids"; limit = number 10; fold = append; key = none }

abbrev attrs : List (String × Arg Expr)
attrs =
    (
      "zizq",
      nested (
          meta (some "batch")
            (nested (
              meta (some "path") (assigned (text ".ids"))
                (meta (some "limit") (assigned (number 10)) no_more)))
            no_more),
    )
    ∷ []

abbrev read : ZizqAttrs Expr
read = record {
  name = none;
  queue = none;
  priority = none;
  retry_limit = none;
  backoff = none;
  retention = none;
  unique = none;
  batch = some batch;
  budgets = [];
}

abbrev notify : JobKind ℕ Tree
notify = record {
  name = "Notify";
  queue = "default";
  priority = none;
  retry_limit = none;
  backoff = none;
  retention = none;
  budgets = [];
  unique_key = λ t. none;
  batch = λ t.
      some (batch_config emitted "Notify" batch (payload_except trees t ((field "ids" ∷ []) ∷ [])));
}

abbrev with_ids : ℕ → Tree
with_ids n = members (entry "ids" (leaf n) (entry "to" (leaf 7) no_fields))

derive_job_kind-batch_example : notify.batch (with_ids 2) ≡ notify.batch (with_ids 1)
unfolding parse_attrs emit_path parse_path derive_job_kind emit_kind emit_batch replace
derive_job_kind-batch_example =
    derive_job_kind-batch emitted exprs "Notify" attrs read batch (field "ids" ∷ []) notify refl
      refl refl refl refl (with_ids 1) (with_ids 2) (leaf 2) refl
