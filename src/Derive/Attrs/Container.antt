-- ===== src/Derive/Attrs/Container.antt =====
-- zizq-derive/src/attrs.rs: `ZizqAttrs`, collected from every `zizq` attribute of an item.
use text.Mathlib.Text.{◌==◌ as str_eq}
use zizq_rust.Prelude.{
  String, false, Bool, Option, none, List, [], ◌∷◌, ◌++◌, ◌||◌, Result, ok, err, and_then,
  if◌then◌else◌,
}
use zizq_rust.Derive.Meta.{
  Arg, nested, AttrError, duplicate, unknown, Exprs, parse_nested_meta, expr, flag, lit_str, once,
}
use zizq_rust.Derive.Attrs.{BackoffAttr, RetentionAttr, BudgetAttr, UniqueAttr, BatchAttr}
use zizq_rust.Derive.Attrs.Policies.{parse_backoff, parse_retention, parse_budget}
use zizq_rust.Derive.Attrs.Keys.{parse_unique, parse_batch}

pub record ZizqAttrs (E : Type 0) : Type 0 where
  pub name : Option String
  pub queue : Option String
  pub priority : Option E
  pub retry_limit : Option E
  pub backoff : Option (BackoffAttr E)
  pub retention : Option (RetentionAttr E)
  pub unique : Option UniqueAttr
  pub batch : Option (BatchAttr E)
  pub budgets : List (BudgetAttr E)

abbrev pub default_attrs : {E : Type 0} → ZizqAttrs E
default_attrs = record {
  name = none;
  queue = none;
  priority = none;
  retry_limit = none;
  backoff = none;
  retention = none;
  unique = none;
  batch = none;
  budgets = [];
}

abbrev pub has_key : {E : Type 0} → String → List (BudgetAttr E) → Bool
has_key key [] = false
has_key key (b ∷ rest) = str_eq b.key key || has_key key rest

module _ {E : Type 0} (x : Exprs E) where
  unfoldable pub unique_arg : Arg E → Result UniqueAttr AttrError
  unfolding parse_unique
  unique_arg (nested items) = parse_unique x (nested items)
  unique_arg arg =
      and_then (flag arg) (λ _. ok (record { selection = none; scope = none; prefix = none }))

  abbrev pub add_budget_attr : ZizqAttrs E → BudgetAttr E → Result (ZizqAttrs E) AttrError
  add_budget_attr s b =
      if has_key b.key s.budgets
      then err (duplicate b.key)
      else ok (record s { budgets = s.budgets ++ b ∷ [] })

  unfoldable pub attribute : ZizqAttrs E → String → Arg E → Result (ZizqAttrs E) AttrError
  unfolding parse_backoff parse_retention parse_budget unique_arg parse_batch
  attribute s name arg =
      if str_eq name "name"
      then once name s.name (lit_str x arg) (λ v. record s { name = v })
      else if str_eq name "queue"
      then once name s.queue (lit_str x arg) (λ v. record s { queue = v })
      else if str_eq name "priority"
      then once name s.priority (expr arg) (λ v. record s { priority = v })
      else if str_eq name "retry_limit"
      then once name s.retry_limit (expr arg) (λ v. record s { retry_limit = v })
      else if str_eq name "backoff"
      then once name s.backoff (parse_backoff arg) (λ v. record s { backoff = v })
      else if str_eq name "retention"
      then once name s.retention (parse_retention arg) (λ v. record s { retention = v })
      else if str_eq name "budget"
      then and_then (parse_budget x arg) (add_budget_attr s)
      else if str_eq name "unique"
      then once name s.unique (unique_arg arg) (λ v. record s { unique = v })
      else if str_eq name "batch"
      then once name s.batch (parse_batch x arg) (λ v. record s { batch = v })
      else err (unknown name)

  -- The attributes of an item, by their paths; those of others are passed over.
  unfoldable pub collect : ZizqAttrs E → List (String × Arg E) → Result (ZizqAttrs E) AttrError
  unfolding attribute
  collect s [] = ok s
  collect s ((path, arg) ∷ rest) =
      if str_eq path "zizq"
      then and_then (parse_nested_meta attribute s arg) (λ next. collect next rest)
      else collect s rest

  unfoldable pub parse_attrs : List (String × Arg E) → Result (ZizqAttrs E) AttrError
  unfolding collect
  parse_attrs attrs = collect default_attrs attrs
