-- ===== src/Derive/Attrs/Policies.antt =====
-- zizq-derive/src/attrs.rs: the bodies of `backoff`, `retention` and `budget`.
use text.Mathlib.Text.{◌==◌ as str_eq}
use zizq_rust.Prelude.{String, Option, some, none, Result, ok, err, and_then, if◌then◌else◌}
use zizq_rust.Derive.Meta.{
  Arg, nested, AttrError, unknown, requires, two_strategies, takes_no_fields, Exprs,
  parse_nested_meta, expr, flag, lit_str, once,
}
use zizq_rust.Derive.Attrs.{
  BackoffAttr, RetentionAttr, BudgetStrategyAttr, while_in_flight, time_based, BudgetPolicyAttr,
  BudgetAttr, BackoffFields, TimeFields, PolicyFields, BudgetFields,
}

module _ {E : Type 0} where
  abbrev pub backoff_field : BackoffFields E → String → Arg E → Result (BackoffFields E) AttrError
  backoff_field s name arg =
      if str_eq name "base_ms"
      then once name s.base_ms (expr arg) (λ v. record s { base_ms = v })
      else if str_eq name "exponent"
      then once name s.exponent (expr arg) (λ v. record s { exponent = v })
      else if str_eq name "jitter_ms"
      then once name s.jitter_ms (expr arg) (λ v. record s { jitter_ms = v })
      else err (unknown name)

  abbrev pub all_backoff : Option E → Option E → Option E → Result (BackoffAttr E) AttrError
  all_backoff (some b) (some x) (some j) = ok (record { base_ms = b; exponent = x; jitter_ms = j })
  all_backoff _ _ _ = err (requires "backoff")

  unfoldable pub parse_backoff : Arg E → Result (BackoffAttr E) AttrError
  parse_backoff arg =
      and_then
        (parse_nested_meta backoff_field
          (record { base_ms = none; exponent = none; jitter_ms = none }) arg)
        (λ s. all_backoff s.base_ms s.exponent s.jitter_ms)

  abbrev pub retention_field : RetentionAttr E → String → Arg E → Result (RetentionAttr E) AttrError
  retention_field s name arg =
      if str_eq name "completed_ms"
      then once name s.completed_ms (expr arg) (λ v. record s { completed_ms = v })
      else if str_eq name "dead_ms"
      then once name s.dead_ms (expr arg) (λ v. record s { dead_ms = v })
      else err (unknown name)

  abbrev pub some_retention : Option E → Option E → Result (RetentionAttr E) AttrError
  some_retention none none = err (requires "retention")
  some_retention c d = ok (record { completed_ms = c; dead_ms = d })

  unfoldable pub parse_retention : Arg E → Result (RetentionAttr E) AttrError
  parse_retention arg =
      and_then
        (parse_nested_meta retention_field (record { completed_ms = none; dead_ms = none }) arg)
        (λ s. some_retention s.completed_ms s.dead_ms)

  abbrev pub time_field : TimeFields E → String → Arg E → Result (TimeFields E) AttrError
  time_field s name arg =
      if str_eq name "duration_ms"
      then once name s.duration_ms (expr arg) (λ v. record s { duration_ms = v })
      else if str_eq name "burst"
      then once name s.burst (expr arg) (λ v. record s { burst = v })
      else err (unknown name)

  unfoldable pub parse_time_based : Arg E → Result (BudgetStrategyAttr E) AttrError
  parse_time_based arg =
      and_then (parse_nested_meta time_field (record { duration_ms = none; burst = none }) arg)
        (λ s. elim s.duration_ms [
          | none ↦ err (requires "duration_ms")
          | some d ↦ ok (time_based d s.burst)
        ])

  abbrev pub no_fields : Arg E → Result (BudgetStrategyAttr E) AttrError
  no_fields (nested items) = err takes_no_fields
  no_fields arg = and_then (flag arg) (λ _. ok while_in_flight)

  abbrev pub strategy_once :
      PolicyFields E → Result (BudgetStrategyAttr E) AttrError → Result (PolicyFields E) AttrError
  strategy_once s made = elim s.strategy [
    | some _ ↦ err two_strategies
    | none ↦ and_then made (λ v. ok (record s { strategy = some v }))
  ]

  unfoldable pub policy_field : PolicyFields E → String → Arg E → Result (PolicyFields E) AttrError
  unfolding parse_time_based
  policy_field s name arg =
      if str_eq name "allocation"
      then once name s.allocation (expr arg) (λ v. record s { allocation = v })
      else if str_eq name "while_in_flight"
      then strategy_once s (no_fields arg)
      else if str_eq name "time_based"
      then strategy_once s (parse_time_based arg)
      else err (unknown name)

  abbrev pub all_policy :
      Option E → Option (BudgetStrategyAttr E) → Result (BudgetPolicyAttr E) AttrError
  all_policy none _ = err (requires "allocation")
  all_policy (some a) none = err (requires "strategy")
  all_policy (some a) (some s) = ok (record { allocation = a; strategy = s })

  unfoldable pub parse_budget_policy : Arg E → Result (BudgetPolicyAttr E) AttrError
  unfolding parse_time_based policy_field
  parse_budget_policy arg =
      and_then (parse_nested_meta policy_field (record { allocation = none; strategy = none }) arg)
        (λ s. all_policy s.allocation s.strategy)

  module _ (x : Exprs E) where
    unfoldable pub budget_field :
        BudgetFields E → String → Arg E → Result (BudgetFields E) AttrError
    unfolding parse_budget_policy
    budget_field s name arg =
        if str_eq name "key"
        then once name s.key (lit_str x arg) (λ v. record s { key = v })
        else if str_eq name "cost"
        then once name s.cost (expr arg) (λ v. record s { cost = v })
        else if str_eq name "create_with"
        then once name s.create_with (parse_budget_policy arg) (λ v. record s { create_with = v })
        else err (unknown name)

    unfoldable pub parse_budget : Arg E → Result (BudgetAttr E) AttrError
    unfolding budget_field
    parse_budget arg =
        and_then
          (parse_nested_meta budget_field (record { key = none; cost = none; create_with = none })
            arg)
          (λ s. elim s.key [
            | none ↦ err (requires "key")
            | some key ↦ ok (record { key = key; cost = s.cost; create_with = s.create_with })
          ])
