-- ===== src/Derive/Kind.antt =====
-- zizq-derive/src/lib.rs: the job kind that the derived implementation defines. The tokens that are emitted are
-- taken as the values that they stand for.
pub mod Keys
use zizq_rust.Prelude.{
  ℕ, String, Bool, true, false, Option, some, none, List, [], ◌∷◌, Result, ok, err, Bytes,
  unwrap_or, map, if◌then◌else◌,
}
use zizq_rust.Patch.Job.{BackoffConfig}
use zizq_rust.Budget.{
  BudgetBindingInput, BudgetStrategy, time_based as timed, while_in_flight as concurrent,
  from_millis, BudgetPolicy, new_policy,
}
use zizq_rust.Enqueue.{
  JobKind, RetentionConfig, UniqueKey, UniqueScope, queued as queued_scope, active as active_scope,
  exists as exists_scope, BatchConfig,
}
use zizq_rust.Batch.{batch_at, set_dedup, set_sorted, keyed_by, BatchConfigAt}
use zizq_rust.UniqueKey.{hash_of, tagged_hash_of, set_scope}
use zizq_rust.JqPath.{PathStep, field, index, payload_except, payload_only}
use zizq_rust.JqPath.Values.{Json}
use zizq_rust.Derive.Meta.{Arg, AttrError, Exprs}
use zizq_rust.Derive.Attrs.{
  BackoffAttr, RetentionAttr, BudgetAttr, BudgetStrategyAttr, while_in_flight, time_based,
  BudgetPolicyAttr, UniqueAttr, UniqueSelection, only, except, UniqueScopeAttr, queued, active,
  exists, BatchAttr, BatchKeyConfig, BatchFoldMode, append, dedup, sorted,
}
use zizq_rust.Derive.Attrs.Container.{ZizqAttrs, parse_attrs}
use zizq_rust.Derive.Path.{
  PathStep as ParsedStep, field as parsed_field, index as parsed_index, Run, done, panicked,
  out_of_fuel, PathParseError, parse_path,
}

pub data EmitError : Type 0 where
  invalid_attribute : AttrError → EmitError
  invalid_path : String → PathParseError → EmitError

-- What an expansion comes to: the parser of paths may panic.
abbrev pub Expansion : Type 0 → Type 0
Expansion A = Run (Result A EmitError)

abbrev pub expands : {A B : Type 0} → Expansion A → (A → Expansion B) → Expansion B
expands (done (ok a)) f = f a
expands (done (err e)) f = done (err e)
expands panicked f = panicked
expands out_of_fuel f = out_of_fuel

-- What the emitted code uses: the values of constant expressions, the serialisation of a payload, the texts of
-- strings and numbers, and the hash of a value.
pub record Emitted (E N T : Type 0) (json : Json) : Type 0 where
  pub number : E → ℕ
  pub real : E → N
  pub to_value : T → json.Value
  pub as_bytes : String → Bytes
  pub from_codes : List ℕ → String
  pub show : ℕ → String
  pub hash_hex : json.Value → String

-- A literal that is left out counts as true.
abbrev pub prefix_on : Option Bool → Bool
prefix_on none = true
prefix_on (some b) = b

abbrev pub scope_value : UniqueScopeAttr → UniqueScope
scope_value queued = queued_scope
scope_value active = active_scope
scope_value exists = exists_scope

abbrev pub key_selection : Option BatchKeyConfig → Option UniqueSelection
key_selection none = none
key_selection (some k) = k.selection

abbrev pub key_prefix : Option BatchKeyConfig → Option Bool
key_prefix none = none
key_prefix (some k) = k.prefix

abbrev pub fold_modifier : BatchFoldMode → BatchConfigAt → BatchConfigAt
unfolding set_dedup set_sorted
fold_modifier append b = b
fold_modifier dedup b = set_dedup b
fold_modifier sorted b = set_sorted b

module _ {E N T : Type 0} {json : Json} (m : Emitted E N T json) where
  -- `PathStep` of the derive crate as that of the library.
  abbrev pub runtime_step : ParsedStep → PathStep
  runtime_step (parsed_field name) = field (m.from_codes name)
  runtime_step (parsed_index i) = index i

  abbrev pub parsed :
      String → Run (Result (List ParsedStep) PathParseError) → Expansion (List PathStep)
  parsed path (done (ok steps)) = done (ok (map runtime_step steps))
  parsed path (done (err e)) = done (err (invalid_path path e))
  parsed path panicked = panicked
  parsed path out_of_fuel = out_of_fuel

  unfoldable pub emit_path : String → Expansion (List PathStep)
  unfolding parse_path
  emit_path path = parsed path (parse_path (m.as_bytes path))

  unfoldable pub emit_paths : List String → Expansion (List (List PathStep))
  unfolding emit_path
  emit_paths [] = done (ok [])
  emit_paths (path ∷ rest) =
      expands (emit_path path)
        (λ steps. expands (emit_paths rest) (λ more. done (ok (steps ∷ more))))

  -- The hash of a payload, or of a part of it, with or without the name of the kind before it.
  abbrev pub hash_call : Bool → String → json.Value → UniqueKey
  unfolding tagged_hash_of hash_of
  hash_call prefix name v =
      if prefix then tagged_hash_of m.hash_hex name v else hash_of m.hash_hex v

  abbrev pub with_scope : Option UniqueScopeAttr → UniqueKey → UniqueKey
  unfolding set_scope
  with_scope none key = key
  with_scope (some s) key = set_scope (scope_value s) key

  abbrev pub unique_hashable : Option UniqueSelection → Expansion (json.Value → json.Value)
  unfolding emit_paths payload_only payload_except
  unique_hashable none = done (ok (λ v. v))
  unique_hashable (some (only paths)) =
      expands (emit_paths paths) (λ p. done (ok (λ v. payload_only json v p)))
  unique_hashable (some (except paths)) =
      expands (emit_paths paths) (λ p. done (ok (λ v. payload_except json v p)))

  unfoldable pub emit_unique_key : String → UniqueAttr → Expansion (T → Option UniqueKey)
  unfolding unique_hashable with_scope hash_call
  emit_unique_key name u = expands (unique_hashable u.selection) (λ hashable. done (
      ok (λ t.
        some (with_scope u.scope (hash_call (prefix_on u.prefix) name (hashable (m.to_value t)))))))

  -- The path of the batch is left out of the hash along with the paths of `except`.
  unfoldable pub batch_hashable :
      Option UniqueSelection → List PathStep → Expansion (json.Value → json.Value)
  unfolding emit_paths payload_only payload_except
  batch_hashable none batch_path = done (ok (λ v. payload_except json v (batch_path ∷ [])))
  batch_hashable (some (only paths)) batch_path =
      expands (emit_paths paths) (λ p. done (ok (λ v. payload_only json v p)))
  batch_hashable (some (except paths)) batch_path =
      expands (emit_paths paths) (λ p. done (ok (λ v. payload_except json v (batch_path ∷ p))))

  unfoldable pub emit_batch_key_hashable :
      Option BatchKeyConfig → List PathStep → Expansion (json.Value → json.Value)
  unfolding batch_hashable
  emit_batch_key_hashable key batch_path = batch_hashable (key_selection key) batch_path

  -- The configuration of a batch, of the part of a payload that is hashed.
  unfoldable pub batch_config : String → BatchAttr E → json.Value → BatchConfig
  unfolding hash_call fold_modifier keyed_by batch_at
  batch_config name b v =
      keyed_by m.show (hash_call (prefix_on (key_prefix b.key)) name v).key
        (fold_modifier b.fold (batch_at b.path (m.number b.limit)))

  unfoldable pub emit_batch : String → BatchAttr E → Expansion (T → Option BatchConfig)
  unfolding emit_path emit_batch_key_hashable batch_config
  emit_batch name b = expands (emit_path b.path) (λ steps.
      expands (emit_batch_key_hashable b.key steps)
        (λ hashable. done (ok (λ t. some (batch_config name b (hashable (m.to_value t)))))))

  abbrev pub constant : Option E → Option ℕ
  constant none = none
  constant (some e) = some (m.number e)

  abbrev pub backoff_const : Option (BackoffAttr E) → Option (BackoffConfig N)
  backoff_const none = none
  backoff_const (some b) = some (record {
    base_ms = m.number b.base_ms;
    exponent = m.real b.exponent;
    jitter_ms = m.number b.jitter_ms;
  })

  abbrev pub retention_const : Option (RetentionAttr E) → Option RetentionConfig
  retention_const none = none
  retention_const (some r) =
      some (record { completed_ms = constant r.completed_ms; dead_ms = constant r.dead_ms })

  unfoldable pub emit_budget_strategy : BudgetStrategyAttr E → BudgetStrategy
  emit_budget_strategy while_in_flight = concurrent
  emit_budget_strategy (time_based d burst) = timed (from_millis (m.number d)) (constant burst)

  abbrev pub policy_value : Option (BudgetPolicyAttr E) → Option BudgetPolicy
  unfolding emit_budget_strategy new_policy
  policy_value none = none
  policy_value (some p) =
      some (new_policy (m.number p.allocation) (emit_budget_strategy p.strategy))

  abbrev pub budget_entry : BudgetAttr E → BudgetBindingInput
  unfolding policy_value
  budget_entry b = record {
    key = b.key;
    cost = constant b.cost;
    create_with = policy_value b.create_with;
  }

  abbrev pub unique_key_fn : String → Option UniqueAttr → Expansion (T → Option UniqueKey)
  unfolding emit_unique_key
  unique_key_fn name none = done (ok (λ t. none))
  unique_key_fn name (some u) = emit_unique_key name u

  abbrev pub batch_fn : String → Option (BatchAttr E) → Expansion (T → Option BatchConfig)
  unfolding emit_batch
  batch_fn name none = done (ok (λ t. none))
  batch_fn name (some b) = emit_batch name b

  -- `ty` is the identifier of the type. What is not set keeps the default of the trait.
  unfoldable pub emit_kind : String → ZizqAttrs E → Expansion (JobKind N T)
  unfolding unique_key_fn batch_fn budget_entry
  emit_kind ty attrs =
      let name = unwrap_or attrs.name ty in
      expands (unique_key_fn name attrs.unique) (λ unique_key.
        expands (batch_fn name attrs.batch) (λ batch. done (
          ok (record {
            name = name;
            queue = unwrap_or attrs.queue "default";
            priority = constant attrs.priority;
            retry_limit = constant attrs.retry_limit;
            backoff = backoff_const attrs.backoff;
            retention = retention_const attrs.retention;
            budgets = map budget_entry attrs.budgets;
            unique_key = unique_key;
            batch = batch;
          }))))

  abbrev pub emit_parsed : String → Result (ZizqAttrs E) AttrError → Expansion (JobKind N T)
  unfolding emit_kind
  emit_parsed ty (ok attrs) = emit_kind ty attrs
  emit_parsed ty (err e) = done (err (invalid_attribute e))

  unfoldable pub derive_job_kind :
      Exprs E → String → List (String × Arg E) → Expansion (JobKind N T)
  unfolding emit_parsed parse_attrs
  derive_job_kind x ty attrs = emit_parsed ty (parse_attrs x attrs)
