-- ===== src/Derive/Attrs/Written.antt =====
-- zizq-derive/src/attrs.rs: how attributes are written, and that they are read as they are written.
use zizq_rust.Prelude.{
  ◌≡◌, refl, ap, String, Bool, Option, some, none, List, [], ◌∷◌, map, Result, ok, and_then,
}
use zizq_rust.Derive.Meta.{
  Arg, bare, assigned, nested, Metas, no_more, item, AttrError, Exprs, each, lit_str,
}
use zizq_rust.Derive.Attrs.{
  BackoffAttr, RetentionAttr, BudgetStrategyAttr, while_in_flight, time_based, BudgetPolicyAttr,
  BudgetAttr, UniqueSelection, only, except, UniqueScopeAttr, queued, active, exists, UniqueAttr,
  BatchKeyConfig, BatchFoldMode, append, dedup, sorted, BatchAttr, UniqueFields,
}
use zizq_rust.Derive.Attrs.Policies.{
  parse_backoff, parse_retention, parse_time_based, parse_budget_policy, parse_budget, policy_field,
  budget_field,
}
use zizq_rust.Derive.Attrs.Keys.{
  parse_unique, parse_batch, parse_batch_key, parse_str_array, strings, unique_field, key_field,
  batch_field,
}

-- The expressions that are literals and arrays.
pub record Literals {E : Type 0} (x : Exprs E) : Type 0 where
  pub str : String → E
  pub bool : Bool → E
  pub array : List E → E
  pub as_str-str : (s : String) → x.as_str (str s) ≡ some s
  pub as_bool-bool : (b : Bool) → x.as_bool (bool b) ≡ some b
  pub elems-array : (es : List E) → x.elems (array es) ≡ some es

abbrev pub optional : {A E : Type 0} → String → (A → Arg E) → Option A → Metas E → Metas E
optional name write none rest = rest
optional name write (some a) rest = item (some name) (write a) rest

-- The loop over an item that may be left out.
pub each-optional :
    {A E S : Type 0} (f : S → String → Arg E → Result S AttrError) (name : String)
    (write : A → Arg E) (o : Option A) (rest : Metas E) (store : Option A → S)
    → ((a : A) → f (store none) name (write a) ≡ ok (store (some a)))
    → each f (store none) (optional name write o rest) ≡ each f (store o) rest
each-optional f name write none rest store step = refl
each-optional f name write (some a) rest store step =
    ap (λ r. and_then r (λ next. each f next rest)) (step a)

module _ {E : Type 0} where
  abbrev pub write_backoff : BackoffAttr E → Arg E
  write_backoff b = nested (
      item (some "base_ms") (assigned b.base_ms) (
        item (some "exponent") (assigned b.exponent)
          (item (some "jitter_ms") (assigned b.jitter_ms) no_more)))

  abbrev pub write_retention : RetentionAttr E → Arg E
  write_retention r = nested (
      optional "completed_ms" assigned r.completed_ms
        (optional "dead_ms" assigned r.dead_ms no_more))

  abbrev pub write_strategy : BudgetStrategyAttr E → Metas E → Metas E
  write_strategy while_in_flight rest = item (some "while_in_flight") bare rest
  write_strategy (time_based d burst) rest =
      item (some "time_based")
        (nested (item (some "duration_ms") (assigned d) (optional "burst" assigned burst no_more)))
        rest

  abbrev pub write_policy : BudgetPolicyAttr E → Arg E
  write_policy p =
      nested (item (some "allocation") (assigned p.allocation) (write_strategy p.strategy no_more))

  -- Some time is given.
  abbrev pub HasTime : RetentionAttr E → Type 0
  HasTime r = elim r.completed_ms [
    | some _ ↦ Unit {0}
    | none ↦ elim r.dead_ms [ some _ ↦ Unit {0} | none ↦ ⊥ ]
  ]

  pub parse_backoff-write : (b : BackoffAttr E) → parse_backoff (write_backoff b) ≡ ok b
  unfolding parse_backoff
  parse_backoff-write b = refl

  pub parse_retention-write :
      (c d : Option E)
      → HasTime (record { completed_ms = c; dead_ms = d })
      → parse_retention (write_retention (record { completed_ms = c; dead_ms = d }))
        ≡ ok (record { completed_ms = c; dead_ms = d })
  unfolding parse_retention
  parse_retention-write none none h = absurd h
  parse_retention-write none (some d) h = refl
  parse_retention-write (some c) none h = refl
  parse_retention-write (some c) (some d) h = refl

  pub parse_budget_policy-write :
      (a : E) (s : BudgetStrategyAttr E)
      → parse_budget_policy (write_policy (record { allocation = a; strategy = s }))
        ≡ ok (record { allocation = a; strategy = s })
  unfolding parse_budget_policy policy_field parse_time_based
  parse_budget_policy-write a while_in_flight = refl
  parse_budget_policy-write a (time_based d none) = refl
  parse_budget_policy-write a (time_based d (some burst)) = refl

abbrev fields_of : Option (List String) → Option (List String) → UniqueFields
fields_of o e = record { only_paths = o; except_paths = e; scope = none; prefix = none }

module _ {E : Type 0} (x : Exprs E) (l : Literals x) where
  abbrev pub write_str : String → Arg E
  write_str s = assigned (l.str s)

  pub lit_str-write : (s : String) → lit_str x (write_str s) ≡ ok s
  lit_str-write s = rw (l.as_str-str s) refl

  abbrev pub write_budget : BudgetAttr E → Arg E
  write_budget b = nested (
      item (some "key") (write_str b.key) (
        optional "cost" assigned b.cost
          (optional "create_with" write_policy b.create_with no_more)))

  pub parse_budget-write :
      (key : String) (cost : Option E) (policy : Option (BudgetPolicyAttr E))
      → parse_budget x (write_budget (record { key = key; cost = cost; create_with = policy }))
        ≡ ok (record { key = key; cost = cost; create_with = policy })
  unfolding parse_budget budget_field
  parse_budget-write key none none = rw (l.as_str-str key) refl
  parse_budget-write key (some c) none = rw (l.as_str-str key) refl
  parse_budget-write key none (some p) =
      rw (l.as_str-str key, parse_budget_policy-write p.allocation p.strategy) refl
  parse_budget-write key (some c) (some p) =
      rw (l.as_str-str key, parse_budget_policy-write p.allocation p.strategy) refl

  abbrev pub write_paths : List String → Arg E
  write_paths paths = assigned (l.array (map l.str paths))

  strings-map : (paths : List String) → strings x (map l.str paths) ≡ ok paths
  strings-map [] = refl
  strings-map (s ∷ rest) = rw (l.as_str-str s, strings-map rest) refl

  parse_str_array-write : (paths : List String) → parse_str_array x (write_paths paths) ≡ ok paths
  unfolding parse_str_array
  parse_str_array-write paths = rw (l.elems-array (map l.str paths)) (strings-map paths)

  abbrev pub scope_str : UniqueScopeAttr → String
  scope_str queued = "queued"
  scope_str active = "active"
  scope_str exists = "exists"

  abbrev pub write_selection : Option UniqueSelection → Metas E → Metas E
  write_selection none rest = rest
  write_selection (some (only paths)) rest = item (some "only") (write_paths paths) rest
  write_selection (some (except paths)) rest = item (some "except") (write_paths paths) rest

  abbrev pub write_prefix : Bool → Arg E
  write_prefix b = assigned (l.bool b)

  abbrev pub write_scope : UniqueScopeAttr → Arg E
  write_scope s = write_str (scope_str s)

  abbrev pub write_unique : UniqueAttr → Arg E
  write_unique u = nested (
      write_selection u.selection
        (optional "scope" write_scope u.scope (optional "prefix" write_prefix u.prefix no_more)))

  abbrev pub write_key : BatchKeyConfig → Arg E
  write_key k =
      nested (write_selection k.selection (optional "prefix" write_prefix k.prefix no_more))

  abbrev pub write_fold : BatchFoldMode → Metas E → Metas E
  write_fold append rest = rest
  write_fold dedup rest = item (some "dedup") bare rest
  write_fold sorted rest = item (some "sorted") bare rest

  abbrev pub write_batch : BatchAttr E → Arg E
  write_batch b = nested (
      item (some "path") (write_str b.path) (
        item (some "limit") (assigned b.limit)
          (write_fold b.fold (optional "key" write_key b.key no_more))))

  pub parse_batch_key-write :
      (selection : Option UniqueSelection) (prefix : Option Bool)
      → parse_batch_key x (write_key (record { selection = selection; prefix = prefix }))
        ≡ ok (record { selection = selection; prefix = prefix })
  unfolding parse_batch_key key_field
  parse_batch_key-write none none = refl
  parse_batch_key-write none (some b) = rw (l.as_bool-bool b) refl
  parse_batch_key-write (some (only p)) none = rw (parse_str_array-write p) refl
  parse_batch_key-write (some (only p)) (some b) =
      rw (parse_str_array-write p, l.as_bool-bool b) refl
  parse_batch_key-write (some (except p)) none = rw (parse_str_array-write p) refl
  parse_batch_key-write (some (except p)) (some b) =
      rw (parse_str_array-write p, l.as_bool-bool b) refl

  pub parse_batch-write :
      (path : String) (limit : E) (fold : BatchFoldMode) (key : Option BatchKeyConfig)
      → parse_batch x (write_batch (record { path = path; limit = limit; fold = fold; key = key }))
        ≡ ok (record { path = path; limit = limit; fold = fold; key = key })
  unfolding parse_batch batch_field
  parse_batch-write path limit append none = rw (l.as_str-str path) refl
  parse_batch-write path limit dedup none = rw (l.as_str-str path) refl
  parse_batch-write path limit sorted none = rw (l.as_str-str path) refl
  parse_batch-write path limit append (some k) =
      rw (l.as_str-str path, parse_batch_key-write k.selection k.prefix) refl
  parse_batch-write path limit dedup (some k) =
      rw (l.as_str-str path, parse_batch_key-write k.selection k.prefix) refl
  parse_batch-write path limit sorted (some k) =
      rw (l.as_str-str path, parse_batch_key-write k.selection k.prefix) refl

  scoped :
      (u : UniqueFields) (scope : Option UniqueScopeAttr) (prefix : Option Bool)
      → each
          (unique_field x)
          (record u { scope = none; prefix = none })
          (optional "scope" write_scope scope (optional "prefix" write_prefix prefix no_more))
        ≡ ok (record u { scope = scope; prefix = prefix })
  unfolding unique_field
  scoped u none none = refl
  scoped u none (some b) = rw (l.as_bool-bool b) refl
  scoped u (some queued) none = rw (l.as_str-str "queued") refl
  scoped u (some active) none = rw (l.as_str-str "active") refl
  scoped u (some exists) none = rw (l.as_str-str "exists") refl
  scoped u (some queued) (some b) = rw (l.as_str-str "queued", l.as_bool-bool b) refl
  scoped u (some active) (some b) = rw (l.as_str-str "active", l.as_bool-bool b) refl
  scoped u (some exists) (some b) = rw (l.as_str-str "exists", l.as_bool-bool b) refl

  pub parse_unique-write :
      (selection : Option UniqueSelection) (scope : Option UniqueScopeAttr) (prefix : Option Bool)
      → parse_unique x
          (write_unique (record { selection = selection; scope = scope; prefix = prefix }))
        ≡ ok (record { selection = selection; scope = scope; prefix = prefix })
  unfolding parse_unique unique_field
  parse_unique-write none scope prefix = rw (scoped (fields_of none none) scope prefix) refl
  parse_unique-write (some (only p)) scope prefix =
      rw (parse_str_array-write p, scoped (fields_of (some p) none) scope prefix) refl
  parse_unique-write (some (except p)) scope prefix =
      rw (parse_str_array-write p, scoped (fields_of none (some p)) scope prefix) refl
