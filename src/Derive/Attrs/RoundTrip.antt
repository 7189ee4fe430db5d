-- ===== src/Derive/Attrs/RoundTrip.antt =====
-- zizq-derive/src/attrs.rs: the attributes of an item are read as they are written.
use text.Mathlib.Text.{◌==◌ as str_eq}
use zizq_rust.Prelude.{
  ◌≡◌, refl, ap, sym, ◌∙◌, String, Bool, true, false, not, ◌&&◌, ◌||◌, Option, some, none, List, [],
  ◌∷◌, ◌++◌, ok, and_then, Bool-cases, inl, inr, eq_iff, append_assoc, append-nil,
}
use zizq_rust.Derive.Meta.{Arg, assigned, nested, Metas, no_more, item, Exprs, each}
use zizq_rust.Derive.Attrs.{RetentionAttr, BudgetAttr}
use zizq_rust.Derive.Attrs.Policies.{parse_backoff, parse_retention}
use zizq_rust.Derive.Attrs.Container.{
  ZizqAttrs, default_attrs, has_key, unique_arg, attribute, collect, parse_attrs,
}
use zizq_rust.Derive.Attrs.Written.{
  Literals, optional, each-optional, write_backoff, write_retention, write_budget, write_unique,
  write_batch, write_str, HasTime, parse_retention-write, parse_budget-write, parse_unique-write,
  parse_batch-write,
}

-- No two budgets have the same key.
abbrev pub distinct : {E : Type 0} → List (BudgetAttr E) → Bool
distinct [] = true
distinct (b ∷ rest) = not (has_key b.key rest) && distinct rest

-- No budget of the second list has a key of the first.
abbrev apart : {E : Type 0} → List (BudgetAttr E) → List (BudgetAttr E) → Bool
apart seen [] = true
apart seen (b ∷ rest) = not (has_key b.key seen) && apart seen rest

or-false : (a b : Bool) → a || b ≡ false → (a ≡ false) × (b ≡ false)
or-false true b h = cc
or-false false b h = (refl, h)

and-true : (a b : Bool) → a && b ≡ true → (a ≡ true) × (b ≡ true)
and-true true b h = (refl, h)
and-true false b h = cc

not-true : (a : Bool) → not a ≡ true → a ≡ false
not-true true h = cc
not-true false h = refl

has_key-snoc :
    {E : Type 0} (key : String) (seen : List (BudgetAttr E)) (b : BudgetAttr E)
    → has_key key seen ≡ false
    → str_eq b.key key ≡ false
    → has_key key (seen ++ b ∷ []) ≡ false
has_key-snoc key [] b h k = rw k refl
has_key-snoc key (a ∷ seen) b h k =
    let (e, more) = or-false (str_eq a.key key) (has_key key seen) h in
    rw e (has_key-snoc key seen b more k)

str_eq-swap : (a b : String) → str_eq a b ≡ false → str_eq b a ≡ false
str_eq-swap a b h = elim (Bool-cases (str_eq b a)) [
  | inl e ↦ e ∙ sym ((eq_iff a b).1 (sym ((eq_iff b a).0 e))) ∙ h
  | inr e ↦ e
]

apart-snoc :
    {E : Type 0} (seen : List (BudgetAttr E)) (b : BudgetAttr E) (rest : List (BudgetAttr E))
    → apart seen rest ≡ true
    → has_key b.key rest ≡ false
    → apart (seen ++ b ∷ []) rest ≡ true
apart-snoc seen b [] h k = refl
apart-snoc seen b (c ∷ rest) h k =
    let (fresh, more) = and-true (not (has_key c.key seen)) (apart seen rest) h in
    let (other, others) = or-false (str_eq c.key b.key) (has_key b.key rest) k in
    rw
      (
        has_key-snoc c.key seen b (not-true (has_key c.key seen) fresh)
            (str_eq-swap c.key b.key other),
        apart-snoc seen b rest more others,
      )
      refl

apart-nil : {E : Type 0} (rest : List (BudgetAttr E)) → apart [] rest ≡ true
apart-nil [] = refl
apart-nil (b ∷ rest) = apart-nil rest

module _ {E : Type 0} (x : Exprs E) (l : Literals x) where
  abbrev pub write_budgets : List (BudgetAttr E) → Metas E → Metas E
  write_budgets [] rest = rest
  write_budgets (b ∷ bs) rest = item (some "budget") (write_budget x l b) (write_budgets bs rest)

  -- The attribute of an item.
  abbrev pub write_attrs : ZizqAttrs E → List (String × Arg E)
  write_attrs a =
      (
        "zizq",
        nested (
            optional "name" (write_str x l) a.name (
              optional "queue" (write_str x l) a.queue (
                optional "priority" assigned a.priority (
                  optional "retry_limit" assigned a.retry_limit (
                    optional "backoff" write_backoff a.backoff (
                      optional "retention" write_retention a.retention (
                        optional "unique" (write_unique x l) a.unique (
                          optional "batch" (write_batch x l) a.batch
                            (write_budgets a.budgets no_more))))))))),
      )
      ∷ []

  abbrev pub IsTimed : Option (RetentionAttr E) → Type 0
  IsTimed none = Unit {0}
  IsTimed (some r) = HasTime r

  -- A retention that is there gives some time, and the keys of the budgets are distinct.
  abbrev pub IsConsistent : ZizqAttrs E → Type 0
  IsConsistent a = IsTimed a.retention × (distinct a.budgets ≡ true)

  each-write_budgets :
      (s : ZizqAttrs E) (bs : List (BudgetAttr E))
      → apart s.budgets bs ≡ true
      → distinct bs ≡ true
      → each (attribute x) s (write_budgets bs no_more)
        ≡ ok (record s { budgets = s.budgets ++ bs })
  unfolding attribute
  each-write_budgets s [] h d = ap (λ b. ok (record s { budgets = b })) (sym (append-nil s.budgets))
  each-write_budgets s (b ∷ bs) h d =
      let (fresh, more) = and-true (not (has_key b.key s.budgets)) (apart s.budgets bs) h in
      let (alone, others) = and-true (not (has_key b.key bs)) (distinct bs) d in
      rw
        (
          parse_budget-write x l b.key b.cost b.create_with,
          not-true (has_key b.key s.budgets) fresh,
          each-write_budgets (record s { budgets = s.budgets ++ b ∷ [] }) bs
              (apart-snoc s.budgets b bs more (not-true (has_key b.key bs) alone)) others,
        )
        (ap (λ c. ok (record s { budgets = c })) (append_assoc s.budgets (b ∷ []) bs))

  each-retention :
      (o : Option (RetentionAttr E)) (rest : Metas E)
      (store : Option (RetentionAttr E) → ZizqAttrs E)
      → ((r : RetentionAttr E)
          → HasTime r
          → attribute x (store none) "retention" (write_retention r) ≡ ok (store (some r)))
      → IsTimed o
      → each (attribute x) (store none) (optional "retention" write_retention o rest)
        ≡ each (attribute x) (store o) rest
  each-retention none rest store step h = refl
  each-retention (some r) rest store step h =
      ap (λ s. and_then s (λ next. each (attribute x) next rest)) (step r h)

  -- What a `zizq` attribute says is read of the attribute as it is written: every field of attributes whose
  -- retention, if there is one, gives some time and whose budgets have distinct keys, where the literals are read back
  -- as they were written.
  pub parse_attrs-write_attrs :
      (a : ZizqAttrs E) → IsConsistent a → parse_attrs x (write_attrs a) ≡ ok a
  unfolding parse_attrs collect attribute parse_backoff parse_retention unique_arg
  parse_attrs-write_attrs a (timed, apart_keys) =
      ap (λ r. and_then r ok)
        (each-optional (attribute x) "name" (write_str x l) a.name _
            (λ v. record default_attrs { name = v }) (λ v. rw (l.as_str-str v) refl)
          ∙ each-optional (attribute x) "queue" (write_str x l) a.queue _
              (λ v. record default_attrs { name = a.name; queue = v })
              (λ v. rw (l.as_str-str v) refl)
          ∙ each-optional (attribute x) "priority" assigned a.priority _
              (λ v. record default_attrs { name = a.name; queue = a.queue; priority = v })
              (λ v. refl)
          ∙ each-optional (attribute x) "retry_limit" assigned a.retry_limit _
              (λ v. record default_attrs {
                name = a.name;
                queue = a.queue;
                priority = a.priority;
                retry_limit = v;
              })
              (λ v. refl)
          ∙ each-optional (attribute x) "backoff" write_backoff a.backoff _
              (λ v. record default_attrs {
                name = a.name;
                queue = a.queue;
                priority = a.priority;
                retry_limit = a.retry_limit;
                backoff = v;
              })
              (λ v. refl)
          ∙ each-retention a.retention _
              (λ v. record default_attrs {
                name = a.name;
                queue = a.queue;
                priority = a.priority;
                retry_limit = a.retry_limit;
                backoff = a.backoff;
                retention = v;
              })
              (λ v h. rw (parse_retention-write v.completed_ms v.dead_ms h, attribute) refl) timed
          ∙ each-optional (attribute x) "unique" (write_unique x l) a.unique _
              (λ v. record default_attrs {
                name = a.name;
                queue = a.queue;
                priority = a.priority;
                retry_limit = a.retry_limit;
                backoff = a.backoff;
                retention = a.retention;
                unique = v;
              })
              (λ v. rw (parse_unique-write x l v.selection v.scope v.prefix, attribute) refl)
          ∙ each-optional (attribute x) "batch" (write_batch x l) a.batch _
              (λ v. record default_attrs {
                name = a.name;
                queue = a.queue;
                priority = a.priority;
                retry_limit = a.retry_limit;
                backoff = a.backoff;
                retention = a.retention;
                unique = a.unique;
                batch = v;
              })
              (λ v. rw (parse_batch-write x l v.path v.limit v.fold v.key, attribute) refl)
          ∙ each-write_budgets
              (record default_attrs {
                name = a.name;
                queue = a.queue;
                priority = a.priority;
                retry_limit = a.retry_limit;
                backoff = a.backoff;
                retention = a.retention;
                unique = a.unique;
                batch = a.batch;
              })
              a.budgets (apart-nil a.budgets) apart_keys)
