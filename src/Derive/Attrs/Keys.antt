-- ===== src/Derive/Attrs/Keys.antt =====
-- zizq-derive/src/attrs.rs: the bodies of `unique` and `batch`.
use text.Mathlib.Text.{◌==◌ as str_eq}
use zizq_rust.Prelude.{
  String, Option, some, none, List, [], ◌∷◌, Result, ok, err, and_then, if◌then◌else◌,
}
use zizq_rust.Derive.Meta.{
  Arg, AttrError, unknown, requires, exclusive, unknown_scope, not_a_string, Exprs,
  parse_nested_meta, expr, flag, lit_str, lit_bool, or_syntax, once,
}
use zizq_rust.Derive.Attrs.{
  UniqueSelection, only, except, UniqueScopeAttr, queued, active, exists, UniqueAttr,
  BatchKeyConfig, BatchFoldMode, append, dedup, sorted, BatchAttr, UniqueFields, BatchFields,
}

module _ {E : Type 0} (x : Exprs E) where
  abbrev pub strings : List E → Result (List String) AttrError
  strings [] = ok []
  strings (e ∷ rest) = elim (x.as_str e) [
    | none ↦ err not_a_string
    | some s ↦ and_then (strings rest) (λ more. ok (s ∷ more))
  ]

  unfoldable pub parse_str_array : Arg E → Result (List String) AttrError
  parse_str_array arg = and_then (expr arg) (λ e. and_then (or_syntax (x.elems e)) strings)

  abbrev pub scope_attr : String → Result UniqueScopeAttr AttrError
  scope_attr s =
      if str_eq s "queued"
      then ok queued
      else if str_eq s "active"
      then ok active
      else if str_eq s "exists"
      then ok exists
      else err (unknown_scope s)

  unfoldable pub unique_field : UniqueFields → String → Arg E → Result UniqueFields AttrError
  unfolding parse_str_array
  unique_field s name arg =
      if str_eq name "only"
      then once name s.only_paths (parse_str_array arg) (λ v. record s { only_paths = v })
      else if str_eq name "except"
      then once name s.except_paths (parse_str_array arg) (λ v. record s { except_paths = v })
      else if str_eq name "scope"
      then once name s.scope (and_then (lit_str x arg) scope_attr) (λ v. record s { scope = v })
      else if str_eq name "prefix"
      then once name s.prefix (lit_bool x arg) (λ v. record s { prefix = v })
      else err (unknown name)

  abbrev pub selection_of :
      String
      → Option (List String)
      → Option (List String)
      → Result (Option UniqueSelection) AttrError
  selection_of body (some o) (some e) = err (exclusive body)
  selection_of body (some paths) none = ok (some (only paths))
  selection_of body none (some paths) = ok (some (except paths))
  selection_of body none none = ok none

  abbrev pub no_unique : UniqueFields
  no_unique = record { only_paths = none; except_paths = none; scope = none; prefix = none }

  unfoldable pub parse_unique : Arg E → Result UniqueAttr AttrError
  unfolding unique_field
  parse_unique arg = and_then (parse_nested_meta unique_field no_unique arg) (λ s.
      and_then (selection_of "unique" s.only_paths s.except_paths)
        (λ selection. ok (record { selection = selection; scope = s.scope; prefix = s.prefix })))

  -- The fields of `key(…)` are those of `unique(…)` without the scope.
  unfoldable pub key_field : UniqueFields → String → Arg E → Result UniqueFields AttrError
  unfolding parse_str_array
  key_field s name arg =
      if str_eq name "only"
      then once name s.only_paths (parse_str_array arg) (λ v. record s { only_paths = v })
      else if str_eq name "except"
      then once name s.except_paths (parse_str_array arg) (λ v. record s { except_paths = v })
      else if str_eq name "prefix"
      then once name s.prefix (lit_bool x arg) (λ v. record s { prefix = v })
      else err (unknown name)

  unfoldable pub parse_batch_key : Arg E → Result BatchKeyConfig AttrError
  unfolding key_field
  parse_batch_key arg = and_then (parse_nested_meta key_field no_unique arg) (λ s.
      and_then (selection_of "key" s.only_paths s.except_paths)
        (λ selection. ok (record { selection = selection; prefix = s.prefix })))

  abbrev pub folded : BatchFields E → BatchFoldMode → Arg E → Result (BatchFields E) AttrError
  folded s mode arg = elim s.fold [
    | append ↦ and_then (flag arg) (λ _. ok (record s { fold = mode }))
    | dedup ↦ err (exclusive "batch")
    | sorted ↦ err (exclusive "batch")
  ]

  unfoldable pub batch_field : BatchFields E → String → Arg E → Result (BatchFields E) AttrError
  unfolding parse_batch_key
  batch_field s name arg =
      if str_eq name "path"
      then once name s.path (lit_str x arg) (λ v. record s { path = v })
      else if str_eq name "limit"
      then once name s.limit (expr arg) (λ v. record s { limit = v })
      else if str_eq name "dedup"
      then folded s dedup arg
      else if str_eq name "sorted"
      then folded s sorted arg
      else if str_eq name "key"
      then once name s.key (parse_batch_key arg) (λ v. record s { key = v })
      else err (unknown name)

  abbrev pub all_batch :
      Option String
      → Option E
      → BatchFoldMode
      → Option BatchKeyConfig
      → Result (BatchAttr E) AttrError
  all_batch (some path) (some limit) fold key =
      ok (record { path = path; limit = limit; fold = fold; key = key })
  all_batch _ _ _ _ = err (requires "batch")

  unfoldable pub parse_batch : Arg E → Result (BatchAttr E) AttrError
  unfolding batch_field
  parse_batch arg =
      and_then
        (parse_nested_meta batch_field
          (record { path = none; limit = none; fold = append; key = none }) arg)
        (λ s. all_batch s.path s.limit s.fold s.key)
