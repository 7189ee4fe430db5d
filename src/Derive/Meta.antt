-- ===== src/Derive/Meta.antt =====
-- zizq-derive/src/attrs.rs: the meta items that syn reads of an attribute, and the loop over them. `E` is the type
-- of syn's expressions.
use zizq_rust.Prelude.{String, Bool, Option, some, none, List, Result, ok, err, and_then}

-- What stands behind the path of a meta item: nothing, `= expression`, or items in parentheses. The path is a
-- name where it is one identifier.
mutual
  pub data Arg (E : Type 0) : Type 0 where
    bare : Arg E
    assigned : E → Arg E
    nested : Metas E → Arg E

  pub data Metas (E : Type 0) : Type 0 where
    no_more : Metas E
    item : Option String → Arg E → Metas E → Metas E

-- The errors of the parser; those of syn are `syntax`.
pub data AttrError : Type 0 where
  syntax : AttrError
  duplicate : String → AttrError
  unknown : String → AttrError
  requires : String → AttrError
  exclusive : String → AttrError
  two_strategies : AttrError
  takes_no_fields : AttrError
  unknown_scope : String → AttrError
  not_a_string : AttrError

-- What an expression is, if it is a literal of a string or of a Boolean, or an array.
pub record Exprs (E : Type 0) : Type 0 where
  pub as_str : E → Option String
  pub as_bool : E → Option Bool
  pub elems : E → Option (List E)

abbrev pub or_syntax : {A : Type 0} → Option A → Result A AttrError
or_syntax none = err syntax
or_syntax (some a) = ok a

module _ {E : Type 0} where
  -- `parse_nested_meta` on the items.
  abbrev pub each :
      {S : Type 0} → (S → String → Arg E → Result S AttrError) → S → Metas E → Result S AttrError
  each f s no_more = ok s
  each f s (item none arg rest) = err syntax
  each f s (item (some name) arg rest) = and_then (f s name arg) (λ next. each f next rest)

  abbrev pub parse_nested_meta :
      {S : Type 0} → (S → String → Arg E → Result S AttrError) → S → Arg E → Result S AttrError
  parse_nested_meta f s bare = err syntax
  parse_nested_meta f s (assigned e) = err syntax
  parse_nested_meta f s (nested items) = each f s items

  -- `value()?.parse::<Expr>()`
  abbrev pub expr : Arg E → Result E AttrError
  expr (assigned e) = ok e
  expr bare = err syntax
  expr (nested items) = err syntax

  -- A bare name, behind which the loop wants a comma or the end.
  abbrev pub flag : Arg E → Result (Unit {0}) AttrError
  flag bare = ok tt
  flag (assigned e) = err syntax
  flag (nested items) = err syntax

  -- `value()?.parse::<LitStr>()` and `value()?.parse::<LitBool>()`
  abbrev pub lit_str : Exprs E → Arg E → Result String AttrError
  lit_str x arg = and_then (expr arg) (λ e. or_syntax (x.as_str e))

  abbrev pub lit_bool : Exprs E → Arg E → Result Bool AttrError
  lit_bool x arg = and_then (expr arg) (λ e. or_syntax (x.as_bool e))

-- A field that is set at most once.
abbrev pub once :
    {A S : Type 0} → String → Option A → Result A AttrError → (Option A → S) → Result S AttrError
once field (some a) value store = err (duplicate field)
once field none value store = and_then value (λ a. ok (store (some a)))
