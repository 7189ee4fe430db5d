-- ===== src/Tests/Derive.antt =====
-- The attributes of a job kind, and a path.
use zizq_rust.Prelude.{
  ◌≡◌, refl, ap, ℕ, String, Bool, false, Option, some, none, List, [], ◌∷◌, ok, codes,
}
use zizq_rust.Derive.Meta.{Exprs}
use zizq_rust.Derive.Attrs.{time_based, only, queued, dedup}
use zizq_rust.Derive.Attrs.Container.{ZizqAttrs, parse_attrs}
use zizq_rust.Derive.Attrs.Written.{Literals}
use zizq_rust.Derive.Attrs.RoundTrip.{write_attrs, parse_attrs-write_attrs}
use zizq_rust.Derive.Path.{parse_path, field, index, done, panicked}
use zizq_rust.Derive.Path.Termination.{EndedWithin, parse_path-EndedWithin}

mutual
  data Expr : Type 0 where
    number : ℕ → Expr
    text : String → Expr
    truth : Bool → Expr
    array : ExprList → Expr

  data ExprList : Type 0 where
    nothing : ExprList
    next : Expr → ExprList → ExprList

abbrev to_list : List Expr → ExprList
to_list [] = nothing
to_list (e ∷ rest) = next e (to_list rest)

abbrev of_list : ExprList → List Expr
of_list nothing = []
of_list (next e rest) = e ∷ of_list rest

of_list-to_list : (es : List Expr) → of_list (to_list es) ≡ es
of_list-to_list [] = refl
of_list-to_list (e ∷ rest) = ap (λ more. e ∷ more) (of_list-to_list rest)

abbrev str_of : Expr → Option String
str_of (text s) = some s
str_of _ = none

abbrev bool_of : Expr → Option Bool
bool_of (truth b) = some b
bool_of _ = none

abbrev elems_of : Expr → Option (List Expr)
elems_of (array es) = some (of_list es)
elems_of _ = none

abbrev exprs : Exprs Expr
exprs = record { as_str = str_of; as_bool = bool_of; elems = elems_of }

abbrev literals : Literals exprs
literals = record {
  str = text;
  bool = truth;
  array = λ es. array (to_list es);
  as_str-str = λ s. refl;
  as_bool-bool = λ b. refl;
  elems-array = λ es. ap some (of_list-to_list es);
}

abbrev send_email : ZizqAttrs Expr
send_email = record {
  name = some "send_email";
  queue = none;
  priority = some (number 3);
  retry_limit = none;
  backoff = none;
  retention = some (record { completed_ms = none; dead_ms = some (number 1000) });
  unique =
      some
        (record { selection = some (only (".to" ∷ [])); scope = some queued; prefix = some false });
  batch = some (record { path = ".ids"; limit = number 10; fold = dedup; key = none });
  budgets =
      record {
        key = "smtp";
        cost = none;
        create_with =
            some (record { allocation = number 5; strategy = time_based (number 60) none });
      }
      ∷ record { key = "cpu"; cost = some (number 2); create_with = none }
      ∷ [];
}

parse_attrs-write_attrs_example :
    parse_attrs exprs (write_attrs exprs literals send_email) ≡ ok send_email
parse_attrs-write_attrs_example = parse_attrs-write_attrs exprs literals send_email (tt, refl)

parse_path-EndedWithin_example : EndedWithin 7 (parse_path (codes ".a[0].b."))
parse_path-EndedWithin_example = parse_path-EndedWithin (codes ".a[0].b.")

-- A path with a quoted key and an index.
quoted_key :
    parse_path (codes ".a[\"b c\"][12]")
    ≡ done (ok (field (codes "a") ∷ field (codes "b c") ∷ index 12 ∷ []))
unfolding parse_path
quoted_key = refl

-- A backslash before a letter of two bytes.
escaped_letter : parse_path (46 ∷ 91 ∷ 34 ∷ 92 ∷ 195 ∷ 169 ∷ 34 ∷ 93 ∷ []) ≡ panicked
unfolding parse_path
escaped_letter = refl
