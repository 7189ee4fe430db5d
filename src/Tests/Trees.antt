-- ===== src/Tests/Trees.antt =====
-- A model of the interface of values: trees whose objects are lists of pairs.
use text.Mathlib.Text.{◌==◌ as str_eq}
use zizq_rust.Prelude.{
  Bool, true, false, ◌∙◌, ℕ, String, Option, some, none, List, [], ◌∷◌, ◌≡◌, refl, ap,
  if◌then◌else◌, Bool-cases, inl, inr, eq_refl, eq_iff,
}
use zizq_rust.JqPath.Values.{Json, Shape, null, scalar, array, object}

mutual
  pub data Tree : Type 0 where
    nil : Tree
    leaf : ℕ → Tree
    items : Trees → Tree
    members : Fields → Tree

  pub data Trees : Type 0 where
    no_items : Trees
    item : Tree → Trees → Trees

  pub data Fields : Type 0 where
    no_fields : Fields
    entry : String → Tree → Fields → Fields

abbrev to_list : Trees → List Tree
to_list no_items = []
to_list (item t ts) = t ∷ to_list ts

abbrev from_list : List Tree → Trees
from_list [] = no_items
from_list (t ∷ ts) = item t (from_list ts)

to_list-from_list : (ts : List Tree) → to_list (from_list ts) ≡ ts
to_list-from_list [] = refl
to_list-from_list (t ∷ ts) = ap (λ l. t ∷ l) (to_list-from_list ts)

abbrev view : Tree → Shape Tree Fields ℕ
view nil = null
view (leaf n) = scalar n
view (items ts) = array (to_list ts)
view (members fs) = object fs

abbrev of : Shape Tree Fields ℕ → Tree
of null = nil
of (scalar n) = leaf n
of (array ts) = items (from_list ts)
of (object fs) = members fs

pub view-of : (s : Shape Tree Fields ℕ) → view (of s) ≡ s
view-of null = refl
view-of (scalar n) = refl
view-of (array ts) = ap array (to_list-from_list ts)
view-of (object fs) = refl

abbrev get : String → Fields → Option Tree
get k no_fields = none
get k (entry key t fs) = if str_eq k key then some t else get k fs

abbrev delete : String → Fields → Fields
delete k no_fields = no_fields
delete k (entry key t fs) = if str_eq k key then delete k fs else entry key t (delete k fs)

abbrev insert : String → Tree → Fields → Fields
insert k t fs = entry k t (delete k fs)

pub get-insert : (k : String) (t : Tree) (fs : Fields) → get k (insert k t fs) ≡ some t
get-insert k t fs = rw (eq_refl k) refl

pub get-delete : (k : String) (fs : Fields) → get k (delete k fs) ≡ none
get-delete k no_fields = refl
get-delete k (entry key t fs) = elim (Bool-cases (str_eq k key)) [
  | inl e ↦ rw e (get-delete k fs)
  | inr e ↦ rw (e, e) (get-delete k fs)
]

delete-delete : (k : String) (fs : Fields) → delete k (delete k fs) ≡ delete k fs
delete-delete k no_fields = refl
delete-delete k (entry key t fs) = elim (Bool-cases (str_eq k key)) [
  | inl e ↦ rw e (delete-delete k fs)
  | inr e ↦ rw (e, e) (ap (entry key t) (delete-delete k fs))
]

pub delete-insert : (k : String) (t : Tree) (fs : Fields) → delete k (insert k t fs) ≡ delete k fs
delete-insert k t fs = rw (eq_refl k) (delete-delete k fs)

clash : (b : Bool) → b ≡ true → b ≡ false → ⊥
clash b h k = cc

pub get-delete_other :
    (j k : String) (fs : Fields) → str_eq j k ≡ false → get k (delete j fs) ≡ get k fs
get-delete_other j k no_fields h = refl
get-delete_other j k (entry key t fs) h = elim (Bool-cases (str_eq j key)) [
  | inl e ↦ elim (Bool-cases (str_eq k key)) [
    | inl g ↦ absurd (clash (str_eq j k) (ap (str_eq j) ((eq_iff k key).0 g) ∙ e) h)
    | inr g ↦ rw (e, g) (get-delete_other j k fs h)
  ]
  | inr e ↦ rw (e, get-delete_other j k fs h) refl
]

abbrev pub trees : Json
trees = record {
  Value = Tree;
  Map = Fields;
  Scalar = ℕ;
  view = view;
  of = of;
  view-of = view-of;
  empty = no_fields;
  get = get;
  insert = insert;
  remove = delete;
  get-empty = λ k. refl;
  get-insert_self = get-insert;
  get-remove_self = get-delete;
  get-remove_other = get-delete_other;
  insert-insert = λ k v w m. ap (entry k v) (delete-insert k w m);
  remove-insert = delete-insert;
}
