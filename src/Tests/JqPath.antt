-- ===== src/Tests/JqPath.antt =====
-- Paths in concrete values.
use zizq_rust.Prelude.{some, none, List, [], ◌∷◌, ◌≡◌, refl}
use zizq_rust.JqPath.{PathStep, field, index, walk, remove, payload_except, payload_only}
use zizq_rust.JqPath.Removal.{ends_in_field, replace, walk-remove, payload_except-replace}
use zizq_rust.JqPath.Siblings.{walk-remove_sibling}
use zizq_rust.JqPath.Picking.{walk-payload_only}
use zizq_rust.Tests.Trees.{Tree, leaf, items, members, no_items, item, no_fields, entry, trees}

-- {"user": {"name": 1, "seen": 2}, "ids": [3, 4]}
abbrev payload : Tree
payload = members (
    entry "user" (members (entry "name" (leaf 1) (entry "seen" (leaf 2) no_fields)))
      (entry "ids" (items (item (leaf 3) (item (leaf 4) no_items))) no_fields))

abbrev seen : List PathStep
seen = field "user" ∷ field "seen" ∷ []

walk-remove_example : walk trees (remove trees payload seen) seen ≡ none
unfolding ends_in_field
walk-remove_example = walk-remove trees payload seen refl

payload_except-replace_example :
    payload_except trees (replace trees payload seen (leaf 9)) (seen ∷ [])
    ≡ payload_except trees payload (seen ∷ [])
payload_except-replace_example =
    payload_except-replace trees payload (leaf 9) (field "user") (field "seen" ∷ []) []

walk-payload_only_example :
    walk trees
      (payload_only trees payload ((field "ids" ∷ index 1 ∷ []) ∷ []))
      (field "ids" ∷ index 1 ∷ [])
    ≡ some (leaf 4)
unfolding walk
walk-payload_only_example =
    walk-payload_only trees payload (leaf 4) (field "ids") (index 1 ∷ []) refl

walk-remove_sibling_example :
    walk trees (remove trees payload seen) (field "user" ∷ field "name" ∷ []) ≡ some (leaf 1)
unfolding walk
walk-remove_sibling_example =
    walk-remove_sibling trees payload (field "user" ∷ []) [] "seen" "name" refl
