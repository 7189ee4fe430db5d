-- ===== src/JqPath/Removal.antt =====
-- zizq/src/jq_path.rs, zizq/src/hashable.rs: what is left of a payload without the values at given paths.
use zizq_rust.Prelude.{
  Bool, true, false, some, none, List, [], ◌∷◌, ◌≡◌, refl, ap, sym, ◌∙◌, Option-cases, inl, inr,
}
use zizq_rust.JqPath.{PathStep, field, index, hop, walk, put_child, delete, remove, payload_except}
use zizq_rust.JqPath.Values.{Json}
use zizq_rust.JqPath.Hops.{hop-put_child, put_child-put_child, delete-put_child, hop-delete}

-- The last step of the path is a field.
unfoldable pub ends_in_field : List PathStep → Bool
ends_in_field [] = false
ends_in_field (field k ∷ []) = true
ends_in_field (index i ∷ []) = false
ends_in_field (s ∷ s' ∷ p) = ends_in_field (s' ∷ p)

module _ (json : Json) where
  open json use {Value, Map, Scalar, view, of, view-of}

  -- The value with another one at a path that it has: an independent account of a write.
  unfoldable pub replace : Value → List PathStep → Value → Value
  replace value [] new = new
  replace value (s ∷ p) new = elim (hop json s (view value)) [
    | none ↦ value
    | some next ↦ of (put_child json s (replace next p new) (view value))
  ]

  pub walk-cons :
      (v c : Value) (s : PathStep) (p : List PathStep)
      → hop json s (view v) ≡ some c
      → walk json v (s ∷ p) ≡ walk json c p
  unfolding walk
  walk-cons v c s p h = rw (h, walk) refl

  pub walk-none :
      (v : Value) (s : PathStep) (p : List PathStep)
      → hop json s (view v) ≡ none
      → walk json v (s ∷ p) ≡ none
  unfolding walk
  walk-none v s p h = rw (h, walk) refl

  -- A walk into a value that was put behind a hop.
  pub walk-put_child :
      (v c new : Value) (s : PathStep) (p : List PathStep)
      → hop json s (view v) ≡ some c
      → walk json (of (put_child json s new (view v))) (s ∷ p) ≡ walk json new p
  walk-put_child v c new s p h =
      walk-cons _ new s p (ap (hop json s) (view-of _) ∙ hop-put_child json s new c (view v) h)

  pub remove-none :
      (v : Value) (s s' : PathStep) (p : List PathStep)
      → hop json s (view v) ≡ none
      → remove json v (s ∷ s' ∷ p) ≡ v
  unfolding remove
  remove-none v s s' p h = rw (h, remove) refl

  pub remove-cons :
      (v c : Value) (s s' : PathStep) (p : List PathStep)
      → hop json s (view v) ≡ some c
      → remove json v (s ∷ s' ∷ p) ≡ of (put_child json s (remove json c (s' ∷ p)) (view v))
  unfolding remove
  remove-cons v c s s' p h = rw (h, remove) refl

  replace-none :
      (v new : Value) (s : PathStep) (p : List PathStep)
      → hop json s (view v) ≡ none
      → replace v (s ∷ p) new ≡ v
  unfolding replace
  replace-none v new s p h = rw (h, replace) refl

  replace-cons :
      (v c new : Value) (s : PathStep) (p : List PathStep)
      → hop json s (view v) ≡ some c
      → replace v (s ∷ p) new ≡ of (put_child json s (replace c p new) (view v))
  unfolding replace
  replace-cons v c new s p h = rw (h, replace) refl

  -- After the removal of a path that ends in a field, nothing is at that path, whatever the value is.
  pub walk-remove :
      (v : Value) (p : List PathStep)
      → ends_in_field p ≡ true
      → walk json (remove json v p) p ≡ none
  unfolding ends_in_field remove
  walk-remove v [] h = cc
  walk-remove v (field k ∷ []) h =
      walk-none _ _ [] (ap (hop json (field k)) (view-of _) ∙ hop-delete json k (view v))
  walk-remove v (index i ∷ []) h = cc
  walk-remove v (s ∷ s' ∷ p) h = elim (Option-cases (hop json s (view v))) [
    | inl e ↦ ap (λ x. walk json x (s ∷ s' ∷ p)) (remove-none v s s' p e) ∙ walk-none v s (s' ∷ p) e
    | inr (c, e) ↦
        ap (λ x. walk json x (s ∷ s' ∷ p)) (remove-cons v c s s' p e)
        ∙ walk-put_child v c (remove json c (s' ∷ p)) s (s' ∷ p) e
        ∙ walk-remove c (s' ∷ p) h
  ]

  -- Two values that differ only in what stands at a path are the same once it is removed.
  pub remove-replace :
      (v new : Value) (s : PathStep) (p : List PathStep)
      → remove json (replace v (s ∷ p) new) (s ∷ p) ≡ remove json v (s ∷ p)
  unfolding remove replace
  remove-replace v new s [] = elim (Option-cases (hop json s (view v))) [
    | inl e ↦ ap (λ x. remove json x (s ∷ [])) (replace-none v new s [] e)
    | inr (c, e) ↦
        ap (λ x. remove json x (s ∷ [])) (replace-cons v c new s [] e)
        ∙ ap (λ x. of (delete json s x)) (view-of (put_child json s new (view v)))
        ∙ ap of (delete-put_child json s new (view v))
  ]
  remove-replace v new s (s' ∷ p) = elim (Option-cases (hop json s (view v))) [
    | inl e ↦ ap (λ x. remove json x (s ∷ s' ∷ p)) (replace-none v new s (s' ∷ p) e)
    | inr (c, e) ↦
        let changed = replace c (s' ∷ p) new in
        ap (λ x. remove json x (s ∷ s' ∷ p)) (replace-cons v c new s (s' ∷ p) e)
        ∙ remove-cons _ changed s s' p
            (ap (hop json s) (view-of _) ∙ hop-put_child json s changed c (view v) e)
        ∙ ap (λ x. of (put_child json s (remove json changed (s' ∷ p)) x)) (view-of _)
        ∙ ap of (put_child-put_child json s _ changed (view v))
        ∙ ap (λ x. of (put_child json s x (view v))) (remove-replace c new s' p)
        ∙ sym (remove-cons v c s s' p e)
  ]

  -- What is hashed of a payload without given paths does not depend on what stands at the first of them.
  pub payload_except-replace :
      (v new : Value) (s : PathStep) (p : List PathStep) (paths : List (List PathStep))
      → payload_except json (replace v (s ∷ p) new) ((s ∷ p) ∷ paths)
        ≡ payload_except json v ((s ∷ p) ∷ paths)
  unfolding payload_except
  payload_except-replace v new s p paths =
      ap (λ x. payload_except json x paths) (remove-replace v new s p)
