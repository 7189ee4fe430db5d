-- ===== src/JqPath/Siblings.antt =====
-- zizq/src/jq_path.rs: what a removal leaves alone.
use text.Mathlib.Text.{◌==◌ as str_eq}
use zizq_rust.Prelude.{
  String, false, List, [], ◌∷◌, ◌++◌, ◌≡◌, ap, sym, ◌∙◌, Option-cases, inl, inr,
}
use zizq_rust.JqPath.{PathStep, field, hop, walk, remove}
use zizq_rust.JqPath.Values.{Json}
use zizq_rust.JqPath.Hops.{hop-delete_other}
use zizq_rust.JqPath.Removal.{walk-cons, walk-none, walk-put_child, remove-none, remove-cons}

module _ (json : Json) where
  open json use {Value, view, of, view-of}

  walk-hop :
      (v w : Value) (s : PathStep) (p : List PathStep)
      → hop json s (view v) ≡ hop json s (view w)
      → walk json v (s ∷ p) ≡ walk json w (s ∷ p)
  walk-hop v w s p h = elim (Option-cases (hop json s (view w))) [
    | inl e ↦ walk-none json v s p (h ∙ e) ∙ sym (walk-none json w s p e)
    | inr (c, e) ↦ walk-cons json v c s p (h ∙ e) ∙ sym (walk-cons json w c s p e)
  ]

  -- A removal behind a hop leaves a path alone behind that hop, if it does so in every child.
  walk-remove_step :
      (v : Value) (s s' : PathStep) (p q : List PathStep)
      → ((c : Value) → walk json (remove json c (s' ∷ p)) q ≡ walk json c q)
      → walk json (remove json v (s ∷ s' ∷ p)) (s ∷ q) ≡ walk json v (s ∷ q)
  walk-remove_step v s s' p q same = elim (Option-cases (hop json s (view v))) [
    | inl e ↦ ap (λ x. walk json x (s ∷ q)) (remove-none json v s s' p e)
    | inr (c, e) ↦
        ap (λ x. walk json x (s ∷ q)) (remove-cons json v c s s' p e)
        ∙ walk-put_child json v c (remove json c (s' ∷ p)) s q e
        ∙ same c
        ∙ sym (walk-cons json v c s q e)
  ]

  -- The removal of a field changes nothing at or below another field of the same value, wherever that value
  -- stands.
  pub walk-remove_sibling :
      (v : Value) (above below : List PathStep) (j k : String)
      → str_eq j k ≡ false
      → walk json (remove json v (above ++ field j ∷ [])) (above ++ field k ∷ below)
        ≡ walk json v (above ++ field k ∷ below)
  unfolding remove
  walk-remove_sibling v [] below j k h =
      walk-hop _ v (field k) below
        (ap (hop json (field k)) (view-of _) ∙ hop-delete_other json j k (view v) h)
  walk-remove_sibling v (s ∷ []) below j k h =
      walk-remove_step v s (field j) [] (field k ∷ below)
        (λ c. walk-remove_sibling c [] below j k h)
  walk-remove_sibling v (s ∷ s' ∷ above) below j k h =
      walk-remove_step v s s' (above ++ field j ∷ []) (s' ∷ (above ++ field k ∷ below))
        (λ c. walk-remove_sibling c (s' ∷ above) below j k h)
