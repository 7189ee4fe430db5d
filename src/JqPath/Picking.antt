-- ===== src/JqPath/Picking.antt =====
-- zizq/src/jq_path.rs, zizq/src/hashable.rs: the parts of a payload that are picked by paths.
use zizq_rust.Prelude.{
  ℕ, Option, some, none, List, [], ◌∷◌, ◌≡◌, refl, ap, sym, ◌∙◌, Option-cases, inl, inr,
}
use zizq_rust.JqPath.{
  PathStep, field, index, nth, put, pad, hop, walk, container_for, set_leaf, enter, leave,
  init_null, child_at, or_else, set_from, set_path, pick_into, pick_from, pick, payload_only,
}
use zizq_rust.JqPath.Values.{Json, Shape, null, scalar, array, object}
use zizq_rust.JqPath.Hops.{nth-put, nth-pad}
use zizq_rust.JqPath.Removal.{walk-cons, walk-none}

module _ (json : Json) where
  open json use {Value, Map, Scalar, view, of, view-of, empty, get-empty, get-insert_self}

  nth-put-pad : (i : ℕ) (v fill : Value) → nth i (put i v (pad i fill [])) ≡ some v
  nth-put-pad i v fill = nth-put v i (pad i fill []) fill (nth-pad fill i)

  hop-set_leaf :
      (s : PathStep) (v : Value)
      → hop json s (set_leaf json s v (view (container_for json s))) ≡ some v
  hop-set_leaf (field k) v =
      ap (λ x. hop json (field k) (set_leaf json (field k) v x)) (view-of _)
      ∙ get-insert_self k v empty
  hop-set_leaf (index i) v =
      ap (λ x. hop json (index i) (set_leaf json (index i) v x)) (view-of _)
      ∙ nth-put-pad i v (of null)

  hop-leave :
      (s : PathStep) (v : Value)
      → hop json s (leave json s v (view (container_for json s))) ≡ some v
  hop-leave (field k) v =
      ap (λ x. hop json (field k) (leave json (field k) v x)) (view-of _)
      ∙ get-insert_self k v empty
  hop-leave (index i) v =
      ap (λ x. hop json (index i) (leave json (index i) v x)) (view-of _)
      ∙ nth-put-pad i v (of null)

  -- In a fresh container, a child is entered as it is initialised.
  enter-container_for :
      (s : PathStep) (init : Value) → enter json s init (view (container_for json s)) ≡ some init
  enter-container_for (field k) init =
      ap (enter json (field k) init) (view-of _) ∙ ap (λ o. some (or_else init o)) (get-empty k)
  enter-container_for (index i) init =
      ap (enter json (index i) init) (view-of _)
      ∙ ap (λ o. some (child_at json init o)) (nth-pad (of null) i)
      ∙ ap (λ x. some (init_null json x init (of null))) (view-of null)

  set_from-cons :
      (s s' : PathStep) (p : List PathStep) (v : Value)
      → set_from json (container_for json s) s (s' ∷ p) v
        ≡ of (
            leave json s
              (set_from json (container_for json s') s' p v)
              (view (container_for json s)))
  unfolding set_from
  set_from-cons s s' p v = rw (enter-container_for s (container_for json s'), set_from) refl

  walk-set_from :
      (s : PathStep) (p : List PathStep) (v : Value)
      → walk json (set_from json (container_for json s) s p v) (s ∷ p) ≡ some v
  unfolding set_from walk
  walk-set_from s [] v = walk-cons json _ v s [] (ap (hop json s) (view-of _) ∙ hop-set_leaf s v)
  walk-set_from s (s' ∷ p) v =
      ap (λ x. walk json x (s ∷ s' ∷ p)) (set_from-cons s s' p v)
      ∙ walk-cons json _ _ s (s' ∷ p) (ap (hop json s) (view-of _) ∙ hop-leave s _)
      ∙ walk-set_from s' p v

  none-some : {A : Type 0} {a : A} → ◌≡◌ {A = Option A} none (some a) → ⊥
  none-some h = cc

  init_null-hop :
      (s : PathStep) (shape : Shape Value Map Scalar) (a b c : Value)
      → hop json s shape ≡ some c
      → init_null json shape a b ≡ b
  init_null-hop (field k) null a b c h = cc
  init_null-hop (index i) null a b c h = cc
  init_null-hop s (scalar x) a b c h = refl
  init_null-hop s (array x) a b c h = refl
  init_null-hop s (object x) a b c h = refl

  init_null-walk :
      (t u : Value) (s : PathStep) (p : List PathStep)
      → walk json t (s ∷ p) ≡ some u
      → init_null json (view t) (of (object empty)) t ≡ t
  init_null-walk t u s p h = elim (Option-cases (hop json s (view t))) [
    | inl e ↦ absurd (none-some (sym (walk-none json t s p e) ∙ h))
    | inr (c, e) ↦ init_null-hop s (view t) _ t c e
  ]

  set_path-null :
      (s : PathStep) (p : List PathStep) (v : Value)
      → set_path json (of null) (s ∷ p) v ≡ set_from json (container_for json s) s p v
  unfolding set_path
  set_path-null s p v =
      ap (λ x. set_from json (init_null json x (container_for json s) (of null)) s p v)
        (view-of null)

  -- What is picked by one path that the payload has, containers and all, has at that path what the payload has
  -- there.
  pub walk-payload_only :
      (source v : Value) (s : PathStep) (p : List PathStep)
      → walk json source (s ∷ p) ≡ some v
      → walk json (payload_only json source ((s ∷ p) ∷ [])) (s ∷ p) ≡ some v
  unfolding payload_only pick pick_from
  walk-payload_only source v s p h =
      let made = set_from json (container_for json s) s p v in
      let found = walk-set_from s p v in
      ap (λ x. walk json (pick_from json source x []) (s ∷ p))
        (ap (pick_into json (of null) (s ∷ p)) h ∙ set_path-null s p v)
      ∙ ap (λ x. walk json x (s ∷ p)) (init_null-walk made v s p found)
      ∙ found
