-- ===== src/Derive/Kind/Keys.antt =====
-- zizq-derive/src/lib.rs: what the batch key of a derived job kind depends on.
use zizq_rust.Prelude.{
  ◌≡◌, refl, ap, sym, ◌∙◌, String, Bool, true, false, Option, some, none, List, [], ◌∷◌, ok, err,
  unwrap_or, subst,
}
use zizq_rust.Enqueue.{JobKind, BatchConfig}
use zizq_rust.JqPath.{PathStep, payload_except, remove}
use zizq_rust.JqPath.Values.{Json}
use zizq_rust.JqPath.Removal.{replace, payload_except-replace}
use zizq_rust.Derive.Meta.{Arg, Exprs}
use zizq_rust.Derive.Attrs.{UniqueSelection, only, except, BatchAttr}
use zizq_rust.Derive.Attrs.Container.{ZizqAttrs, parse_attrs}
use zizq_rust.Derive.Path.{done, panicked, out_of_fuel}
use zizq_rust.Derive.Kind.{
  Expansion, expands, Emitted, emit_path, emit_paths, key_selection, batch_hashable,
  emit_batch_key_hashable, emit_batch, batch_config, emit_kind, derive_job_kind, emit_parsed,
  unique_key_fn, batch_fn,
}

-- The hash is of a list of paths that are to be left in.
abbrev pub is_only : Option UniqueSelection → Bool
is_only (some (only paths)) = true
is_only _ = false

expands-ok :
    {A B : Type 0} (r : Expansion A) (f : A → Expansion B) (b : B)
    → expands r f ≡ done (ok b)
    → (a : A) × (r ≡ done (ok a)) × (f a ≡ done (ok b))
expands-ok (done (ok a)) f b h = (a, refl, h)
expands-ok (done (err e)) f b h = cc
expands-ok panicked f b h = cc
expands-ok out_of_fuel f b h = cc

abbrev value_or : {A : Type 0} → A → Expansion A → A
value_or a (done (ok b)) = b
value_or a _ = a

done-inj : {A : Type 0} (a b : A) → ◌≡◌ {A = Expansion A} (done (ok a)) (done (ok b)) → a ≡ b
done-inj a b h = ap (value_or a) h

moved : {A B : Type 0} (h g : A → B) → g ≡ h → (v w : A) → g w ≡ g v → h w ≡ h v
moved h g e v w k = ap (λ f. f w) (sym e) ∙ k ∙ ap (λ f. f v) e

module _ {E N T : Type 0} {json : Json} (m : Emitted E N T json) where
  except-replace :
      (v new : json.Value) (steps : List PathStep) (paths : List (List PathStep))
      → payload_except json (replace json v steps new) (steps ∷ paths)
        ≡ payload_except json v (steps ∷ paths)
  unfolding payload_except remove replace
  except-replace v new [] paths = refl
  except-replace v new (s ∷ p) paths = payload_except-replace json v new s p paths

  batch_hashable-replace :
      (s : Option UniqueSelection) (steps : List PathStep) (h : json.Value → json.Value)
      → is_only s ≡ false
      → batch_hashable m s steps ≡ done (ok h)
      → (v new : json.Value) → h (replace json v steps new) ≡ h v
  unfolding batch_hashable
  batch_hashable-replace none steps h not_only e v new =
      let same = done-inj (λ u. payload_except json u (steps ∷ [])) h e in
      moved h _ same v (replace json v steps new) (except-replace v new steps [])
  batch_hashable-replace (some (only paths)) steps h not_only e v new = cc
  batch_hashable-replace (some (except paths)) steps h not_only e v new =
      let (p, _, k) = expands-ok (emit_paths m paths) _ h e in
      moved h _ (done-inj (λ u. payload_except json u (steps ∷ p)) h k) v (replace json v steps new)
        (except-replace v new steps p)

  emit_batch-replace :
      (name : String) (b : BatchAttr E) (steps : List PathStep) (f : T → Option BatchConfig)
      → is_only (key_selection b.key) ≡ false
      → emit_path m b.path ≡ done (ok steps)
      → emit_batch m name b ≡ done (ok f)
      → (t u : T) (new : json.Value) → m.to_value u ≡ replace json (m.to_value t) steps new
      → f u ≡ f t
  unfolding emit_batch emit_batch_key_hashable
  emit_batch-replace name b steps f not_only path made t u new differ =
      let (steps', e, k) = expands-ok (emit_path m b.path) _ f made in
      let (h, e', k') = expands-ok (batch_hashable m (key_selection b.key) steps') _ f k in
      let there =
        subst (λ p. m.to_value u ≡ replace json (m.to_value t) p new)
          (sym (done-inj steps' steps (sym e ∙ path))) differ in
      let same =
        ap h there
        ∙ batch_hashable-replace (key_selection b.key) steps' h not_only e' (m.to_value t) new in
      moved f _ (done-inj _ f k') t u (ap (λ v. some (batch_config m name b v)) same)

  -- Where a derivation succeeds, two payloads of the derived kind that differ only in what stands at the path of the
  -- batch go into the same batch: its key and its expressions are the same, unless the attribute says that only other
  -- parts are hashed.
  pub derive_job_kind-batch :
      (x : Exprs E) (ty : String) (attrs : List (String × Arg E)) (a : ZizqAttrs E)
      (b : BatchAttr E) (steps : List PathStep) (kind : JobKind N T)
      → parse_attrs x attrs ≡ ok a
      → a.batch ≡ some b
      → is_only (key_selection b.key) ≡ false
      → emit_path m b.path ≡ done (ok steps)
      → derive_job_kind m x ty attrs ≡ done (ok kind)
      → (t u : T) (new : json.Value) → m.to_value u ≡ replace json (m.to_value t) steps new
      → kind.batch u ≡ kind.batch t
  unfolding derive_job_kind emit_kind batch_fn
  derive_job_kind-batch x ty attrs a b steps kind read has not_only path made t u new differ =
      let made_kind = sym (ap (emit_parsed m ty) read) ∙ made in
      let (unique_key, e, k) =
        expands-ok (unique_key_fn m (unwrap_or a.name ty) a.unique) _ kind made_kind in
      let (batch, e', k') = expands-ok (batch_fn m (unwrap_or a.name ty) a.batch) _ kind k in
      let emitted = sym (ap (batch_fn m (unwrap_or a.name ty)) has) ∙ e' in
      moved kind.batch batch (ap (λ j. j.batch) (done-inj _ kind k')) t u (
        emit_batch-replace (unwrap_or a.name ty) b steps batch not_only path emitted t u new differ)
