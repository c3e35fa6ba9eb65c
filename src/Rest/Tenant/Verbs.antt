-- ===== src/Rest/Tenant/Verbs.antt =====
-- A write of rest.go, however it ends, writes the manifest of one name of its caller at most.
use external_crd.Prelude.{◌≡◌, refl, sym, ◌∙◌, ap, true, Option, []}
use external_crd.Prelude.Text.{Text}
use external_crd.Prelude.Outcome.{Outcome, ok, ok_injective, lift, reads, ◌>>=◌, bind-keeps}
use external_crd.Rest.User.{Context, get_user}
use external_crd.Rest.Objects.{
  Rest, Machinery, MachineryLaws, Backend, RuntimeObject, KubernetesCrd,
}
use external_crd.Rest.Manifest.{trim_result, transform_manifest}
use external_crd.Rest.DryRun.{moves_namespace, dry_run_create}
use external_crd.Rest.DryRun.Laws.{dry_run_create-in_namespace}
use external_crd.Rest.Crud.{
  create_error, delete_error, map_error-eq-ok, mapping, created_manifest, store_created, create,
  manifest_name, current_manifest, updated_result, updated_manifest, save_update, delete,
}
use external_crd.Rest.Crud.Store.{FrameLaws}
use external_crd.Rest.Tenant.Views.{KeptOff}

module _ {S U O : Type 0} (k : Machinery U) (b : Backend S U O)
    (stored : S → Text → Text → Option (KubernetesCrd U)) (machinery : MachineryLaws k)
    (frames : FrameLaws k b stored) (r : Rest) (ctx : Context) (cluster : Text)
    (caller : get_user ctx ≡ ok cluster) where
  -- The manifests agree off that of some name.
  abbrev pub KeptOffOne : S → S → Type 0
  KeptOffOne s t = (name : Text) × KeptOff k b stored r ctx cluster name s t

  same_manifest :
      (cluster' name : Text)
      → get_user ctx ≡ ok cluster'
      → manifest_name k b r ctx cluster' name ≡ manifest_name k b r ctx cluster name
  same_manifest cluster' name caller' =
      ap (λ x. manifest_name k b r ctx x name) (ok_injective (sym caller' ∙ caller))

  store_created-KeptOffOne :
      (cluster' : Text) (actual : U) (s : S)
      → get_user ctx ≡ ok cluster'
      → k.get_namespace actual ≡ ctx.namespace
      → KeptOffOne s (store_created k b r ctx cluster' actual s).1
  unfolding store_created
  store_created-KeptOffOne cluster' actual s caller' at =
      let crd = created_manifest k b r ctx cluster' actual in
      bind-keeps (KeptOffOne s)
        (mapping (create_error r (k.get_name actual))
          (b.create r.reserved_namespace crd b.default_options))
        (λ saved. lift (transform_manifest k saved)) s
        (
          k.get_name actual,
          λ m other.
              frames.create_frame r.reserved_namespace crd b.default_options s m
                (λ e. other (e ∙ named)),
        )
        (λ saved _ kept. kept)
    where
      named :
          (created_manifest k b r ctx cluster' actual).meta.name
          ≡ manifest_name k b r ctx cluster (k.get_name actual)
      named = unfold created_manifest in rw at (same_manifest cluster' (k.get_name actual) caller')

  pub create-KeptOffOne :
      (obj : RuntimeObject U) (v : Option (U → Outcome (Unit {0}))) (options : O) (s : S)
      → moves_namespace r ≡ true
      → KeptOffOne s (create k b r ctx obj v options s).1
  unfolding create
  create-KeptOffOne obj v options s moves =
      let d = dry_run_create k b r ctx obj options in
      let next = store_created k b r ctx in
      bind-keeps (KeptOffOne s) (lift (get_user ctx)) (λ c. reads d >>= λ a. next c a) s
        ([], λ _ _. refl)
        λ cluster' caller' _.
          bind-keeps (KeptOffOne s) (reads d) (λ a. next cluster' a) s ([], λ _ _. refl)
            λ actual answered _.
              store_created-KeptOffOne cluster' actual s caller' (
                dry_run_create-in_namespace k b r ctx machinery obj options s actual moves answered)

  pub delete-KeptOff :
      (name : Text) (v : Option (U → Outcome (Unit {0}))) (options : O) (s : S)
      → KeptOff k b stored r ctx cluster name s (delete k b r ctx name v options s).1
  unfolding delete
  delete-KeptOff name v options s =
      bind-keeps (KeptOff k b stored r ctx cluster name s) (lift (get_user ctx))
        (λ c.
          mapping (delete_error r name)
            (b.delete r.reserved_namespace (manifest_name k b r ctx c name) options))
        s (λ _ _. refl)
        λ cluster' caller' _ m other.
          frames.delete_frame r.reserved_namespace (manifest_name k b r ctx cluster' name) options s
            m (λ e. other (e ∙ same_manifest cluster' name caller'))

  pub save_update-KeptOff :
      (name : Text) (f : U → Outcome (RuntimeObject U))
      (v : Option (RuntimeObject U → U → Outcome (Unit {0}))) (options : O) (s : S)
      → KeptOff k b stored r ctx cluster name s (save_update k b r ctx name f v options s).1
  unfolding save_update
  save_update-KeptOff name f v options s =
      let P = KeptOff k b stored r ctx cluster name s in
      let read = current_manifest k b r ctx in
      let result = updated_result k b r ctx f v in
      let write = λ (c : Text) (manifest : KubernetesCrd U) (u : U).
        b.update r.reserved_namespace (updated_manifest k b r ctx c (trim_result k u) manifest)
          options in
      let next =
        λ (c : Text) (manifest : KubernetesCrd U). lift (result manifest) >>= write c manifest in
      bind-keeps P (lift (get_user ctx)) (λ c. reads (read c name) >>= next c) s (λ _ _. refl)
        λ cluster' caller' _.
          bind-keeps P (reads (read cluster' name)) (next cluster') s (λ _ _. refl)
            λ manifest found _.
              bind-keeps P (lift (result manifest)) (write cluster' manifest) s (λ _ _. refl)
                λ u _ _ m other.
                  frames.update_frame r.reserved_namespace
                    (updated_manifest k b r ctx cluster' (trim_result k u) manifest) options s m
                    (λ e.
                      other (
                        e ∙ named cluster' manifest u caller' (map_error-eq-ok _ _ manifest found)))
    where
      named :
          (cluster' : Text) (manifest : KubernetesCrd U) (u : U)
          → get_user ctx ≡ ok cluster'
          → b.lister_get r.reserved_namespace (manifest_name k b r ctx cluster' name) s
            ≡ ok manifest
          → (updated_manifest k b r ctx cluster' (trim_result k u) manifest).meta.name
            ≡ manifest_name k b r ctx cluster name
      named cluster' manifest u caller' found =
          unfold updated_manifest in
          frames.lister_name r.reserved_namespace (manifest_name k b r ctx cluster' name) s manifest
            found
          ∙ same_manifest cluster' name caller'
