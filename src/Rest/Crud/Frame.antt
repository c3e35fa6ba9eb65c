-- ===== src/Rest/Crud/Frame.antt =====
-- The handlers write only manifests that a request of the caller names.
use external_crd.Prelude.{◌≡◌, refl, ◌∙◌, ◌≢◌, true, Option, arith}
use external_crd.Prelude.Text.{Text}
use external_crd.Prelude.Outcome.{Outcome, ok, lift, reads, ◌>>=◌, bind-keeps}
use external_crd.Rest.User.{Context, get_user}
use external_crd.Rest.Objects.{
  Rest, Machinery, MachineryLaws, Backend, RuntimeObject, KubernetesCrd,
}
use external_crd.Rest.Names.{get_normalized_manifest_name}
use external_crd.Rest.Manifest.{transform_manifest, trim_result}
use external_crd.Rest.DryRun.{moves_namespace, dry_run_create}
use external_crd.Rest.DryRun.Laws.{dry_run_create_restored, restore_identity}
use external_crd.Rest.Crud.{
  create_error, delete_error, map_error-eq-ok, mapping, created_manifest, store_created, create,
  manifest_name, current_manifest, updated_result, save_update, updated_manifest, update, delete,
}
use external_crd.Rest.Crud.Store.{FrameLaws}

-- A manifest that no request of this caller names.
abbrev pub IsForeign : Rest → Context → Text → Type 0
IsForeign r ctx m =
    (cluster name : Text)
    → get_user ctx ≡ ok cluster
    → m ≢ get_normalized_manifest_name r cluster ctx.namespace name

module _ {S U O : Type 0} (k : Machinery U) (b : Backend S U O)
    (stored : S → Text → Text → Option (KubernetesCrd U)) (machinery : MachineryLaws k)
    (store : FrameLaws k b stored) (r : Rest) (ctx : Context) (m : Text)
    (other : IsForeign r ctx m) where
  abbrev pub Kept : S → S → Type 0
  Kept s t = stored t r.reserved_namespace m ≡ stored s r.reserved_namespace m

  store_created-Kept :
      (cluster : Text) (actual : U) (s : S)
      → get_user ctx ≡ ok cluster
      → k.get_namespace actual ≡ ctx.namespace
      → Kept s (store_created k b r ctx cluster actual s).1
  unfolding store_created
  store_created-Kept cluster actual s caller at =
      let e = create_error r (k.get_name actual) in
      let crd = created_manifest k b r ctx cluster actual in
      let c = b.create r.reserved_namespace crd b.default_options in
      bind-keeps (Kept s) (mapping e c) (λ saved. lift (transform_manifest k saved)) s
        (store.create_frame r.reserved_namespace crd b.default_options s m different)
        (λ saved _ kept. kept)
    where
      different : m ≢ (created_manifest k b r ctx cluster actual).meta.name
      different e = unfold created_manifest in other cluster (k.get_name actual) caller (e ∙ rw at)

  pub create-Kept :
      (obj : RuntimeObject U) (v : Option (U → Outcome (Unit {0}))) (options : O) (s : S)
      → moves_namespace r ≡ true
      → Kept s (create k b r ctx obj v options s).1
  unfolding create
  create-Kept obj v options s moves =
      let d = dry_run_create k b r ctx obj options in
      let next = store_created k b r ctx in
      bind-keeps (Kept s) (lift (get_user ctx)) (λ c. reads d >>= λ a. next c a) s refl
        λ cluster caller _.
          bind-keeps (Kept s) (reads d) (λ a. next cluster a) s refl
            λ actual answered _.
              let (q, answer, _, _, restored, _) =
                dry_run_create_restored k b r ctx obj options s actual answered in
              store_created-Kept cluster actual s caller
                (rw restored ((restore_identity k b r ctx machinery answer moves).1))

  pub delete-Kept :
      (name : Text) (v : Option (U → Outcome (Unit {0}))) (options : O) (s : S)
      → Kept s (delete k b r ctx name v options s).1
  unfolding delete
  delete-Kept name v options s =
      let e = delete_error r name in
      let next = λ (c : Text).
        mapping e (b.delete r.reserved_namespace (manifest_name k b r ctx c name) options) in
      bind-keeps (Kept s) (lift (get_user ctx)) next s refl λ cluster caller _.
        store.delete_frame r.reserved_namespace (manifest_name k b r ctx cluster name) options s m
          (other cluster name caller)

  save_update-Kept :
      (name : Text) (updated_object : U → Outcome (RuntimeObject U))
      (v : Option (RuntimeObject U → U → Outcome (Unit {0}))) (options : O) (s : S)
      → Kept s (save_update k b r ctx name updated_object v options s).1
  unfolding save_update
  save_update-Kept name updated_object v options s =
      let read = current_manifest k b r ctx in
      let result = updated_result k b r ctx updated_object v in
      let write = λ (c : Text) (manifest : KubernetesCrd U) (u : U).
        b.update r.reserved_namespace (updated_manifest k b r ctx c (trim_result k u) manifest)
          options in
      let next =
        λ (c : Text) (manifest : KubernetesCrd U). lift (result manifest) >>= write c manifest in
      bind-keeps (Kept s) (lift (get_user ctx)) (λ c. reads (read c name) >>= next c) s refl
        λ cluster caller _.
          bind-keeps (Kept s) (reads (read cluster name)) (next cluster) s refl λ manifest found _.
            bind-keeps (Kept s) (lift (result manifest)) (write cluster manifest) s refl λ u _ _.
              store.update_frame r.reserved_namespace
                (updated_manifest k b r ctx cluster (trim_result k u) manifest) options s m
                (different cluster manifest u caller (map_error-eq-ok _ _ manifest found))
    where
      different :
          (cluster : Text) (manifest : KubernetesCrd U) (u : U)
          → get_user ctx ≡ ok cluster
          → b.lister_get r.reserved_namespace (manifest_name k b r ctx cluster name) s ≡ ok manifest
          → m ≢ (updated_manifest k b r ctx cluster (trim_result k u) manifest).meta.name
      different cluster manifest u caller found e =
          unfold updated_manifest in
          other cluster name caller (
            e
            ∙ store.lister_name r.reserved_namespace (manifest_name k b r ctx cluster name) s
                manifest found)

  pub update-Kept :
      (name : Text) (updated_object : U → Outcome (RuntimeObject U))
      (v : Option (RuntimeObject U → U → Outcome (Unit {0}))) (options : O) (s : S)
      → Kept s (update k b r ctx name updated_object v options s).1
  unfolding update
  update-Kept name updated_object v options s =
      ground (arith, save_update-Kept name updated_object v options s)
