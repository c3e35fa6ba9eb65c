-- ===== src/Rest/Manifest/Identity.antt =====
-- Trimming and copying metadata leave the name, the namespace and the labels of an object alone.
use external_crd.Prelude.{◌≡◌, ◌∙◌}
use external_crd.Prelude.Text.{codes}
use external_crd.Prelude.Outcome.{ok}
use external_crd.Rest.Objects.{Machinery, MachineryLaws, KeepsIdentity, KubernetesCrd}
use external_crd.Rest.Manifest.{trim_result, copy_metadata, transform_manifest}

module _ {U : Type 0} (k : Machinery U) where
  KeepsIdentity-compose :
      (f g : U → U) → KeepsIdentity k f → KeepsIdentity k g → KeepsIdentity k (λ u. g (f u))
  KeepsIdentity-compose f g hf hg u =
      let (fn, fs, fl) = hf u in let (gn, gs, gl) = hg (f u) in (gn ∙ fn, gs ∙ fs, gl ∙ fl)

module _ {U : Type 0} (k : Machinery U) (laws : MachineryLaws k) where
  open laws use {
    set_annotations-keeps, set_generation-keeps, set_creation_timestamp-keeps,
    set_resource_version-keeps, set_uid-keeps, set_deletion_grace_period_seconds-keeps,
    set_deletion_timestamp-keeps, set_finalizers-keeps, remove_nested_field-keeps,
  }

  -- `trimResult` removes no part of the identity.
  pub trim_result-keeps : KeepsIdentity k (trim_result k)
  unfolding trim_result codes
  trim_result-keeps =
      KeepsIdentity-compose k _ _
        (KeepsIdentity-compose k _ _
          (remove_nested_field-keeps (codes "creationTimestamp") (cc) (cc) (cc))
          (remove_nested_field-keeps (codes "managedFields") (cc) (cc) (cc)))
        (remove_nested_field-keeps (codes "resourceVersion") (cc) (cc) (cc))

  pub copy_metadata-keeps : (crd : KubernetesCrd U) → KeepsIdentity k (copy_metadata k crd)
  unfolding copy_metadata
  copy_metadata-keeps crd =
      let m = crd.meta in
      KeepsIdentity-compose k _ (λ u. k.set_annotations u (k.get_annotations u))
        (KeepsIdentity-compose k _ _
          (KeepsIdentity-compose k _ _
            (KeepsIdentity-compose k _ _
              (KeepsIdentity-compose k _ _
                (KeepsIdentity-compose k _ _
                  (KeepsIdentity-compose k _ _ (set_generation-keeps m.generation)
                    (set_creation_timestamp-keeps m.creation_timestamp))
                  (set_resource_version-keeps m.resource_version))
                (set_uid-keeps m.uid))
              (set_deletion_grace_period_seconds-keeps m.deletion_grace_period_seconds))
            (set_deletion_timestamp-keeps m.deletion_timestamp))
          (set_finalizers-keeps m.finalizers))
        (λ u. set_annotations-keeps (k.get_annotations u) u)

  -- What `transformManifest` returns has the identity of the object that the manifest holds.
  pub transform_manifest_lem :
      (crd : KubernetesCrd U) (u : U)
      → k.unmarshal crd.manifest.raw ≡ ok u
      → transform_manifest k crd ≡ ok (copy_metadata k crd u)
  unfolding transform_manifest
  transform_manifest_lem crd u h = rw h
