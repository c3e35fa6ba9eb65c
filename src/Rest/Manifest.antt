-- ===== src/Rest/Manifest.antt =====
-- Manifests: the labels that `Create` and `Update` write, `trimResult` and `transformManifest`.
pub mod Labels
pub mod Identity
use external_crd.Prelude.{Option, none, some, List, [], ◌∷◌, Bool, if◌then◌else◌, not}
use external_crd.Prelude.Text.{Text, codes, str_eq}
use external_crd.Prelude.Maps.{Map, put, put_all}
use external_crd.Prelude.Outcome.{Outcome, ok, err, panic, internal}
use external_crd.Utils.Constants.{
  config_group_label, config_version_label, config_kind_label, config_name_label,
  config_cluster_label, config_namespace_label,
}
use external_crd.Rest.Objects.{Rest, Machinery, KubernetesCrd}

-- if m == nil { m = map[string]string{} }
abbrev pub or_empty : Option (Map Text) → Map Text
or_empty none = []
or_empty (some m) = m

-- The labels of a manifest that `Create` makes, from those of the object that it stores.
unfoldable pub create_labels : Rest → Text → Text → Text → Option (Map Text) → Map Text
create_labels r cluster name namespace labels = put config_namespace_label namespace (
    put config_cluster_label cluster (
      put config_name_label name (
        put config_kind_label r.kind
          (put config_version_label r.version (put config_group_label r.group (or_empty labels))))))

-- The labels that `Update` gives a manifest, from its old ones and those of the new object.
unfoldable pub update_labels :
    Rest → Text → Text → Text → Option (Map Text) → Option (Map Text) → Map Text
update_labels r cluster name namespace new_labels old_labels =
    let merged = put_all (or_empty new_labels) (or_empty old_labels) in
    let versioned = put config_version_label r.version (put config_group_label r.group merged) in
    let kinded =
      if not (str_eq r.kind (codes "Scale"))
      then put config_kind_label r.kind versioned
      else versioned in
    put config_cluster_label cluster
      (put config_namespace_label namespace (put config_name_label name kinded))

module _ {U : Type 0} (k : Machinery U) where
  abbrev remove_metadata : U → Text → U
  remove_metadata u field = k.remove_nested_field u (codes "metadata" ∷ field ∷ [])

  -- trimResult
  unfoldable pub trim_result : U → U
  trim_result u =
      remove_metadata
        (remove_metadata (remove_metadata u (codes "creationTimestamp")) (codes "managedFields"))
        (codes "resourceVersion")

  -- The fields that `transformManifest` copies onto the object that it has read.
  unfoldable pub copy_metadata : KubernetesCrd U → U → U
  copy_metadata crd u =
      let u1 = k.set_generation u crd.meta.generation in
      let u2 = k.set_creation_timestamp u1 crd.meta.creation_timestamp in
      let u3 = k.set_resource_version u2 crd.meta.resource_version in
      let u4 = k.set_uid u3 crd.meta.uid in
      let u5 = k.set_deletion_grace_period_seconds u4 crd.meta.deletion_grace_period_seconds in
      let u6 = k.set_deletion_timestamp u5 crd.meta.deletion_timestamp in
      let u7 = k.set_finalizers u6 crd.meta.finalizers in
      k.set_annotations u7 (k.get_annotations u7)

  abbrev transform_read : KubernetesCrd U → Outcome U → Outcome U
  transform_read crd (ok u) = ok (copy_metadata crd u)
  transform_read crd (err e) = err (internal e)
  transform_read crd panic = panic

  unfoldable pub transform_manifest : KubernetesCrd U → Outcome U
  transform_manifest crd = transform_read crd (k.unmarshal crd.manifest.raw)
