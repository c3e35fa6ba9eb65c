-- ===== src/Rest/Manifest/Labels.antt =====
-- The labels by which `List` finds a manifest, after `Create` and after `Update`.
use external_crd.Prelude.{◌≡◌, ◌≢◌, Option, none, some, Bool-cases, inl, inr, false}
use external_crd.Prelude.Text.{Text, codes, str_eq}
use external_crd.Prelude.Text.Laws.{str_eq-ne}
use external_crd.Prelude.Maps.{Map, lookup, map_laws, lookup-put, lookup-put_all_absent}
use external_crd.Utils.Constants.{
  config_group_label, config_version_label, config_kind_label, config_name_label,
  config_cluster_label, config_namespace_label,
}
use external_crd.Rest.Objects.{Rest}
use external_crd.Rest.Manifest.{or_empty, create_labels, update_labels}

-- The labels name the resource, the cluster, the namespace and the object.
pub record IsLabelled (r : Rest) (cluster name namespace : Text) (m : Map Text) : Type 0 where
  pub has_group : lookup config_group_label m ≡ some r.group
  pub has_version : lookup config_version_label m ≡ some r.version
  pub has_kind : lookup config_kind_label m ≡ some r.kind
  pub has_name : lookup config_name_label m ≡ some name
  pub has_namespace : lookup config_namespace_label m ≡ some namespace
  pub has_cluster : lookup config_cluster_label m ≡ some cluster

labels_differ : Unit {0}
unfolding codes str_eq
labels_differ = tt

pub create_labels-IsLabelled :
    (r : Rest) (cluster name namespace : Text) (labels : Option (Map Text))
    → IsLabelled r cluster name namespace (create_labels r cluster name namespace labels)
unfolding create_labels labels_differ
create_labels-IsLabelled r cluster name namespace labels = record {
  has_group = simp map_laws;
  has_version = simp map_laws;
  has_kind = simp map_laws;
  has_name = simp map_laws;
  has_namespace = simp map_laws;
  has_cluster = simp map_laws;
}

pub update_labels-IsLabelled :
    (r : Rest) (cluster name namespace : Text) (new_labels old_labels : Option (Map Text))
    → r.kind ≢ codes "Scale"
    → IsLabelled r cluster name namespace
        (update_labels r cluster name namespace new_labels old_labels)
unfolding update_labels labels_differ
update_labels-IsLabelled r cluster name namespace new_labels old_labels h =
    rw (str_eq-ne r.kind (codes "Scale") h) (record {
      has_group = simp map_laws;
      has_version = simp map_laws;
      has_kind = simp map_laws;
      has_name = simp map_laws;
      has_namespace = simp map_laws;
      has_cluster = simp map_laws;
    })

-- A label of the user's: none of the six that the program writes.
pub record IsUsers (j : Text) : Type 0 where
  pub not_group : str_eq config_group_label j ≡ false
  pub not_version : str_eq config_version_label j ≡ false
  pub not_kind : str_eq config_kind_label j ≡ false
  pub not_name : str_eq config_name_label j ≡ false
  pub not_namespace : str_eq config_namespace_label j ≡ false
  pub not_cluster : str_eq config_cluster_label j ≡ false

pub create_labels_users :
    (r : Rest) (cluster name namespace : Text) (labels : Option (Map Text)) {j : Text}
    → IsUsers j
    → lookup j (create_labels r cluster name namespace labels) ≡ lookup j (or_empty labels)
unfolding create_labels
create_labels_users r cluster name namespace labels u =
    simp (
      lookup-put, u.not_group, u.not_version, u.not_kind, u.not_name, u.not_namespace,
      u.not_cluster,
    )

pub update_labels_stale :
    (r : Rest) (cluster name namespace : Text) (new_labels old_labels : Option (Map Text))
    {j : Text}
    → IsUsers j
    → lookup j (or_empty new_labels) ≡ none
    → lookup j (update_labels r cluster name namespace new_labels old_labels)
      ≡ lookup j (or_empty old_labels)
unfolding update_labels
update_labels_stale r cluster name namespace new_labels old_labels {j} u h =
    elim (Bool-cases (str_eq r.kind (codes "Scale"))) [
      | inl e ↦ rw e (
          simp (lookup-put, u.not_group, u.not_version, u.not_name, u.not_namespace, u.not_cluster)
            (lookup-put_all_absent j (or_empty new_labels) (or_empty old_labels) h))
      | inr e ↦ rw e (
          simp
            (
              lookup-put, u.not_group, u.not_version, u.not_kind, u.not_name, u.not_namespace,
              u.not_cluster,
            )
            (lookup-put_all_absent j (or_empty new_labels) (or_empty old_labels) h))
    ]
