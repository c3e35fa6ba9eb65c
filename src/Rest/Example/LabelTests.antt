-- ===== src/Rest/Example/LabelTests.antt =====
-- Instances of the theorems on the labels of manifests of rest.go: a create, and an update behind it.
use external_crd.Prelude.{◌≡◌, refl, ◌≢◌, none, some, [], arith}
use external_crd.Prelude.Text.{Text, codes, is_empty, str_eq, has_prefix, last_index, contains_byte}
use external_crd.Prelude.Maps.{lookup, put, put_all}
use external_crd.Prelude.Outcome.{ok}
use external_crd.Rest.User.{get_user, get_cluster_namespace, username_prefix}
use external_crd.Rest.Objects.{KubernetesCrd, unstructured}
use external_crd.Rest.Names.{get_resource_name, get_normalized_manifest_name}
use external_crd.Rest.Manifest.{
  or_empty, update_labels, trim_result, copy_metadata, transform_manifest,
}
use external_crd.Rest.Manifest.Labels.{IsLabelled, IsUsers}
use external_crd.Rest.DryRun.{
  dry_run_request, normalize_request, prepare, marshalled, dry_run_create, namespace_refused,
  moves_namespace, is_namespace_kind, restore,
}
use external_crd.Rest.Crud.{
  updated_manifest, save_update, updated_result, store_created, create, created_manifest,
  manifest_name,
}
use external_crd.Rest.Crud.Labelled.{create-IsLabelled, save_update-IsLabelled}
use external_crd.Rest.Example.{machinery, machinery_laws, backend, frame_laws, create_laws, stored}
use external_crd.Rest.Example.Changing.{update_laws}
use external_crd.Rest.Example.Requests.{foos, request, item, foos_moves}
use external_crd.Rest.Example.CrudTests.{
  no_check, after_create, unchanged, no_update_check, first, updated, after_update,
}

foo_not_scale : foos.kind ≢ codes "Scale"
unfolding codes
foo_not_scale h = ground arith

app_IsUsers : IsUsers (codes "app")
unfolding codes str_eq
app_IsUsers = record {
  not_group = refl;
  not_version = refl;
  not_kind = refl;
  not_name = refl;
  not_namespace = refl;
  not_cluster = refl;
}

create-IsLabelled_example :
    (cluster : Text) × (crd : KubernetesCrd Text) × (get_user request ≡ ok cluster)
    × (stored after_create.1
          (codes "reserved")
          (manifest_name machinery backend foos request cluster (machinery.get_name item))
        ≡ some crd)
    × IsLabelled foos cluster (machinery.get_name item) (codes "team") (or_empty crd.meta.labels)
    × (lookup (codes "app") (or_empty crd.meta.labels) ≡ lookup (codes "app") (or_empty none))
unfolding create store_created get_user get_cluster_namespace username_prefix codes is_empty
    has_prefix last_index str_eq dry_run_create namespace_refused moves_namespace is_namespace_kind
    restore trim_result transform_manifest copy_metadata created_manifest dry_run_request
    normalize_request lookup prepare marshalled put get_normalized_manifest_name get_resource_name
    contains_byte save_update updated_result updated_manifest update_labels put_all update_laws
create-IsLabelled_example =
    create-IsLabelled machinery backend stored machinery_laws create_laws foos request
      (unstructured item) no_check [] [] after_create.1 item (codes "app") foos_moves app_IsUsers
      refl

save_update-IsLabelled_example :
    (stored after_update.1
        (codes "reserved")
        (manifest_name machinery backend foos request (codes "c1") (codes "x"))
      ≡ some updated)
    × IsLabelled foos
        (codes "c1")
        (machinery.get_name item)
        (machinery.get_namespace item)
        (or_empty updated.meta.labels)
    × (lookup (codes "app") (or_empty updated.meta.labels)
        ≡ lookup (codes "app") (or_empty first.meta.labels))
unfolding create store_created get_user get_cluster_namespace username_prefix codes is_empty
    has_prefix last_index str_eq dry_run_create namespace_refused moves_namespace is_namespace_kind
    restore trim_result transform_manifest copy_metadata created_manifest dry_run_request
    normalize_request lookup prepare marshalled put get_normalized_manifest_name get_resource_name
    contains_byte save_update updated_result updated_manifest update_labels put_all update_laws
save_update-IsLabelled_example =
    save_update-IsLabelled machinery backend stored machinery_laws frame_laws update_laws foos
      request (codes "x") unchanged no_update_check [] after_create.1 after_update.1 first updated
      first (codes "c1") (codes "app") item foo_not_scale app_IsUsers refl refl refl refl refl refl
      refl refl
