-- ===== src/Rest/Example/CrudTests.antt =====
-- Instances of the theorems on the handlers of rest.go, at the API server of Rest/Example.antt.
use external_crd.Prelude.{◌≡◌, refl, ◌≢◌, inl, Option, none, false, [], ◌∷◌, arith}
use external_crd.Prelude.Text.{Text, codes, is_empty, str_eq, has_prefix, last_index, contains_byte}
use external_crd.Prelude.Maps.{put_all, lookup, put}
use external_crd.Prelude.Int.{pos}
use external_crd.Prelude.Outcome.{Outcome, ok, err, already_exists}
use external_crd.Rest.User.{get_user, get_cluster_namespace, username_prefix}
use external_crd.Rest.Objects.{RuntimeObject, KubernetesCrd, unstructured, Request}
use external_crd.Rest.Names.{get_resource_name, get_normalized_manifest_name}
use external_crd.Rest.Manifest.{update_labels, trim_result, copy_metadata, transform_manifest}
use external_crd.Rest.DryRun.{
  dry_run_request, normalize_request, prepare, marshalled, dry_run_create, namespace_refused,
  moves_namespace, is_namespace_kind, restore,
}
use external_crd.Rest.DryRun.Laws.{IsDryRun, FieldLaws, IsRestored, dry_run_create_sound}
use external_crd.Rest.Crud.{
  updated_manifest, save_update, updated_result, store_created, group_resource, create, get,
  created_manifest,
}
use external_crd.Rest.Crud.Rewrite.{get-save_update}
use external_crd.Rest.Crud.ReadWrite.{get-create, create-taken, create_ignores_options}
use external_crd.Rest.Crud.Isolation.{
  creating, deleting, after, unauthorized_writes_nothing, tenant_isolation,
}
use external_crd.Rest.Example.{
  machinery, machinery_laws, backend, frame_laws, create_laws, synced, Server, stored, accepted,
}
use external_crd.Rest.Example.Changing.{update_laws}
use external_crd.Rest.Example.Requests.{
  foos, bars, request, stranger, item, request_authorized, stranger_refused, foos_moves, foos-Lacks,
  bars-Lacks, c1-Lacks, c2-Lacks, team-Lacks,
}

abbrev pub no_check : Option (Text → Outcome (Unit {0}))
no_check = none

-- The state after the create of `item` at an empty server, and what the create returns.
abbrev pub after_create : Outcome Text × Server
after_create = create machinery backend foos request (unstructured item) no_check [] []

item_created : after_create.0 ≡ ok item
unfolding create store_created get_user get_cluster_namespace username_prefix codes is_empty
    has_prefix last_index str_eq dry_run_create namespace_refused moves_namespace is_namespace_kind
    restore trim_result transform_manifest copy_metadata created_manifest dry_run_request
    normalize_request lookup prepare marshalled
item_created = refl

abbrev other_manifest : KubernetesCrd Text
other_manifest = record {
  meta = record {
    name = get_normalized_manifest_name bars (codes "c2") (codes "team") (codes "x");
    namespace = codes "reserved";
    labels = none;
    generation = pos 1;
    creation_timestamp = [];
    resource_version = codes "7";
    uid = [];
    deletion_grace_period_seconds = none;
    deletion_timestamp = none;
    finalizers = [];
  };
  manifest = record { raw = item; object = none };
}

abbrev others : Server
others =
    (get_normalized_manifest_name bars (codes "c2") (codes "team") (codes "x"), other_manifest) ∷ []

-- The fields of the metadata: an object of the example has none.
field_laws : FieldLaws machinery
field_laws = record {
  has_metadata = λ u f. false;
  has_metadata-remove_nested_field = λ u f g. ground arith;
}

dry_run_create_sound_example :
    (machinery.validate_namespace_name (codes "team") ≡ [])
    × (q : Request) × (sent answer : Text) × IsDryRun foos q
    × (machinery.marshal_json sent ≡ ok q.body)
    × (machinery.get_namespace sent ≡ codes "reserved")
    × (backend.dry_run q [] ≡ ok answer)
    × IsRestored machinery field_laws (codes "team") answer item
unfolding codes is_empty str_eq dry_run_create namespace_refused moves_namespace is_namespace_kind
    restore trim_result dry_run_request normalize_request prepare marshalled
dry_run_create_sound_example =
    dry_run_create_sound machinery backend foos request machinery_laws field_laws item [] [] item
      refl refl

get-create_example :
    get machinery backend foos request (machinery.get_name item) [] after_create.1 ≡ ok item
unfolding create store_created get_user get_cluster_namespace username_prefix codes is_empty
    has_prefix last_index str_eq dry_run_create namespace_refused moves_namespace is_namespace_kind
    restore trim_result transform_manifest copy_metadata created_manifest dry_run_request
    normalize_request lookup prepare marshalled
get-create_example =
    get-create machinery backend stored machinery_laws create_laws foos request (unstructured item)
      no_check [] [] [] after_create.1 item refl refl (synced after_create.1) refl

create-taken_example :
    create machinery backend foos request (unstructured item) no_check [] after_create.1
    ≡ (err (already_exists (group_resource foos) (machinery.get_name item)), after_create.1)
unfolding create store_created get_user get_cluster_namespace username_prefix codes is_empty
    has_prefix last_index str_eq dry_run_create namespace_refused moves_namespace is_namespace_kind
    restore trim_result transform_manifest copy_metadata created_manifest dry_run_request
    normalize_request lookup prepare marshalled put get_normalized_manifest_name get_resource_name
    contains_byte
create-taken_example =
    create-taken machinery backend stored machinery_laws create_laws foos request
      (unstructured item) no_check [] after_create.1 (codes "c1") item
      (accepted (created_manifest machinery backend foos request (codes "c1") item)) refl refl refl

options_ignored :
    create machinery backend foos request (unstructured item) no_check (codes "1") []
    ≡ create machinery backend foos request (unstructured item) no_check (codes "2") []
options_ignored =
    create_ignores_options machinery backend foos request (unstructured item) no_check (codes "1")
      (codes "2") [] same
  where
    same :
        dry_run_create machinery backend foos request (unstructured item) (codes "1") []
        ≡ dry_run_create machinery backend foos request (unstructured item) (codes "2") []
    same = unfold dry_run_create in refl

unauthorized_writes_nothing_example :
    after machinery backend foos stranger (deleting (codes "x") no_check []) after_create.1
    ≡ after_create.1
unauthorized_writes_nothing_example =
    unauthorized_writes_nothing machinery backend foos stranger (deleting (codes "x") no_check [])
      after_create.1 stranger_refused

tenant_isolation_example :
    stored
      (after machinery backend foos request (creating (unstructured item) no_check []) others)
      (codes "reserved")
      (get_normalized_manifest_name bars (codes "c2") (codes "team") (codes "x"))
    ≡ stored others
        (codes "reserved")
        (get_normalized_manifest_name bars (codes "c2") (codes "team") (codes "x"))
tenant_isolation_example =
    tenant_isolation machinery backend stored machinery_laws frame_laws foos bars request
      (creating (unstructured item) no_check []) others (codes "c1") (codes "c2") (codes "team")
      (codes "x") foos_moves request_authorized (inl c2_other) foos-Lacks bars-Lacks c1-Lacks
      c2-Lacks team-Lacks team-Lacks
  where
    c2_other : codes "c2" ≢ codes "c1"
    c2_other = unfold codes in (λ h. ground arith)

abbrev pub unchanged : Text → Outcome (RuntimeObject Text)
unchanged u = ok (unstructured u)

abbrev pub no_update_check : Option (RuntimeObject Text → Text → Outcome (Unit {0}))
no_update_check = none

abbrev pub updated : KubernetesCrd Text
updated = accepted (
    updated_manifest machinery backend foos request (codes "c1") item
      (accepted (created_manifest machinery backend foos request (codes "c1") item)))

-- The manifest behind the create.
abbrev pub first : KubernetesCrd Text
first = accepted (created_manifest machinery backend foos request (codes "c1") item)

abbrev pub after_update : Outcome (KubernetesCrd Text) × Server
after_update =
    save_update machinery backend foos request (codes "x") unchanged no_update_check []
      after_create.1

get-save_update_example :
    get machinery backend foos request (codes "x") [] after_update.1
    ≡ transform_manifest machinery updated
unfolding create store_created get_user get_cluster_namespace username_prefix codes is_empty
    has_prefix last_index str_eq dry_run_create namespace_refused moves_namespace is_namespace_kind
    restore trim_result transform_manifest copy_metadata created_manifest dry_run_request
    normalize_request lookup prepare marshalled put get_normalized_manifest_name get_resource_name
    contains_byte save_update updated_result updated_manifest update_labels put_all update_laws
get-save_update_example =
    get-save_update machinery backend stored frame_laws foos request update_laws (codes "x")
      unchanged no_update_check [] [] after_create.1 after_update.1 first updated (codes "c1") refl
      refl refl refl refl (synced after_update.1) refl
