-- ===== src/Rest/Example/ListingTests.antt =====
-- An instance of the theorem on `Create` and `List` of rest.go, at the API server of Rest/Example.antt
-- with a List that answers all manifests, whatever the selector.
use external_crd.Prelude.{
  ◌≡◌, refl, ◌∙◌, ap, false, Bool-cases, inl, inr, none, some, List, [], ◌∷◌, arith, Occurs,
}
use mathlib.Core.Path.{subst}
use external_crd.Prelude.Text.{Text, codes, is_empty, str_eq, has_prefix, last_index}
use external_crd.Prelude.Text.Laws.{str_eq_iff}
use external_crd.Prelude.Maps.{lookup, put}
use external_crd.Prelude.Int.{pos}
use external_crd.Prelude.Outcome.{Outcome, ok, ok_injective}
use external_crd.Rest.User.{get_user, get_cluster_namespace, username_prefix}
use external_crd.Rest.Objects.{Backend, KubernetesCrd, UnstructuredList, unstructured}
use external_crd.Rest.Names.{get_list_kind}
use external_crd.Rest.Manifest.{trim_result, copy_metadata, transform_manifest}
use external_crd.Rest.DryRun.{
  dry_run_request, normalize_request, prepare, marshalled, dry_run_create, namespace_refused,
  moves_namespace, is_namespace_kind, restore,
}
use external_crd.Rest.Crud.{store_created, create, created_manifest}
use external_crd.Rest.Crud.Store.{CreateLaws}
use external_crd.Rest.Listing.{
  ListOptions, list, convert_list_options_to_labels, add_fields, list_query, transform_all,
}
use external_crd.Rest.Listing.Complete.{CompleteLaws, list-create}
use external_crd.Rest.Example.{
  machinery, machinery_laws, backend, create_laws, Server, stored, named,
}
use external_crd.Rest.Example.Requests.{foos, request, item, foos_moves}
use external_crd.Rest.Example.ListTests.{Label, selectors, selector_laws}

abbrev renamed : Text → KubernetesCrd Text → KubernetesCrd Text
renamed n crd = record crd { meta = record crd.meta { name = n } }

abbrev all_manifests : Server → List (KubernetesCrd Text)
all_manifests [] = []
all_manifests ((n, crd) ∷ s) = renamed n crd ∷ all_manifests s

abbrev listing : Backend Server Text Text
listing = record backend {
  list =
      λ ns q s. ok (record { resource_version = []; continue_token = []; items = all_manifests s });
}

listing_laws : CreateLaws machinery listing stored
listing_laws = record {
  create_taken = create_laws.create_taken;
  create_stores = create_laws.create_stores;
  create_encodes = create_laws.create_encodes;
  create_labelled = create_laws.create_labelled;
}

all_manifests-Occurs :
    (s : Server) (n : Text) (crd : KubernetesCrd Text)
    → named n (lookup n s) ≡ some crd
    → Occurs crd (all_manifests s)
unfolding lookup
all_manifests-Occurs [] n crd h = absurd (ground arith)
all_manifests-Occurs ((j, c) ∷ s) n crd h = elim (Bool-cases (str_eq j n)) [
  | inl e ↦
      let same = (str_eq_iff j n).0 e in
      let found : some (renamed n c) ≡ some crd = rw e at h in
      record {
        before = [];
        after = all_manifests s;
        split = ap (λ x. x ∷ all_manifests s) (ap (λ x. renamed x c) same ∙ cc found);
      }
  | inr e ↦
      let o = all_manifests-Occurs s n crd (rw e at h) in
      record {
        before = renamed j c ∷ o.before;
        after = o.after;
        split = ap (λ x. renamed j c ∷ x) o.split;
      }
]

complete_laws : CompleteLaws machinery listing selectors selector_laws stored
complete_laws = record {
  lists = λ ns n q s out label crd answered l f w h m.
      subst (Occurs crd) (ap (λ x. x.items) (ok_injective answered))
        (all_manifests-Occurs s n crd h);
}

abbrev plain : ListOptions (List Label)
plain = record {
  label_selector = none;
  field_selector = none;
  params = record {
    watch = false;
    allow_watch_bookmarks = false;
    resource_version = [];
    resource_version_match = [];
    timeout_seconds = none;
    limit = pos 0;
    continue_token = [];
  };
}

-- The create of `item` at an empty server, and the list after it.
abbrev made : Outcome Text × Server
made = create machinery listing foos request (unstructured item) none [] []

abbrev listed : UnstructuredList Text
listed = record {
  api_version = codes "example.com/v1";
  kind = get_list_kind foos;
  resource_version = [];
  continue_token = [];
  items = item ∷ [];
}

list-create_example : Occurs item listed.items
unfolding create store_created get_user get_cluster_namespace username_prefix codes is_empty
    has_prefix last_index str_eq dry_run_create namespace_refused moves_namespace is_namespace_kind
    restore trim_result transform_manifest copy_metadata created_manifest dry_run_request
    normalize_request lookup prepare marshalled put list convert_list_options_to_labels add_fields
    list_query transform_all
list-create_example =
    list-create machinery listing selectors selector_laws stored machinery_laws listing_laws
      complete_laws foos request (unstructured item) none [] plain [] made.1 item listed foos_moves
      refl
      (record {
        any_label = refl;
        any_field = refl;
        whole = record {
          unlimited = refl;
          from_start = refl;
          most_recent = refl;
          unmatched = refl;
        };
      })
      refl
