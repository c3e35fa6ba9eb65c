-- ===== src/Rest/DryRun.antt =====
-- `dryRunCreate` and `normalizeRequest` of pkg/apiserver/overlay/rest.go.
pub mod Laws
use external_crd.Prelude.{
  Bool, true, false, not, ◌&&◌, ◌||◌, Option, none, some, List, [], ◌∷◌, if◌then◌else◌,
}
use external_crd.Prelude.Text.{Text, codes, str_eq, is_empty}
use external_crd.Prelude.Maps.{put}
use external_crd.Prelude.Outcome.{Outcome, ok, err, panic, then_do, bad_request, invalid_namespace}
use external_crd.Utils.Constants.{object_created_by_label, external_crd_app_name}
use external_crd.Rest.User.{Context}
use external_crd.Rest.Objects.{
  Rest, Machinery, Backend, RuntimeObject, unstructured, foreign, Request,
}
use external_crd.Rest.Names.{get_resource_name}
use external_crd.Rest.Manifest.{or_empty, trim_result}

-- r.kind == "Namespace"
unfoldable pub is_namespace_kind : Rest → Bool
is_namespace_kind r = str_eq r.kind (codes "Namespace")

-- r.kind != "Namespace" && r.namespaced
unfoldable pub moves_namespace : Rest → Bool
moves_namespace r = not (is_namespace_kind r) && r.namespaced

-- CoreGroupPrefix, NamedGroupPrefix
abbrev core_group_prefix : Text
core_group_prefix = codes "api"

abbrev named_group_prefix : Text
named_group_prefix = codes "apis"

unfoldable pub normalize_request : Rest → Request → Text → Request
normalize_request r req namespace =
    let prefixed = record req {
      prefix =
          if is_empty r.group
          then core_group_prefix ∷ r.version ∷ []
          else named_group_prefix ∷ r.group ∷ r.version ∷ [];
    } in
    if r.namespaced then record prefixed { namespace = some namespace } else prefixed

-- The request of the dry run: Post().Resource(..).Param("dryRun", "All").VersionedParams(..).Body(..)
unfoldable pub dry_run_request : Rest → List (Text × Text) → Text → Request
dry_run_request r params body =
    let dry_run_namespace = if is_namespace_kind r then [] else r.reserved_namespace in
    normalize_request r
      (record {
        prefix = [];
        namespace = none;
        resource = (get_resource_name r).0;
        params = (codes "dryRun", codes "All") ∷ params;
        body = body;
      })
      dry_run_namespace

-- len(errs) > 0
abbrev has_errors : List Text → Bool
has_errors [] = false
has_errors (_ ∷ _) = true

-- The namespace of the request is checked for namespaced resources and for namespaces.
unfoldable pub namespace_refused : {U : Type 0} → Machinery U → Rest → Text → Bool
namespace_refused k r namespace =
    (r.namespaced || is_namespace_kind r) && has_errors (k.validate_namespace_name namespace)

module _ {S U O : Type 0} (k : Machinery U) (b : Backend S U O) (r : Rest) (ctx : Context) where
  -- The object that is sent: labelled, and in the reserved namespace.
  unfoldable pub prepare : U → U
  prepare u =
      let labelled =
        k.set_labels u
          (put object_created_by_label external_crd_app_name (or_empty (k.get_labels u))) in
      if moves_namespace r then k.set_namespace labelled r.reserved_namespace else labelled

  -- What becomes of the server's answer: its namespace is set back, and its metadata trimmed.
  unfoldable pub restore : U → U
  restore result =
      trim_result k (if moves_namespace r then k.set_namespace result ctx.namespace else result)

  unfoldable pub marshalled : Outcome Text → Outcome Text
  marshalled (ok body) = ok body
  marshalled (err e) = err bad_request
  marshalled panic = panic

  unfoldable pub dry_run_create : RuntimeObject U → O → S → Outcome U
  unfolding prepare marshalled
  dry_run_create (foreign _) options s = err bad_request
  dry_run_create (unstructured u) options s =
      if namespace_refused k r ctx.namespace
      then err (invalid_namespace ctx.namespace)
      else then_do (marshalled (k.marshal_json (prepare u))) λ body.
        then_do (b.dry_run (dry_run_request r (b.versioned_params options) body) s)
          λ result. ok (restore result)
