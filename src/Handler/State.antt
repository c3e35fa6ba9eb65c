-- ===== src/Handler/State.antt =====
-- The state of `crdHandler` of customresource_handler.go, the storage that it makes for a definition, and
-- what it calls of github.com/emicklei/go-restful.
use external_crd.Prelude.{Bool, true, false, Option, none, some, List}
use external_crd.Prelude.Text.{Text, codes}
use external_crd.Prelude.Maps.{Map}
use external_crd.Prelude.Int.{ℤ}
use external_crd.Rest.Objects.{Rest, GroupVersionKind}
use external_crd.Rest.Names.{
  new_rest, set_namespace_scoped, set_name, set_short_names, set_kind, set_group, set_version,
}
use external_crd.Handler.Priority.{GroupPriority}
use external_crd.Handler.Crd.{Subresources, Crd}
use external_crd.Handler.Discovery.{ApiResource, Discovery, is_namespaced}

-- What a route calls: `r.handle`, the refusal of the status subresource, or the version discovery.
pub data Target : Type 0 where
  serve refuse_status discover : Target

-- restful.Route
pub record Route : Type 0 where
  pub method : Text
  pub path : Text
  pub operation : Text
  pub target : Target

-- What the handler calls of a restful.WebService, for `W` that type: `build_path` is the path of a
-- route from the root path and its own, and `remove_route` gives `none` for an error.
pub record WebServices (W : Type 0) : Type 0 where
  pub routes : W → List Route
  pub add_route : W → Route → W
  pub remove_route : W → Text → Text → Option W
  pub set_dynamic_routes : W → Bool → W
  pub build_path : Text → Text → Text
  pub path_join : List Text → Text

-- What `addStorage` puts into a handlers.RequestScope of its own, and not of the scheme.
pub record RequestScope : Type 0 where
  pub cluster_scoped : Bool
  pub self_link_path_prefix : Text
  pub group_version_kind : GroupVersionKind
  pub resource : Text
  pub equivalents : List (Text × GroupVersionKind)
  pub max_request_body_bytes : ℤ

-- crdHandler, with the global map of priorities. `ws` and `discovery` are nil pointers until
-- `SetRootWebService`.
pub record Handler (W : Type 0) : Type 0 where
  pub root_prefix : Text
  pub ws : Option W
  pub storages : Map Rest
  pub request_scopes : Map RequestScope
  pub discovery : Option Discovery
  pub non_crd_api_resources : List ApiResource
  pub reserved_namespace : Text
  pub max_request_body_bytes : ℤ
  pub priorities : Map GroupPriority

-- kcrdGroupSuffix
abbrev pub kcrd_group_suffix : Text
kcrd_group_suffix = codes ".jijiechen.com"

-- overlayapi.GroupName and the version of overlayapi.SchemeGroupVersion
abbrev pub overlay_group : Text
overlay_group = codes "overlay"

abbrev pub overlay_version : Text
overlay_version = codes "v1alpha1"

abbrev pub overlay_kind : Text → GroupVersionKind
overlay_kind kind = record { group = overlay_group; version = overlay_version; kind = kind }

-- The REST storage of a definition, by the setters that `addStorage` calls.
unfoldable pub storage_of : Text → Crd → Text → Rest
storage_of reserved_namespace crd version =
    let r0 = new_rest reserved_namespace in
    let r1 = set_namespace_scoped r0 (is_namespaced crd.scope) in
    let r2 = set_name r1 crd.plural in
    let r3 = set_short_names r2 crd.short_names in
    let r4 = set_kind r3 crd.kind in let r5 = set_group r4 crd.group in set_version r5 version

-- p != nil
abbrev pub is_some {ℓ} : {A : Type ℓ} → Option A → Bool
is_some none = false
is_some (some _) = true

-- The fields of a Subresources pointer, false where it is nil.
abbrev pub has_status : Option Subresources → Bool
has_status none = false
has_status (some s) = s.status

abbrev pub has_scale : Option Subresources → Bool
has_scale none = false
has_scale (some s) = s.scale
