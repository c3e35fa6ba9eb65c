-- ===== src/Handler/Events.antt =====
-- The event handlers of `crdHandler` of customresource_handler.go, and its constructor. An error of
-- `addStorage` is logged, so a handler has no result but the state, or a panic.
pub mod Reach
pub mod Removal
pub mod Addition
use external_crd.Prelude.{Bool, true, false, Option, none, some, List, [], ◌∷◌, ◌++◌, if◌then◌else◌}
use external_crd.Prelude.Text.{Text, codes, has_suffix}
use external_crd.Prelude.Int.{ℤ}
use external_crd.Prelude.Outcome.{Outcome, ok, err, panic}
use external_crd.Utils.Constants.{category}
use external_crd.Handler.Priority.{GroupPriority, ApiServiceLister}
use external_crd.Handler.Crd.{Crd, CrdFunctions}
use external_crd.Handler.Discovery.{ApiResource, new_discovery, categorized}
use external_crd.Handler.State.{
  discover, WebServices, Handler, is_some, overlay_group, overlay_version, kcrd_group_suffix,
}
use external_crd.Handler.Storage.{Result, add_storage, remove_storage}

-- strings.HasSuffix(crd.Spec.Group, kcrdGroupSuffix)
unfoldable pub is_own : Crd → Bool
is_own crd = has_suffix crd.group kcrd_group_suffix

-- The argument of the delete handler: a definition, a tombstone with or without one, or another value.
pub data Deleted : Type 0 where
  definition : Crd → Deleted
  tombstone : Option Crd → Deleted
  unknown : Deleted

module _ {W : Type 0} (f : CrdFunctions) (w : WebServices W) where
  -- NewCRDHandler; `root_prefix` joins the prefix of API groups and the overlay's group and version
  unfoldable pub new_crd_handler : Text → ℤ → Handler W
  new_crd_handler reserved_namespace max_request_body_bytes = record {
    root_prefix = w.path_join (codes "/apis" ∷ (overlay_group ++ (b'/' ∷ overlay_version)) ∷ []);
    ws = none;
    storages = [];
    request_scopes = [];
    discovery = none;
    non_crd_api_resources = [];
    reserved_namespace = reserved_namespace;
    max_request_body_bytes = max_request_body_bytes;
    priorities = [];
  }

  -- AddNonCRDAPIResource
  unfoldable pub add_non_crd_api_resource : Handler W → ApiResource → Handler W
  add_non_crd_api_resource h a = record h {
    non_crd_api_resources = h.non_crd_api_resources ++ categorized a ∷ [];
  }

  -- fmt.Sprintf("%s/%s/", genericapiserver.APIGroupPrefix, overlayapi.SchemeGroupVersion.String())
  abbrev version_discovery_path : Text
  version_discovery_path =
      codes "/apis" ++ (b'/' ∷ (overlay_group ++ (b'/' ∷ (overlay_version ++ (b'/' ∷ [])))))

  -- The route of the version discovery in place of the one that was installed; where that cannot be
  -- removed the method ends, and the informer's handlers are not registered (false).
  rerouted : W → Option W → Bool × W
  rerouted ws none = (false, w.set_dynamic_routes ws false)
  rerouted ws (some ws') = (
    true,
    w.set_dynamic_routes
        (w.add_route ws' (record {
          method = codes "GET";
          path = w.build_path version_discovery_path (codes "/");
          operation = codes "getAPIResources";
          target = discover;
        }))
        false,
  )

  -- SetRootWebService; its Boolean result is whether the informer's handlers are registered
  unfoldable pub set_root_web_service : Handler W → W → Outcome Bool × Handler W
  unfolding rerouted
  set_root_web_service h ws =
      if is_some h.ws
      then (panic, h)
      else let dynamic = w.set_dynamic_routes ws true in
        let (registered, ws') =
          rerouted dynamic (w.remove_route dynamic version_discovery_path (codes "GET")) in
        (
          ok registered,
          record h { ws = some ws'; discovery = some (new_discovery h.non_crd_api_resources) },
        )

  -- An error is logged, and the state goes on; a panic stays.
  abbrev pub logged : Result f w → Result f w
  logged (err e, h) = (ok tt, h)
  logged (r, h) = (r, h)

  unfoldable pub delete_custom_resource_definition : Handler W → Deleted → Result f w
  delete_custom_resource_definition h (definition crd) = remove_storage f w h crd
  delete_custom_resource_definition h (tombstone none) = (ok tt, h)
  delete_custom_resource_definition h (tombstone (some crd)) = remove_storage f w h crd
  delete_custom_resource_definition h unknown = (ok tt, h)

  module _ (lister : ApiServiceLister) where
    unfoldable pub add_custom_resource_definition : Handler W → Crd → Result f w
    add_custom_resource_definition h crd =
        if is_own crd then (ok tt, h) else logged (add_storage f w lister h crd)

    -- A panic of `removeStorage` keeps `addStorage` from running.
    abbrev pub then_add : Crd → Result f w → Result f w
    then_add crd (ok _, h) = logged (add_storage f w lister h crd)
    then_add crd (r, h) = (r, h)

    unfoldable pub update_custom_resource_definition : Handler W → Crd → Crd → Result f w
    update_custom_resource_definition h old new =
        if is_some new.deletion_timestamp
        then (ok tt, h)
        else if f.deep_equal_specs old new
        then (ok tt, h)
        else if is_own new
        then (ok tt, h)
        else then_add new (remove_storage f w h old)
