-- ===== src/Handler/Groups.antt =====
-- `NewOverlayAPIServer`, `installAPIGroups` and what it calls, of pkg/apiserver/overlay/apiserver.go: how
-- the storages of API groups come into the container of web services, and the CRD handler to its own.
pub mod Checks
pub mod Roots
pub mod Served
mod Tests
use external_crd.Prelude.{
  ℕ, ◌+◌, Bool, true, false, ◌||◌, Option, none, some, List, [], ◌∷◌, ◌++◌, ltb, leb, ◌&&◌,
  if◌then◌else◌,
}
use external_crd.Prelude.Text.{Text, codes, str_eq, is_empty}
use external_crd.Prelude.Maps.{Map, lookup, put}
use external_crd.Prelude.Int.{ℤ}
use external_crd.Prelude.Outcome.{
  Outcome, ok, err, panic, ApiError, other, Exec, pure, lift, then_do, ◌>>=◌,
}
use external_crd.Rest.Objects.{Rest}
use external_crd.Rest.Crud.{mapping}
use external_crd.Handler.Crd.{CrdFunctions}
use external_crd.Handler.State.{WebServices, Handler, overlay_group, overlay_version}
use external_crd.Handler.Events.{new_crd_handler, set_root_web_service}
use external_crd.Handler.Install.{GroupInfo, install_overlay_api_groups}
use external_crd.Utils.ApiResource.{ApiGroupResources}

-- strings.ToLower, for the ASCII names of resources
abbrev lower_byte : ℕ → ℕ
lower_byte c = if leb b'A' c && leb c b'Z' then c + 32 else c

unfoldable pub to_lower : Text → Text
to_lower [] = []
to_lower (c ∷ s) = lower_byte c ∷ to_lower s

-- genericapi.APIGroupVersion, less the codecs and registries that are passed on; the request timeout
-- is in seconds
pub record ApiGroupVersion : Type 0 where
  pub group_version : Text × Text
  pub options_external_version : Option (Text × Text)
  pub root : Text
  pub storage : Map Rest
  pub min_request_timeout : ℤ
  pub max_request_body_bytes : ℤ

-- metav1.APIGroup: each version with the group and version as one text
pub record ApiGroup : Type 0 where
  pub name : Text
  pub versions : List (Text × Text)
  pub preferred_version : Text × Text

-- What is called of the container of web services, for `C` that type, of `W` web services and `I`
-- resource infos: `install_rest` is InstallREST of an APIGroupVersion, `add_group_handler` adds the web
-- service of NewAPIGroupHandler, and `group_version_string` is String of a GroupVersion.
pub record Containers (W C I : Type 0) : Type 0 where
  pub registered : C → List W
  pub root_path : W → Text
  pub install_rest : ApiGroupVersion → Exec C (List I)
  pub add_group_handler : ApiGroup → C → C
  pub group_version_string : Text × Text → Text

-- OverlayAPIServer with what it changes of its GenericAPIServer. The container's web services and
-- the handler's are one object in the program; here the handler's is a copy.
pub record Server (W C I : Type 0) : Type 0 where
  pub container : C
  pub storage_versions : List I
  pub discovery_groups : List ApiGroup
  pub crd_handler : Handler W
  pub max_request_body_bytes : ℤ
  pub min_request_timeout : ℤ
  pub reserved_namespace : Text

-- genericapiserver.APIGroupPrefix
abbrev pub api_group_prefix : Text
api_group_prefix = codes "/apis"

abbrev or_none : Option (Map Rest) → Map Rest
or_none none = []
or_none (some m) = m

-- apiGroupInfo.VersionedResourcesStorageMap[groupVersion.Version], empty where it is missing
unfoldable pub storages_of : GroupInfo → Text × Text → Map Rest
storages_of info gv = or_none (lookup gv.1 info.storages)

abbrev pub is_nil {ℓ} : {A : Type ℓ} → List A → Bool
is_nil [] = true
is_nil (_ ∷ _) = false

-- The loop of `getAPIGroupVersion`: the storages under their names in lower case.
unfoldable pub lowered : Map Rest → Map Rest → Map Rest
lowered [] storage = storage
lowered ((k, v) ∷ rest) storage = lowered rest (put (to_lower k) v storage)

-- The loop at the start of `installAPIGroups`, for one group.
unfoldable pub check_group : GroupInfo → Outcome (Unit {0})
check_group info = elim info.prioritized_versions [
  | [] ↦ panic
  | gv ∷ _ ↦
      if is_empty gv.0
      then err (other (codes "cannot register handler with an empty group"))
      else if is_empty gv.1
      then err (other (codes "cannot register handler with an empty version"))
      else ok tt
]

unfoldable pub check_groups : List GroupInfo → Outcome (Unit {0})
check_groups [] = ok tt
check_groups (info ∷ rest) = let later = check_groups rest in then_do (check_group info) λ _. later

module _ {W C I : Type 0} (f : CrdFunctions) (w : WebServices W) (c : Containers W C I) where
  -- NewOverlayAPIServer, on the container of the generic server
  unfoldable pub new_overlay_api_server : C → ℤ → ℤ → Text → Server W C I
  new_overlay_api_server container max_request_body_bytes min_request_timeout reserved_namespace =
      record {
        container = container;
        storage_versions = [];
        discovery_groups = [];
        crd_handler = new_crd_handler f w reserved_namespace max_request_body_bytes;
        max_request_body_bytes = max_request_body_bytes;
        min_request_timeout = min_request_timeout;
        reserved_namespace = reserved_namespace;
      }

  -- newAPIGroupVersion, with the fields that its two callers set
  unfoldable pub api_group_version : Server W C I → GroupInfo → Text × Text → ApiGroupVersion
  api_group_version s info gv = record {
    group_version = gv;
    options_external_version = info.options_external_version;
    root = api_group_prefix;
    storage = lowered (storages_of info gv) [];
    min_request_timeout = s.min_request_timeout;
    max_request_body_bytes = s.max_request_body_bytes;
  }

  -- InstallREST on the container of the server.
  unfoldable pub install_version : GroupInfo → Text × Text → Exec (Server W C I) (List I)
  install_version info gv s =
      let (infos, container) = c.install_rest (api_group_version s info gv) s.container in
      (infos, record s { container = container })

  -- The loop of `installAPIResources`, which skips the versions without resources.
  unfoldable pub install_versions : GroupInfo → List (Text × Text) → Exec (Server W C I) (List I)
  install_versions info [] = pure []
  install_versions info (gv ∷ rest) =
      let later = install_versions info rest in
      if is_nil (storages_of info gv) then later else (do
        infos ← mapping (λ e. other (codes "unable to setup API")) (install_version info gv)
        more ← later
        pure (infos ++ more))

  unfoldable pub add_resource_infos : List I → Exec (Server W C I) (Unit {0})
  add_resource_infos infos s = (ok tt, record s { storage_versions = s.storage_versions ++ infos })

  -- installAPIResources
  unfoldable pub install_api_resources : GroupInfo → Exec (Server W C I) (Unit {0})
  install_api_resources info = do
    infos ← install_versions info info.prioritized_versions
    add_resource_infos infos

  -- SetRootWebService on the handler of the server.
  unfoldable pub set_root : W → Exec (Server W C I) Bool
  set_root ws s =
      let (r, h) = set_root_web_service f w s.crd_handler ws in (r, record s { crd_handler = h })

  abbrev pub is_overlay_root : W → Bool
  is_overlay_root ws = str_eq (c.root_path ws) (
      w.path_join (api_group_prefix ∷ c.group_version_string (overlay_group, overlay_version) ∷ []))

  -- The loop over the registered web services; its result is `found`.
  unfoldable pub set_roots : List W → Exec (Server W C I) Bool
  set_roots [] = pure false
  set_roots (ws ∷ rest) =
      let later = set_roots rest in
      if is_overlay_root ws then (do _ ← set_root ws; _ ← later; pure true) else later

  -- The versions of a group that discovery is given.
  unfoldable pub discovery_versions : GroupInfo → List (Text × Text) → List (Text × Text)
  discovery_versions info [] = []
  discovery_versions info (gv ∷ rest) =
      let later = discovery_versions info rest in
      if is_nil (storages_of info gv) then later else (c.group_version_string gv, gv.1) ∷ later

  unfoldable pub api_group : GroupInfo → Text × Text → ApiGroup
  api_group info gv = record {
    name = gv.0;
    versions = discovery_versions info info.prioritized_versions;
    preferred_version = (c.group_version_string gv, gv.1);
  }

  -- DiscoveryGroupManager.AddGroup and GoRestfulContainer.Add
  unfoldable pub add_group : ApiGroup → Exec (Server W C I) (Unit {0})
  add_group g s = (
    ok tt,
    record s {
      discovery_groups = s.discovery_groups ++ g ∷ [];
      container = c.add_group_handler g s.container;
    },
  )

  -- The root web service is looked for if the first version is the overlay's; if there is none, that
  -- is logged.
  unfoldable pub find_root : Text × Text → Exec (Server W C I) Bool
  find_root gv s =
      if str_eq (c.group_version_string gv)
        (c.group_version_string (overlay_group, overlay_version))
      then set_roots (c.registered s.container) s
      else (ok true, s)

  -- The body of the second loop of `installAPIGroups`.
  unfoldable pub install_group : GroupInfo → Exec (Server W C I) (Unit {0})
  install_group info = elim info.prioritized_versions [
    | [] ↦ (λ s. (panic, s))
    | gv ∷ _ ↦ do
      _ ←
          mapping (λ e. other (codes "unable to install api resources"))
            (install_api_resources info)
      _ ← find_root gv
      add_group (api_group info gv)
  ]

  unfoldable pub install_groups : List GroupInfo → Exec (Server W C I) (Unit {0})
  install_groups [] = pure tt
  install_groups (info ∷ rest) =
      let later = install_groups rest in install_group info >>= λ _. later

  -- installAPIGroups
  unfoldable pub install_api_groups : List GroupInfo → Exec (Server W C I) (Unit {0})
  install_api_groups infos = lift (check_groups infos) >>= λ _. install_groups infos

  -- The whole of `InstallOverlayAPIGroups`, for what discovery gives.
  unfoldable pub install_overlay :
      (Text → Text → ℤ)
      → Option (Text × Text)
      → Outcome (List ApiGroupResources)
      → Exec (Server W C I) (Unit {0})
  install_overlay compare options discovered s =
      (lift (install_overlay_api_groups compare s.reserved_namespace options discovered) >>= λ info.
      install_api_groups (info ∷ []))
        s
