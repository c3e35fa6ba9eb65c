-- ===== src/Handler/Groups/Served.antt =====
-- When the definitions of the cluster are served: `InstallOverlayAPIGroups` of apiserver.go gives the CRD
-- handler a root web service only if there is a storage of namespaces, for which one is made.
use external_crd.Prelude.{
  ◌≡◌, refl, sym, ap, ◌∙◌, ◌⊎◌, inl, inr, Bool, true, false, Option, Option-cases, none, some, List,
  [], ◌∷◌, ◌++◌, arith,
}
use mathlib.Core.Path.{subst}
use external_crd.Prelude.Text.{Text, codes, str_eq, is_empty}
use external_crd.Prelude.Text.Laws.{str_eq_refl}
use external_crd.Prelude.Maps.{lookup}
use external_crd.Prelude.Int.{ℤ}
use external_crd.Prelude.Outcome.{ok, eq-pair, bind-eq-ok, pure}
use external_crd.Rest.Crud.{mapping, map_error-eq-ok}
use external_crd.Handler.Crd.{CrdFunctions}
use external_crd.Handler.Discovery.{ApiResource}
use external_crd.Handler.State.{WebServices, Handler, is_some}
use external_crd.Handler.Install.{
  GroupInfo, namespaces_resource, namespaces_resource_found, namespaces_resource-has_namespaces,
  has_namespaces, overlay_group_info, install_overlay_api_groups,
}
use external_crd.Handler.Groups.{
  Containers, Server, is_nil, storages_of, check_group, check_groups, api_group_version,
  install_version, install_versions, add_resource_infos, install_api_resources, is_overlay_root,
  set_roots, discovery_versions, api_group, add_group, find_root, install_group, install_groups,
  install_api_groups, install_overlay,
}
use external_crd.Handler.Groups.Roots.{
  ContainerLaws, HasNoRoot, set_roots_none, set_roots_last, overlay, IsInstalled,
}
use external_crd.Utils.ApiResource.{ApiGroupResources}

module _ {W C I : Type 0} (f : CrdFunctions) (w : WebServices W) (c : Containers W C I) where
  module _ (reserved : Text) (options : Option (Text × Text)) where
    no_storages : storages_of (overlay_group_info reserved options none) (overlay f w c) ≡ []
    unfolding storages_of overlay_group_info lookup codes str_eq
    no_storages = refl

    has_storages :
        (a : ApiResource)
        → is_nil (storages_of (overlay_group_info reserved options (some a)) (overlay f w c))
          ≡ false
    unfolding storages_of overlay_group_info lookup codes str_eq
    has_storages a = refl

    one_version :
        (o : Option ApiResource)
        → (overlay_group_info reserved options o).prioritized_versions ≡ (overlay f w c) ∷ []
    unfolding overlay_group_info
    one_version o = refl

    IsInstalled-none :
        (s : Server W C I)
        → HasNoRoot f w c s
        → s.crd_handler.ws ≡ none
        → IsInstalled f w c false s
            (install_group f w c (overlay_group_info reserved options none) s).1
    unfolding install_group install_api_resources install_versions add_resource_infos find_root
        api_group discovery_versions add_group storages_of overlay_group_info lookup codes str_eq
    IsInstalled-none s h fresh =
        let s1 : Server W C I = record s { storage_versions = s.storage_versions ++ [] } in
        let skipped = set_roots_none f w c (c.registered s.container) s1 h in
        rw (str_eq_refl (c.group_version_string (overlay f w c)), skipped)
          (record { rooted = rw fresh refl; discovered = refl })

    -- The container has taken the version, if the group is installed.
    taken :
        (a : ApiResource) (s t : Server W C I)
        → install_group f w c (overlay_group_info reserved options (some a)) s ≡ (ok tt, t)
        → (infos : List I) × ((c.install_rest
              (api_group_version f w c s
                (overlay_group_info reserved options (some a))
                (overlay f w c))
              s.container).0
            ≡ ok infos)
    unfolding install_group install_api_resources install_versions install_version storages_of
        overlay_group_info lookup codes str_eq
    taken a s t h =
        let info = overlay_group_info reserved options (some a) in
        let (u, h1, _) = bind-eq-ok (mapping _ (install_api_resources f w c info)) _ s h in
        let h2 = eq-pair _ _ (map_error-eq-ok _ (install_api_resources f w c info s).0 u h1) in
        let (infos, h3, _) =
          bind-eq-ok (install_versions f w c info ((overlay f w c) ∷ [])) _ s h2 in
        let h4 = eq-pair (install_versions f w c info ((overlay f w c) ∷ []) s) (ok infos) h3 in
        let (r, h5, _) =
          bind-eq-ok (mapping _ (install_version f w c info (overlay f w c))) _ s h4 in
        (r, map_error-eq-ok _ _ r h5)

    root_found :
        (info : GroupInfo) (s : Server W C I) (ws : W)
        → c.root_path ws
          ≡ w.path_join (
              (api_group_version f w c s info (overlay f w c)).root
              ∷ c.group_version_string
                  (api_group_version f w c s info (overlay f w c)).group_version
              ∷ [])
        → is_overlay_root f w c ws ≡ true
    unfolding api_group_version
    root_found info s ws path = rw path (str_eq_refl _)

    IsInstalled-rooted :
        (a : ApiResource) (s : Server W C I) (infos : List I) (handler : Handler W) (after : C)
        → c.install_rest
            (api_group_version f w c s
              (overlay_group_info reserved options (some a))
              (overlay f w c))
            s.container
          ≡ (ok infos, after)
        → set_roots f w c
            (c.registered after)
            (record s { container = after; storage_versions = s.storage_versions ++ (infos ++ []) })
          ≡ (
            ok true,
            record s {
              container = after;
              storage_versions = s.storage_versions ++ (infos ++ []);
              crd_handler = handler;
            },
          )
        → is_some handler.ws ≡ true
        → IsInstalled f w c true s
            (install_group f w c (overlay_group_info reserved options (some a)) s).1
    unfolding install_group install_api_resources install_versions install_version
        add_resource_infos find_root api_group discovery_versions add_group storages_of
        overlay_group_info lookup codes str_eq
    IsInstalled-rooted a s infos handler after took run there =
        rw (took, str_eq_refl (c.group_version_string (overlay f w c)), run)
          (record { rooted = there; discovered = refl })

    IsInstalled-some :
        (a : ApiResource) (s t : Server W C I)
        → ContainerLaws f w c
        → HasNoRoot f w c s
        → s.crd_handler.ws ≡ none
        → install_group f w c (overlay_group_info reserved options (some a)) s ≡ (ok tt, t)
        → IsInstalled f w c true s t
    IsInstalled-some a s t laws h fresh e =
        let info = overlay_group_info reserved options (some a) in
        let v = api_group_version f w c s info (overlay f w c) in
        let (infos, took) = taken a s t e in
        let after = (c.install_rest v s.container).1 in
        let both = eq-pair (c.install_rest v s.container) (ok infos) took in
        let (ws, registered, path) = laws.registers v s.container after infos both in
        let (handler, run, there) =
          set_roots_last f w c (c.registered s.container) ws
            (record s { container = after; storage_versions = s.storage_versions ++ (infos ++ []) })
            h (root_found info s ws path) fresh in
        subst (IsInstalled f w c true s) (ap (λ x. x.1) e)
          (IsInstalled-rooted a s infos handler after both (rw registered run) there)

    IsInstalled-found :
        (o : Option ApiResource) (served : Bool) (s t : Server W C I)
        → ContainerLaws f w c
        → HasNoRoot f w c s
        → s.crd_handler.ws ≡ none
        → ((o ≡ none) × (served ≡ false)) ⊎ ((a : ApiResource) × (o ≡ some a) × (served ≡ true))
        → install_group f w c (overlay_group_info reserved options o) s ≡ (ok tt, t)
        → IsInstalled f w c served s t
    IsInstalled-found none served s t laws h fresh (inl (_, unserved)) e =
        rw unserved
          (subst (IsInstalled f w c false s) (ap (λ x. x.1) e) (IsInstalled-none s h fresh))
    IsInstalled-found (some a) served s t laws h fresh (inr (_, _, is_served)) e =
        rw is_served (IsInstalled-some a s t laws h fresh e)
    IsInstalled-found none served s t laws h fresh (inr (a, there, _)) e = absurd (ground arith)
    IsInstalled-found (some a) served s t laws h fresh (inl (gone, _)) e = absurd (ground arith)

  found_cases :
      (compare : Text → Text → ℤ) (groups : List ApiGroupResources)
      → ((namespaces_resource compare groups ≡ none) × (has_namespaces groups ≡ false))
        ⊎ ((a : ApiResource) × (namespaces_resource compare groups ≡ some a)
            × (has_namespaces groups ≡ true))
  found_cases compare groups =
      let agree = namespaces_resource-has_namespaces compare groups in
      elim (Option-cases (namespaces_resource compare groups)) [
        | inl gone ↦ inl (gone, sym agree ∙ rw gone refl)
        | inr (a, there) ↦
            inr (a, there, sym agree ∙ rw there (namespaces_resource_found compare groups a there))
      ]

  -- If `InstallOverlayAPIGroups` ends without an error, for a handler without a root web service
  -- and a container without one at the path of the overlay's version, then the CRD handler has a
  -- root web service exactly if a version of the core group has the resource "namespaces", and
  -- discovery gets one group more, the overlay's, which lists its version in that case and none
  -- otherwise, given that InstallREST registers one web service at the path of the version.
  pub install_overlay_serves :
      (compare : Text → Text → ℤ) (options : Option (Text × Text)) (groups : List ApiGroupResources)
      (s t : Server W C I)
      → ContainerLaws f w c
      → HasNoRoot f w c s
      → s.crd_handler.ws ≡ none
      → install_overlay f w c compare options (ok groups) s ≡ (ok tt, t)
      → IsInstalled f w c (has_namespaces groups) s t
  unfolding install_overlay install_overlay_api_groups install_api_groups check_groups check_group
      install_groups codes is_empty overlay_group_info
  install_overlay_serves compare options groups s t laws h fresh e =
      let found = namespaces_resource compare groups in
      let (u, done, rest) =
        bind-eq-ok (install_group f w c (overlay_group_info s.reserved_namespace options found))
          (λ _. pure tt) s e in
      IsInstalled-found s.reserved_namespace options found (has_namespaces groups) s t laws h fresh
        (found_cases compare groups) (eq-pair _ _ done ∙ rest)
