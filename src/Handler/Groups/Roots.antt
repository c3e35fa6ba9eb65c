-- ===== src/Handler/Groups/Roots.antt =====
-- The web service of the overlay among those of the container, for `installAPIGroups` of apiserver.go.
use external_crd.Prelude.{
  ◌≡◌, refl, Bool, true, false, none, List, [], ◌∷◌, ◌++◌, All, if◌then◌else◌,
}
use external_crd.Prelude.Text.{Text}
use external_crd.Prelude.Outcome.{ok}
use external_crd.Handler.Crd.{CrdFunctions}
use external_crd.Handler.State.{WebServices, Handler, is_some, overlay_group, overlay_version}
use external_crd.Handler.Events.{set_root_web_service}
use external_crd.Handler.Groups.{
  Containers, Server, ApiGroupVersion, ApiGroup, set_root, is_overlay_root, set_roots,
}

module _ {W C I : Type 0} (f : CrdFunctions) (w : WebServices W) (c : Containers W C I) where
  -- What InstallREST documents: it registers one web service, at the path of the group version.
  pub record ContainerLaws : Type 0 where
    pub registers :
        (v : ApiGroupVersion) (before after : C) (infos : List I)
        → c.install_rest v before ≡ (ok infos, after)
        → (ws : W) × (c.registered after ≡ c.registered before ++ ws ∷ [])
          × (c.root_path ws ≡ w.path_join (v.root ∷ c.group_version_string v.group_version ∷ []))

  -- No web service is at the path of the overlay's group version.
  abbrev pub HasNoRoot : Server W C I → Type 0
  HasNoRoot s = All (λ ws. is_overlay_root f w c ws ≡ false) (c.registered s.container)

  pub set_roots_none :
      (l : List W) (s : Server W C I)
      → All (λ ws. is_overlay_root f w c ws ≡ false) l
      → set_roots f w c l s ≡ (ok false, s)
  unfolding set_roots
  set_roots_none [] s h = refl
  set_roots_none (ws ∷ l) s h = rw (h.0) (set_roots_none l s h.1)

  -- The handler gets the first web service at the path.
  pub set_roots_last :
      (l : List W) (ws : W) (s : Server W C I)
      → All (λ ws. is_overlay_root f w c ws ≡ false) l
      → is_overlay_root f w c ws ≡ true
      → s.crd_handler.ws ≡ none
      → (h : Handler W) × (set_roots f w c (l ++ ws ∷ []) s
          ≡ (ok true, record s { crd_handler = h }))
        × (is_some h.ws ≡ true)
  unfolding set_roots set_root set_root_web_service
  set_roots_last [] ws s h root fresh =
      ((set_root_web_service f w s.crd_handler ws).1, rw (root, fresh) refl, rw (fresh) refl)
  set_roots_last (x ∷ l) ws s h root fresh =
      let (handler, run, there) = set_roots_last l ws s h.1 root fresh in
      (handler, rw (h.0) run, there)

  abbrev pub overlay : Text × Text
  overlay = (overlay_group, overlay_version)

  -- The group that discovery is given.
  abbrev pub overlay_api_group : Bool → ApiGroup
  overlay_api_group served = record {
    name = overlay_group;
    versions = if served then (c.group_version_string overlay, overlay_version) ∷ [] else [];
    preferred_version = (c.group_version_string overlay, overlay_version);
  }

  -- What `InstallOverlayAPIGroups` leaves, by whether the definitions are served.
  pub record IsInstalled (served : Bool) (s t : Server W C I) : Type 0 where
    pub rooted : is_some t.crd_handler.ws ≡ served
    pub discovered : t.discovery_groups ≡ s.discovery_groups ++ overlay_api_group served ∷ []
