-- ===== src/Rest/Crud/Rewrite.antt =====
-- What a client of rest.go reads back after an update.
use external_crd.Prelude.{◌≡◌, refl, sym, ◌∙◌, ap, true, false, none, some, Option}
use external_crd.Prelude.Text.{Text, is_empty}
use external_crd.Prelude.Outcome.{Outcome, ok, ok_injective, bind-eq-ok, lift, reads, ◌>>=◌}
use external_crd.Rest.User.{Context, get_user}
use external_crd.Rest.Objects.{KubernetesCrd, Rest, RuntimeObject, Machinery, Backend}
use external_crd.Rest.Manifest.{trim_result, transform_manifest}
use external_crd.Rest.Crud.{
  read_error, map_error-eq-ok, manifest_name, current_manifest, updated_result, updated_manifest,
  save_update, get,
}
use external_crd.Rest.Crud.Store.{FrameLaws, UpdateLaws, IsSynced}

module _ {S U O : Type 0} (k : Machinery U) (b : Backend S U O)
    (stored : S → Text → Text → Option (KubernetesCrd U)) (frames : FrameLaws k b stored) (r : Rest)
    (ctx : Context) where
  -- How an update saves: the caller's cluster, the manifest of the lister, the new object.
  pub record IsSaved (name : Text) (f : U → Outcome (RuntimeObject U))
      (v : Option (RuntimeObject U → U → Outcome (Unit {0}))) (options : O) (s : S)
      (saved : KubernetesCrd U) (s' : S) : Type 0 where
    pub cluster : Text
    pub manifest : KubernetesCrd U
    pub new : U
    pub caller : get_user ctx ≡ ok cluster
    pub listed :
        b.lister_get r.reserved_namespace (manifest_name k b r ctx cluster name) s ≡ ok manifest
    pub made : updated_result k b r ctx f v manifest ≡ ok new
    pub same_name : manifest.meta.name ≡ manifest_name k b r ctx cluster name
    pub wrote :
        b.update r.reserved_namespace
          (updated_manifest k b r ctx cluster (trim_result k new) manifest)
          options
          s
        ≡ (ok saved, s')

  pub save_update-IsSaved :
      (name : Text) (f : U → Outcome (RuntimeObject U))
      (v : Option (RuntimeObject U → U → Outcome (Unit {0}))) (options : O) (s s' : S)
      (saved : KubernetesCrd U)
      → save_update k b r ctx name f v options s ≡ (ok saved, s')
      → IsSaved name f v options s saved s'
  unfolding save_update
  save_update-IsSaved name f v options s s' saved h =
      let send = λ (c : Text) (m : KubernetesCrd U) (u : U).
        b.update r.reserved_namespace (updated_manifest k b r ctx c (trim_result k u) m) options in
      let make =
        λ (c : Text) (m : KubernetesCrd U). lift (updated_result k b r ctx f v m) >>= send c m in
      let (cluster, caller, h1) =
        bind-eq-ok (lift (get_user ctx)) (λ c. reads (current_manifest k b r ctx c name) >>= make c)
          s h in
      let (m, listed, h2) =
        bind-eq-ok (reads (current_manifest k b r ctx cluster name)) (make cluster) s h1 in
      let (u, made, h3) =
        bind-eq-ok (lift (updated_result k b r ctx f v m)) (send cluster m) s h2 in
      record {
        cluster = cluster;
        manifest = m;
        new = u;
        caller = caller;
        listed = map_error-eq-ok (read_error r name) _ m listed;
        made = made;
        same_name =
            frames.lister_name r.reserved_namespace (manifest_name k b r ctx cluster name) s m
              (map_error-eq-ok (read_error r name) _ m listed);
        wrote = h3;
      }

  -- If `Update`, for a caller whom `getUser` lets through for a cluster and with options that do
  -- not ask for a dry run, saves a manifest in place of one that is not being deleted, then `Get`
  -- of the name of the update by the same caller without a resource version returns what
  -- `transformManifest` makes of that manifest, once the lister has caught up, given the
  -- documented behaviour of the server.
  pub get-save_update :
      (store : UpdateLaws k b stored) (name : Text) (f : U → Outcome (RuntimeObject U))
      (v : Option (RuntimeObject U → U → Outcome (Unit {0}))) (options read_options : O) (s s' : S)
      (old saved : KubernetesCrd U) (cluster : Text)
      → store.is_dry_run options ≡ false
      → get_user ctx ≡ ok cluster
      → stored s r.reserved_namespace (manifest_name k b r ctx cluster name) ≡ some old
      → old.meta.deletion_timestamp ≡ none
      → save_update k b r ctx name f v options s ≡ (ok saved, s')
      → IsSynced k b stored s'
      → is_empty (b.resource_version_of read_options) ≡ true
      → get k b r ctx name read_options s' ≡ transform_manifest k saved
  unfolding get updated_manifest
  get-save_update store name f v options read_options s s' old saved cluster real caller there alive
        h synced latest =
      let c = save_update-IsSaved name f v options s s' saved h in
      let named =
        c.same_name
        ∙ ap (λ x. manifest_name k b r ctx x name) (ok_injective (sym c.caller ∙ caller)) in
      let at =
        store.update_stores r.reserved_namespace _ old saved options s s' real (rw (named) there)
          alive c.wrote in
      let read = synced.present r.reserved_namespace _ saved at in
      rw (c.caller, latest, ← c.same_name, read) refl
