-- ===== src/Rest/Crud/ReadWrite.antt =====
-- What a client reads back after a write.
use external_crd.Prelude.{◌≡◌, refl, sym, ◌∙◌, ap, true, Option, some, arith}
use external_crd.Prelude.Text.{Text, is_empty}
use external_crd.Prelude.Outcome.{
  already_exists, Outcome, ok, err, lift, reads, ◌>>=◌, bind-eq-ok, checked, checked_ext,
}
use external_crd.Rest.User.{Context, get_user}
use external_crd.Rest.Objects.{
  Rest, Machinery, MachineryLaws, Backend, RuntimeObject, KubernetesCrd,
}
use external_crd.Rest.Manifest.{copy_metadata, transform_manifest}
use external_crd.Rest.Manifest.Identity.{copy_metadata-keeps, transform_manifest_lem}
use external_crd.Rest.DryRun.{moves_namespace, dry_run_create}
use external_crd.Rest.DryRun.Laws.{dry_run_create_restored, restore_identity}
use external_crd.Rest.Crud.{
  group_resource, create_error, delete_error, map_error-eq-ok, mapping, created_manifest,
  store_created, create, manifest_name, get, delete,
}
use external_crd.Rest.Crud.Store.{CreateLaws, IsSynced}

module _ {S U O : Type 0} (k : Machinery U) (b : Backend S U O)
    (stored : S → Text → Text → Option (KubernetesCrd U)) (machinery : MachineryLaws k)
    (store : CreateLaws k b stored) (r : Rest) (ctx : Context) where
  -- How a create succeeds: the caller's cluster, the object of the dry run, the manifest saved.
  pub record IsCreated (obj : RuntimeObject U) (options : O) (s : S) (u : U) (s' : S) : Type 0 where
    pub cluster : Text
    pub actual : U
    pub saved : KubernetesCrd U
    pub caller : get_user ctx ≡ ok cluster
    pub answered : dry_run_create k b r ctx obj options s ≡ ok actual
    pub wrote :
        b.create r.reserved_namespace
          (created_manifest k b r ctx cluster actual)
          b.default_options
          s
        ≡ (ok saved, s')
    pub returned : transform_manifest k saved ≡ ok u

  stored-IsCreated :
      (obj : RuntimeObject U) (options : O) (s s' : S) (u : U) (cluster : Text) (actual : U)
      → get_user ctx ≡ ok cluster
      → dry_run_create k b r ctx obj options s ≡ ok actual
      → store_created k b r ctx cluster actual s ≡ (ok u, s')
      → IsCreated obj options s u s'
  unfolding store_created
  stored-IsCreated obj options s s' u cluster actual caller answered h =
      let e = create_error r (k.get_name actual) in
      let m =
        b.create r.reserved_namespace (created_manifest k b r ctx cluster actual)
          b.default_options in
      let (saved, wrote, rest) =
        bind-eq-ok (mapping e m) (λ saved. lift (transform_manifest k saved)) s h in
      let done = map_error-eq-ok e (m s).0 saved wrote in
      record {
        cluster = cluster;
        actual = actual;
        saved = saved;
        caller = caller;
        answered = answered;
        wrote = ground arith;
        returned = ap (λ x. x.0) rest;
      }

  pub create-IsCreated :
      (obj : RuntimeObject U) (v : Option (U → Outcome (Unit {0}))) (options : O) (s s' : S) (u : U)
      → create k b r ctx obj v options s ≡ (ok u, s')
      → IsCreated obj options s u s'
  unfolding create
  create-IsCreated obj v options s s' u h =
      let d = dry_run_create k b r ctx obj options in
      let store = store_created k b r ctx in
      let (cluster, caller, h1) =
        bind-eq-ok (lift (get_user ctx)) (λ c. reads d >>= λ a. store c a) s h in
      let (actual, answered, h2) = bind-eq-ok (reads d) (λ a. store cluster a) s h1 in
      stored-IsCreated obj options s s' u cluster actual caller answered h2

  module _ {obj : RuntimeObject U} {options : O} {s s' : S} {u : U}
      (c : IsCreated obj options s u s') where
    open c use {cluster, actual, saved, caller, answered, wrote, returned}

    pub returned_object : u ≡ copy_metadata k saved actual
    returned_object =
        let encoded =
          store.create_encodes r.reserved_namespace (created_manifest k b r ctx cluster actual)
            saved s s' actual wrote stored_object in
        cc (sym returned ∙ transform_manifest_lem k machinery saved actual encoded)
      where
        stored_object : (created_manifest k b r ctx cluster actual).manifest.object ≡ some actual
        stored_object = unfold created_manifest in refl

    same_name : k.get_name u ≡ k.get_name actual
    same_name = rw returned_object ((copy_metadata-keeps k machinery saved actual).0)

    pub in_namespace : moves_namespace r ≡ true → k.get_namespace actual ≡ ctx.namespace
    in_namespace moves =
        let (q, answer, _, _, restored, _) =
          dry_run_create_restored k b r ctx obj options s actual answered in
        rw restored ((restore_identity k b r ctx machinery answer moves).1)

    pub stored_name :
        moves_namespace r ≡ true
        → (created_manifest k b r ctx cluster actual).meta.name
          ≡ manifest_name k b r ctx cluster (k.get_name u)
    unfolding created_manifest
    stored_name moves = rw (in_namespace moves, same_name)

  -- An object that `Create` returns for a namespaced resource that is not of kind Namespace is
  -- what `Get` returns by its name to the same caller without a resource version, once the lister
  -- has caught up, given the documented behaviour of the accessors and of the server.
  pub get-create :
      (obj : RuntimeObject U) (v : Option (U → Outcome (Unit {0}))) (options read_options : O)
      (s s' : S) (u : U)
      → moves_namespace r ≡ true
      → create k b r ctx obj v options s ≡ (ok u, s')
      → IsSynced k b stored s'
      → is_empty (b.resource_version_of read_options) ≡ true
      → get k b r ctx (k.get_name u) read_options s' ≡ ok u
  unfolding get
  get-create obj v options read_options s s' u moves h synced latest =
      let c = create-IsCreated obj v options s s' u h in
      let at = store.create_stores r.reserved_namespace _ c.saved s s' c.wrote in
      let read = synced.present r.reserved_namespace _ c.saved at in
      rw (c.caller, latest, ← stored_name c moves, read) (c.returned)

  -- If the manifest of the object that the dry run gives is already stored, then `Create` by a
  -- caller whom `getUser` lets through answers AlreadyExists, with the resource and the name of
  -- the object instead of the manifest's, and changes nothing, given the documented behaviour of
  -- the server.
  pub create-taken :
      (obj : RuntimeObject U) (v : Option (U → Outcome (Unit {0}))) (options : O) (s : S)
      (cluster : Text) (actual : U) (old : KubernetesCrd U)
      → get_user ctx ≡ ok cluster
      → dry_run_create k b r ctx obj options s ≡ ok actual
      → stored s r.reserved_namespace (created_manifest k b r ctx cluster actual).meta.name
        ≡ some old
      → create k b r ctx obj v options s
        ≡ (err (already_exists (group_resource r) (k.get_name actual)), s)
  unfolding create store_created
  create-taken obj v options s cluster actual old caller answered taken =
      let crd = created_manifest k b r ctx cluster actual in
      let (g, refused) = store.create_taken r.reserved_namespace crd old s taken in
      rw (caller, answered, refused)

module _ {S U O : Type 0} (k : Machinery U) (b : Backend S U O) (r : Rest) (ctx : Context) where
  -- With two options for which the dry run ends alike, `Create` ends alike: the options of a
  -- create reach the server only through the dry run.
  pub create_ignores_options :
      (obj : RuntimeObject U) (v : Option (U → Outcome (Unit {0}))) (options options' : O) (s : S)
      → dry_run_create k b r ctx obj options s ≡ dry_run_create k b r ctx obj options' s
      → create k b r ctx obj v options s ≡ create k b r ctx obj v options' s
  unfolding create
  create_ignores_options obj v options options' s same =
      let run = λ (o : O) (c : Text).
        reads (dry_run_create k b r ctx obj o) >>= store_created k b r ctx c in
      checked_ext (get_user ctx) (run options) (run options') s λ cluster. rw same

  -- How a delete succeeds.
  pub delete-lem :
      (name : Text) (v : Option (U → Outcome (Unit {0}))) (options : O) (s : S)
      → (delete k b r ctx name v options s).0 ≡ ok tt
      → (cluster : Text) × (get_user ctx ≡ ok cluster)
        × ((delete k b r ctx name v options s).1
            ≡ (b.delete r.reserved_namespace (manifest_name k b r ctx cluster name) options s).1)
        × ((b.delete r.reserved_namespace (manifest_name k b r ctx cluster name) options s).0
            ≡ ok tt)
  unfolding delete
  delete-lem name v options s h =
      let e = delete_error r name in
      let call =
        λ (c : Text). b.delete r.reserved_namespace (manifest_name k b r ctx c name) options in
      let (cluster, caller, same) = checked (get_user ctx) (λ c. mapping e (call c)) s tt h in
      (
        cluster,
        caller,
        ap (λ x. x.1) same,
        map_error-eq-ok e (call cluster s).0 tt (sym (ap (λ x. x.0) same) ∙ h),
      )
