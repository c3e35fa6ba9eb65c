-- ===== src/Rest/Crud/Store.antt =====
-- What the handlers rely on of the API server that stores the manifests.
use external_crd.Prelude.{◌≡◌, ◌≢◌, Bool, true, false, Option, none, some, []}
use external_crd.Prelude.Text.{Text}
use external_crd.Prelude.Outcome.{GroupResource, ok, err, not_found, already_exists}
use external_crd.Rest.Objects.{Machinery, Backend, KubernetesCrd}

module _ {S U O : Type 0} (k : Machinery U) (b : Backend S U O) where
  -- `stored` shows the manifests by namespace and name. Each verb writes only the manifest that it
  -- names, and the lister gives the manifest of the name that it is asked for.
  pub record FrameLaws (stored : S → Text → Text → Option (KubernetesCrd U)) : Type 0 where
    pub create_frame :
        (ns : Text) (crd : KubernetesCrd U) (o : O) (s : S) (n : Text)
        → n ≢ crd.meta.name
        → stored (b.create ns crd o s).1 ns n ≡ stored s ns n
    pub update_frame :
        (ns : Text) (crd : KubernetesCrd U) (o : O) (s : S) (n : Text)
        → n ≢ crd.meta.name
        → stored (b.update ns crd o s).1 ns n ≡ stored s ns n
    pub delete_frame :
        (ns name : Text) (o : O) (s : S) (n : Text)
        → n ≢ name
        → stored (b.delete ns name o s).1 ns n ≡ stored s ns n
    pub lister_name :
        (ns name : Text) (s : S) (crd : KubernetesCrd U)
        → b.lister_get ns name s ≡ ok crd
        → crd.meta.name ≡ name

  -- A create with empty options fails on a name that is taken, and otherwise stores the manifest that
  -- it returns, with the labels that it was given and with the object as JSON.
  pub record CreateLaws (stored : S → Text → Text → Option (KubernetesCrd U)) : Type 0 where
    pub create_taken :
        (ns : Text) (crd old : KubernetesCrd U) (s : S)
        → stored s ns crd.meta.name ≡ some old
        → (g : GroupResource) × (b.create ns crd b.default_options s
            ≡ (err (already_exists g crd.meta.name), s))
    pub create_stores :
        (ns : Text) (crd saved : KubernetesCrd U) (s s' : S)
        → b.create ns crd b.default_options s ≡ (ok saved, s')
        → stored s' ns crd.meta.name ≡ some saved
    pub create_encodes :
        (ns : Text) (crd saved : KubernetesCrd U) (s s' : S) (u : U)
        → b.create ns crd b.default_options s ≡ (ok saved, s')
        → crd.manifest.object ≡ some u
        → k.unmarshal saved.manifest.raw ≡ ok u
    pub create_labelled :
        (ns : Text) (crd saved : KubernetesCrd U) (s s' : S)
        → b.create ns crd b.default_options s ≡ (ok saved, s')
        → saved.meta.labels ≡ crd.meta.labels

  -- An update of a name that nothing has fails; one that succeeds answers with the manifest with the
  -- labels that it was given and the object as JSON. With options that ask for a dry run it stores nothing,
  -- and otherwise it stores that manifest in place of one that is not being deleted.
  pub record UpdateLaws (stored : S → Text → Text → Option (KubernetesCrd U)) : Type 0 where
    pub is_dry_run : O → Bool
    pub update_stores :
        (ns : Text) (crd old saved : KubernetesCrd U) (o : O) (s s' : S)
        → is_dry_run o ≡ false
        → stored s ns crd.meta.name ≡ some old
        → old.meta.deletion_timestamp ≡ none
        → b.update ns crd o s ≡ (ok saved, s')
        → stored s' ns crd.meta.name ≡ some saved
    pub update_dry_run :
        (ns : Text) (crd : KubernetesCrd U) (o : O) (s : S) (n : Text)
        → is_dry_run o ≡ true
        → stored (b.update ns crd o s).1 ns n ≡ stored s ns n
    pub update_present :
        (ns : Text) (crd saved : KubernetesCrd U) (o : O) (s s' : S)
        → b.update ns crd o s ≡ (ok saved, s')
        → stored s ns crd.meta.name ≢ none
    pub update_encodes :
        (ns : Text) (crd saved : KubernetesCrd U) (o : O) (s s' : S) (u : U)
        → b.update ns crd o s ≡ (ok saved, s')
        → crd.manifest.object ≡ some u
        → k.unmarshal saved.manifest.raw ≡ ok u
    pub update_labelled :
        (ns : Text) (crd saved : KubernetesCrd U) (o : O) (s s' : S)
        → b.update ns crd o s ≡ (ok saved, s')
        → saved.meta.labels ≡ crd.meta.labels

  -- A delete of a name that nothing has fails. With options that ask neither for a dry run
  -- nor for a propagation by finalizers, one that succeeds removes a manifest without finalizers.
  pub record DeleteLaws (stored : S → Text → Text → Option (KubernetesCrd U)) : Type 0 where
    pub is_at_once : O → Bool
    pub delete_present :
        (ns name : Text) (o : O) (s : S)
        → (b.delete ns name o s).0 ≡ ok tt
        → stored s ns name ≢ none
    pub delete_removes :
        (ns name : Text) (o : O) (s : S) (crd : KubernetesCrd U)
        → is_at_once o ≡ true
        → stored s ns name ≡ some crd
        → crd.meta.finalizers ≡ []
        → (b.delete ns name o s).0 ≡ ok tt
        → stored (b.delete ns name o s).1 ns name ≡ none

  -- The lister's cache has caught up with the store.
  pub record IsSynced (stored : S → Text → Text → Option (KubernetesCrd U)) (s : S) : Type 0 where
    pub present :
        (ns name : Text) (crd : KubernetesCrd U)
        → stored s ns name ≡ some crd
        → b.lister_get ns name s ≡ ok crd
    pub absent :
        (ns name : Text)
        → stored s ns name ≡ none
        → (g : GroupResource) × (b.lister_get ns name s ≡ err (not_found g name))
