-- ===== src/Rest/Crud/Labelled.antt =====
-- The labels of the manifests that `Create` and `Update` of rest.go leave at the server.
use external_crd.Prelude.{◌≡◌, sym, ◌∙◌, ap, ◌≢◌, true, false, Option, none, some}
use mathlib.Core.Path.{subst}
use external_crd.Prelude.Text.{Text, codes}
use external_crd.Prelude.Maps.{lookup}
use external_crd.Prelude.Outcome.{Outcome, ok, ok_injective}
use external_crd.Rest.User.{Context, get_user}
use external_crd.Rest.Objects.{
  Rest, Machinery, MachineryLaws, Backend, RuntimeObject, KubernetesCrd,
}
use external_crd.Rest.Manifest.{or_empty, create_labels, update_labels, trim_result}
use external_crd.Rest.Manifest.Identity.{copy_metadata-keeps, trim_result-keeps}
use external_crd.Rest.Manifest.Labels.{
  IsLabelled, create_labels-IsLabelled, update_labels-IsLabelled, IsUsers, create_labels_users,
  update_labels_stale,
}
use external_crd.Rest.DryRun.{moves_namespace}
use external_crd.Rest.Crud.{
  created_manifest, create, manifest_name, updated_result, updated_manifest, save_update,
}
use external_crd.Rest.Crud.Store.{FrameLaws, CreateLaws, UpdateLaws}
use external_crd.Rest.Crud.ReadWrite.{
  IsCreated, create-IsCreated, returned_object, in_namespace, stored_name,
}
use external_crd.Rest.Crud.Rewrite.{IsSaved, save_update-IsSaved}

module _ {S U O : Type 0} (k : Machinery U) (b : Backend S U O)
    (stored : S → Text → Text → Option (KubernetesCrd U)) (machinery : MachineryLaws k)
    (store : CreateLaws k b stored) (r : Rest) (ctx : Context) where
  created_labels :
      {obj : RuntimeObject U} {o : O} {s s' : S} {u : U}
      (c : IsCreated k b stored machinery store r ctx obj o s u s')
      → moves_namespace r ≡ true
      → or_empty c.saved.meta.labels
        ≡ create_labels r c.cluster (k.get_name u) ctx.namespace (k.get_labels u)
  unfolding created_manifest
  created_labels {s} {s'} {u} c moves =
      let (same_name, _, same_labels) = copy_metadata-keeps k machinery c.saved c.actual in
      let returned = returned_object k b stored machinery store r ctx c in
      ap or_empty (
        store.create_labelled r.reserved_namespace (created_manifest k b r ctx c.cluster c.actual)
          c.saved s s' c.wrote)
      ∙ rw (returned, same_name, same_labels, in_namespace k b stored machinery store r ctx c moves)

  -- For a namespaced resource that is not of kind Namespace: when `Create` has returned an object,
  -- then `getUser` lets the caller through for a cluster, and the server has under the manifest's
  -- name of that cluster, the request's namespace and the object's name a manifest whose labels
  -- name the group, the version and the kind of the resource, that cluster, that namespace and
  -- that name; and a label that is none of these six has on the manifest the value that it has on
  -- the object, or is missing on both, given the documented behaviour of the accessors and of a
  -- create.
  pub create-IsLabelled :
      (obj : RuntimeObject U) (v : Option (U → Outcome (Unit {0}))) (o : O) (s s' : S) (u : U)
      (j : Text)
      → moves_namespace r ≡ true
      → IsUsers j
      → create k b r ctx obj v o s ≡ (ok u, s')
      → (cluster : Text) × (crd : KubernetesCrd U) × (get_user ctx ≡ ok cluster)
        × (stored s' r.reserved_namespace (manifest_name k b r ctx cluster (k.get_name u))
            ≡ some crd)
        × IsLabelled r cluster (k.get_name u) ctx.namespace (or_empty crd.meta.labels)
        × (lookup j (or_empty crd.meta.labels) ≡ lookup j (or_empty (k.get_labels u)))
  create-IsLabelled obj v o s s' u j moves users h =
      let c = create-IsCreated k b stored machinery store r ctx obj v o s s' u h in
      let labels = created_labels c moves in
      (
        c.cluster,
        c.saved,
        c.caller,
        rw (← stored_name k b stored machinery store r ctx c moves)
            (store.create_stores r.reserved_namespace _ c.saved s s' c.wrote),
        rw labels
            (create_labels-IsLabelled r c.cluster (k.get_name u) ctx.namespace (k.get_labels u)),
        rw labels
            (create_labels_users r c.cluster (k.get_name u) ctx.namespace (k.get_labels u) users),
      )

module _ {S U O : Type 0} (k : Machinery U) (b : Backend S U O)
    (stored : S → Text → Text → Option (KubernetesCrd U)) (machinery : MachineryLaws k)
    (frames : FrameLaws k b stored) (store : UpdateLaws k b stored) (r : Rest) (ctx : Context) where
  saved_labels :
      (name : Text) (f : U → Outcome (RuntimeObject U))
      (v : Option (RuntimeObject U → U → Outcome (Unit {0}))) (o : O) (s s' : S)
      (saved : KubernetesCrd U) (c : IsSaved k b stored frames r ctx name f v o s saved s')
      → or_empty saved.meta.labels
        ≡ update_labels r c.cluster
            (k.get_name c.new)
            (k.get_namespace c.new)
            (k.get_labels c.new)
            c.manifest.meta.labels
  unfolding updated_manifest
  saved_labels name f v o s s' saved c =
      let (same_name, same_namespace, same_labels) = trim_result-keeps k machinery c.new in
      ap or_empty (
        store.update_labelled r.reserved_namespace
          (updated_manifest k b r ctx c.cluster (trim_result k c.new) c.manifest) saved o s s'
          c.wrote)
      ∙ rw (same_name, same_namespace, same_labels)

  -- For a resource whose kind is not Scale: when `Update`, with options that do not ask for a dry
  -- run, has saved a manifest in place of the one that the lister has, and the server's was not
  -- being deleted, then the server has it under the manifest's name of the caller's cluster, the
  -- request's namespace and the name of the update, and its labels name the group, the version and
  -- the kind of the resource, that cluster, and the namespace and the name of the new object; and
  -- a label that is none of these six, and that the new object does not set, has the value that it
  -- had on the old manifest: a label that the user removes from the object stays.
  pub save_update-IsLabelled :
      (name : Text) (f : U → Outcome (RuntimeObject U))
      (v : Option (RuntimeObject U → U → Outcome (Unit {0}))) (o : O) (s s' : S)
      (old saved manifest : KubernetesCrd U) (cluster j : Text) (new : U)
      → r.kind ≢ codes "Scale"
      → IsUsers j
      → store.is_dry_run o ≡ false
      → get_user ctx ≡ ok cluster
      → stored s r.reserved_namespace (manifest_name k b r ctx cluster name) ≡ some old
      → old.meta.deletion_timestamp ≡ none
      → b.lister_get r.reserved_namespace (manifest_name k b r ctx cluster name) s ≡ ok manifest
      → updated_result k b r ctx f v manifest ≡ ok new
      → lookup j (or_empty (k.get_labels new)) ≡ none
      → save_update k b r ctx name f v o s ≡ (ok saved, s')
      → (stored s' r.reserved_namespace (manifest_name k b r ctx cluster name) ≡ some saved)
        × IsLabelled r cluster (k.get_name new) (k.get_namespace new) (or_empty saved.meta.labels)
        × (lookup j (or_empty saved.meta.labels) ≡ lookup j (or_empty manifest.meta.labels))
  unfolding updated_manifest
  save_update-IsLabelled name f v o s s' old saved manifest cluster j new kind users real caller
        there alive listed made missing h =
      let c = save_update-IsSaved k b stored frames r ctx name f v o s s' saved h in
      let same_cluster : c.cluster ≡ cluster = ok_injective (sym c.caller ∙ caller) in
      let named = c.same_name ∙ ap (λ x. manifest_name k b r ctx x name) same_cluster in
      let same_manifest : c.manifest ≡ manifest =
        ok_injective (sym (rw same_cluster at (c.listed)) ∙ listed) in
      let same_new : c.new ≡ new = ok_injective (sym (rw same_manifest at (c.made)) ∙ made) in
      let labels =
        saved_labels name f v o s s' saved c
        ∙ ap
            (λ x.
              update_labels r x (k.get_name c.new) (k.get_namespace c.new) (k.get_labels c.new)
                c.manifest.meta.labels)
            same_cluster
        ∙ ap
            (λ x.
              update_labels r cluster (k.get_name c.new) (k.get_namespace c.new)
                (k.get_labels c.new) x.meta.labels)
            same_manifest
        ∙ ap
            (λ x.
              update_labels r cluster (k.get_name x) (k.get_namespace x) (k.get_labels x)
                manifest.meta.labels)
            same_new in
      (
        subst (λ x. stored s' r.reserved_namespace x ≡ some saved) named
            (store.update_stores r.reserved_namespace _ old saved o s s' real (rw (named) there)
              alive c.wrote),
        rw labels (
            update_labels-IsLabelled r cluster (k.get_name new) (k.get_namespace new)
              (k.get_labels new) manifest.meta.labels kind),
        rw labels (
            update_labels_stale r cluster (k.get_name new) (k.get_namespace new) (k.get_labels new)
              manifest.meta.labels users missing),
      )
