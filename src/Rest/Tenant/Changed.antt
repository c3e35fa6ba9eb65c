-- ===== src/Rest/Tenant/Changed.antt =====
-- An update or a delete of rest.go changes an object that its caller has, or nothing but it.
use external_crd.Prelude.{
  ◌≡◌, refl, sym, ◌∙◌, ap, ◌≢◌, inl, inr, Bool, Bool-cases, true, false, not, ◌&&◌, Option, none,
  some, Option-cases, [], List-cases, arith, if◌then◌else◌,
}
use external_crd.Prelude.Text.{Text, is_empty}
use external_crd.Prelude.Outcome.{eq-pair, Outcome, ok, err, panic, ok_injective, Outcome-cases}
use external_crd.Rest.User.{Context, get_user}
use external_crd.Rest.Objects.{
  Rest, Machinery, MachineryLaws, Backend, RuntimeObject, KubernetesCrd,
}
use external_crd.Rest.Names.{get_resource_name}
use external_crd.Rest.Manifest.{trim_result, transform_manifest, copy_metadata}
use external_crd.Rest.Manifest.Identity.{transform_manifest_lem}
use external_crd.Rest.Crud.{manifest_name, updated_manifest, report, save_update, update, delete}
use external_crd.Rest.Crud.Store.{FrameLaws, UpdateLaws, DeleteLaws}
use external_crd.Rest.Crud.ReadWrite.{delete-lem}
use external_crd.Rest.Crud.Rewrite.{IsSaved, save_update-IsSaved}
use external_crd.Rest.Crud.Isolation.{updating, deleting}
use external_crd.Rest.Tenant.{
  View, Change, saved, previewed, removed, finishing, Allows, told, has_finalizers, is_terminating,
  change,
}
use external_crd.Rest.Tenant.Views.{
  told-unclear, at, view, read_back-taken, view-assign, view_kept, KeptOff, view-AgreeOff,
}
use external_crd.Rest.Tenant.Verbs.{delete-KeptOff, save_update-KeptOff}

module _ {S U O : Type 0} (k : Machinery U) (b : Backend S U O)
    (stored : S → Text → Text → Option (KubernetesCrd U)) (machinery : MachineryLaws k)
    (frames : FrameLaws k b stored) (r : Rest) (ctx : Context) (cluster : Text)
    (caller : get_user ctx ≡ ok cluster) where
  abbrev here : S → View U
  here = view k b stored r ctx cluster

  has_finalizers-none :
      (crd : KubernetesCrd U)
      → has_finalizers k b stored r ctx cluster (some crd) ≡ false
      → crd.meta.finalizers ≡ []
  has_finalizers-none crd h = elim (List-cases crd.meta.finalizers) [
    | inl e ↦ e
    | inr (x, rest, e) ↦ absurd (ground arith)
  ]

  module _ (store : DeleteLaws k b stored) where
    abbrev at_once : Text → O → S → Bool
    at_once name o s =
        store.is_at_once o
        && not (has_finalizers k b stored r ctx cluster (at k b stored r ctx cluster s name))

    removed_at_once :
        (name : Text) (o : O) (s : S)
        → at_once name o s ≡ true
        → (b.delete r.reserved_namespace (manifest_name k b r ctx cluster name) o s).0 ≡ ok tt
        → at k b stored r ctx cluster
            (b.delete r.reserved_namespace (manifest_name k b r ctx cluster name) o s).1
            name
          ≡ none
    removed_at_once name o s h gone = elim (Option-cases (at k b stored r ctx cluster s name)) [
      | inl missing ↦ absurd (store.delete_present r.reserved_namespace _ o s gone missing)
      | inr (crd, there) ↦
          let h' = rw there at h in
          store.delete_removes r.reserved_namespace _ o s crd (ground arith) there
            (has_finalizers-none crd (ground arith)) gone
    ]

    deleted_refines :
        (name : Text) (v : Option (U → Outcome (Unit {0}))) (o : O) (s : S)
        → (delete k b r ctx name v o s).0 ≡ ok tt
        → Allows
            (here s)
            (if at_once name o s then removed name else finishing name)
            (here (delete k b r ctx name v o s).1)
    deleted_refines name v o s e =
        let (cluster', caller', same, gone) = delete-lem k b r ctx name v o s e in
        let same_cluster = ok_injective (sym caller' ∙ caller) in
        let gone' = rw same_cluster at gone in
        let kept = delete-KeptOff k b stored machinery frames r ctx cluster caller name v o s in
        let there =
          read_back-taken k b stored r ctx cluster s name
            (store.delete_present r.reserved_namespace _ o s gone') in
        elim (Bool-cases (at_once name o s)) [
          | inl now ↦ rw now (
            there,
            view-assign k b stored r ctx cluster s _ name none kept
                (rw (same, same_cluster) (removed_at_once name o s now gone')),
          )
          | inr later ↦ rw later (there, view-AgreeOff k b stored r ctx cluster s _ name kept)
        ]

    pub delete_refines :
        (is_dry_run : O → Bool) (name : Text) (v : Option (U → Outcome (Unit {0}))) (o : O) (s : S)
        → Allows
            (here s)
            (change k b stored r ctx cluster is_dry_run store.is_at_once (deleting name v o) s)
            (here (delete k b r ctx name v o s).1)
    delete_refines is_dry_run name v o s = elim (Outcome-cases (delete k b r ctx name v o s).0) [
      | inl (tt, e) ↦ rw (e) (deleted_refines name v o s e)
      | inr failed ↦
          let kept = delete-KeptOff k b stored machinery frames r ctx cluster caller name v o s in
          rw
            (told-unclear (λ _. if at_once name o s then removed name else finishing name) _ failed)
            ((name, view-AgreeOff k b stored r ctx cluster s _ name kept))
    ]

  module _ (store : UpdateLaws k b stored) where
    abbrev terminating : Text → S → Bool
    terminating name s =
        is_terminating k b stored r ctx cluster (at k b stored r ctx cluster s name)

    abbrev outcome : Text → O → S → U → Change U
    outcome name o s u =
        if store.is_dry_run o
        then previewed
        else if terminating name s
        then finishing name
        else saved name u

    is_terminating-none :
        (crd : KubernetesCrd U)
        → is_terminating k b stored r ctx cluster (some crd) ≡ false
        → crd.meta.deletion_timestamp ≡ none
    is_terminating-none crd h = elim (Option-cases crd.meta.deletion_timestamp) [
      | inl e ↦ e
      | inr (t, e) ↦ absurd (ground arith)
    ]

    stored_alive :
        (name : Text) (o : O) (s t : S) (sent crd : KubernetesCrd U)
        → sent.meta.name ≡ manifest_name k b r ctx cluster name
        → store.is_dry_run o ≡ false
        → terminating name s ≡ false
        → b.update r.reserved_namespace sent o s ≡ (ok crd, t)
        → at k b stored r ctx cluster t name ≡ some crd
    stored_alive name o s t sent crd named real alive wrote =
        let n = manifest_name k b r ctx cluster name in
        elim (Option-cases (stored s r.reserved_namespace sent.meta.name)) [
          | inl missing ↦
              absurd (store.update_present r.reserved_namespace sent crd o s t wrote missing)
          | inr (old, there) ↦
              let there' : stored s r.reserved_namespace n ≡ some old = rw named at there in
              let alive' = rw there' at alive in
              rw named at (
                store.update_stores r.reserved_namespace sent old crd o s t real there
                  (is_terminating-none old alive') wrote)
        ]

    saved_refines :
        (name : Text) (f : U → Outcome (RuntimeObject U))
        (v : Option (RuntimeObject U → U → Outcome (Unit {0}))) (o : O) (s t : S)
        (crd : KubernetesCrd U)
        → IsSaved k b stored frames r ctx name f v o s crd t
        → KeptOff k b stored r ctx cluster name s t
        → Allows (here s) (told (outcome name o s) (transform_manifest k crd)) (here t)
    saved_refines name f v o s t crd c kept =
        rw (returned) (elim (Bool-cases (store.is_dry_run o)) [
          | inl dry ↦ rw dry (
              view_kept k b stored r ctx cluster s t
                λ m. rw c.wrote at (store.update_dry_run r.reserved_namespace sent o s m dry))
          | inr real ↦ rw real (elim (Bool-cases (terminating name s)) [
            | inl ending ↦ rw ending (present, view-AgreeOff k b stored r ctx cluster s t name kept)
            | inr alive ↦ rw alive (
              present,
              view-assign k b stored r ctx cluster s t name (some crd) kept
                    (stored_alive name o s t sent crd named real alive c.wrote)
                  ∙ rw returned,
            )
          ])
        ])
      where
        sent : KubernetesCrd U
        sent = updated_manifest k b r ctx c.cluster (trim_result k c.new) c.manifest

        named : sent.meta.name ≡ manifest_name k b r ctx cluster name
        named =
            unfold updated_manifest in
            c.same_name
            ∙ ap (λ x. manifest_name k b r ctx x name) (ok_injective (sym c.caller ∙ caller))

        present : here s name ≢ none
        present =
            read_back-taken k b stored r ctx cluster s name
              (rw named at (store.update_present r.reserved_namespace sent crd o s t c.wrote))

        holds : sent.manifest.object ≡ some (trim_result k c.new)
        holds = unfold updated_manifest in refl

        returned : transform_manifest k crd ≡ ok (copy_metadata k crd (trim_result k c.new))
        returned = transform_manifest_lem k machinery crd (trim_result k c.new) (
            store.update_encodes r.reserved_namespace sent crd o s t (trim_result k c.new) c.wrote
              holds)

    report_failed :
        (q : Outcome (KubernetesCrd U))
        → ((crd : KubernetesCrd U) → q ≢ ok crd)
        → (u : U) → (report k b r ctx q).0 ≢ ok u
    report_failed (ok crd) h u e = h crd refl
    report_failed (err x) h u e = absurd (ground arith)
    report_failed panic h u e = absurd (ground arith)

    save_update_refines :
        (name : Text) (f : U → Outcome (RuntimeObject U))
        (v : Option (RuntimeObject U → U → Outcome (Unit {0}))) (o : O) (s : S)
        → Allows
            (here s)
            (told (outcome name o s) (report k b r ctx (save_update k b r ctx name f v o s).0).0)
            (here (save_update k b r ctx name f v o s).1)
    save_update_refines name f v o s =
        let kept =
          save_update-KeptOff k b stored machinery frames r ctx cluster caller name f v o s in
        elim (Outcome-cases (save_update k b r ctx name f v o s).0) [
          | inl (crd, e) ↦ rw (e) (
              saved_refines name f v o s _ crd
                (save_update-IsSaved k b stored frames r ctx name f v o s _ crd (eq-pair _ _ e))
                kept)
          | inr failed ↦
              rw (told-unclear (outcome name o s) _ (report_failed _ failed))
                ((name, view-AgreeOff k b stored r ctx cluster s _ name kept))
        ]

    pub update_refines :
        (is_at_once : O → Bool) (name : Text) (f : U → Outcome (RuntimeObject U))
        (v : Option (RuntimeObject U → U → Outcome (Unit {0}))) (o : O) (s : S)
        → Allows
            (here s)
            (change k b stored r ctx cluster store.is_dry_run is_at_once (updating name f v o) s)
            (here (update k b r ctx name f v o s).1)
    unfolding update
    update_refines is_at_once name f v o s = elim (Bool-cases (is_empty (get_resource_name r).1)) [
      | inl whole ↦ rw (whole) (save_update_refines name f v o s)
      | inr sub ↦ rw (sub) ((name, λ _ _. refl))
    ]
