-- ===== src/Rest/Tenant/Created.antt =====
-- A create of rest.go makes an object of a free name of its caller, or nothing.
use external_crd.Prelude.{
  ◌≡◌, sym, ◌∙◌, ap, ◌≢◌, inl, inr, true, Option, none, some, Option-cases, arith,
}
use external_crd.Prelude.Text.{Text}
use external_crd.Prelude.Outcome.{eq-pair, Outcome, ok, ok_injective, Outcome-cases}
use external_crd.Rest.User.{Context, get_user}
use external_crd.Rest.Objects.{
  Rest, Machinery, MachineryLaws, Backend, RuntimeObject, KubernetesCrd,
}
use external_crd.Rest.DryRun.{moves_namespace}
use external_crd.Rest.Crud.{created_manifest, create, manifest_name}
use external_crd.Rest.Crud.Store.{FrameLaws, CreateLaws}
use external_crd.Rest.Crud.ReadWrite.{IsCreated, create-IsCreated, stored_name}
use external_crd.Rest.Tenant.{View, created, Allows, told}
use external_crd.Rest.Tenant.Views.{told-unclear, at, view, view-assign, view-AgreeOff}
use external_crd.Rest.Tenant.Verbs.{create-KeptOffOne}

module _ {S U O : Type 0} (k : Machinery U) (b : Backend S U O)
    (stored : S → Text → Text → Option (KubernetesCrd U)) (machinery : MachineryLaws k)
    (frames : FrameLaws k b stored) (store : CreateLaws k b stored) (r : Rest) (ctx : Context)
    (cluster : Text) (caller : get_user ctx ≡ ok cluster) where
  abbrev here : S → View U
  here = view k b stored r ctx cluster

  created_refines :
      (obj : RuntimeObject U) (o : O) (s t : S) (u : U)
      → moves_namespace r ≡ true
      → IsCreated k b stored machinery store r ctx obj o s u t
      → Allows (here s) (created (k.get_name u) u) (here t)
  created_refines obj o s t u moves c = (
    free,
    view-assign k b stored r ctx cluster s t (k.get_name u) (some c.saved) frame written
        ∙ rw c.returned,
  )
    where
      crd : KubernetesCrd U
      crd = created_manifest k b r ctx c.cluster c.actual

      named : crd.meta.name ≡ manifest_name k b r ctx cluster (k.get_name u)
      named =
          stored_name k b stored machinery store r ctx c moves
          ∙ ap (λ x. manifest_name k b r ctx x (k.get_name u))
              (ok_injective (sym c.caller ∙ caller))

      written : at k b stored r ctx cluster t (k.get_name u) ≡ some c.saved
      written = rw named at (store.create_stores r.reserved_namespace crd c.saved s t c.wrote)

      frame :
          (m : Text)
          → m ≢ manifest_name k b r ctx cluster (k.get_name u)
          → stored t r.reserved_namespace m ≡ stored s r.reserved_namespace m
      frame m other = rw c.wrote at (
          frames.create_frame r.reserved_namespace crd b.default_options s m
            (λ e. other (e ∙ named)))

      free : here s (k.get_name u) ≡ none
      free = elim (Option-cases (at k b stored r ctx cluster s (k.get_name u))) [
        | inl gone ↦ rw gone
        | inr (old, there) ↦ absurd (taken old there)
      ]
        where
          taken : (old : KubernetesCrd U) → at k b stored r ctx cluster s (k.get_name u) ≢ some old
          taken old there =
              let (g, e) = store.create_taken r.reserved_namespace crd old s (rw named there) in
              absurd (ground (arith, ap (λ x. x.0) (sym c.wrote ∙ e)))

  pub create_refines :
      (obj : RuntimeObject U) (v : Option (U → Outcome (Unit {0}))) (o : O) (s : S)
      → moves_namespace r ≡ true
      → Allows
          (here s)
          (told (λ u. created (k.get_name u) u) (create k b r ctx obj v o s).0)
          (here (create k b r ctx obj v o s).1)
  create_refines obj v o s moves = elim (Outcome-cases (create k b r ctx obj v o s).0) [
    | inl (u, e) ↦ rw (e) (
        created_refines obj o s _ u moves
          (create-IsCreated k b stored machinery store r ctx obj v o s _ u (eq-pair _ _ e)))
    | inr failed ↦
        let (name, kept) =
          create-KeptOffOne k b stored machinery frames r ctx cluster caller obj v o s moves in
        rw (told-unclear (λ u. created (k.get_name u) u) _ failed)
          ((name, view-AgreeOff k b stored r ctx cluster s _ name kept))
  ]
