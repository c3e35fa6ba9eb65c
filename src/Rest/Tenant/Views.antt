-- ===== src/Rest/Tenant/Views.antt =====
-- How a write of one manifest shows in the objects of a caller, and what the specification makes of it.
use external_crd.Prelude.{
  ◌≡◌, refl, sym, ap, ◌≢◌, inl, inr, false, Bool-cases, Option, none, Option-cases, arith,
}
use mathlib.Core.Path.{fun_ext}
use external_crd.Prelude.Text.{Text, str_eq}
use external_crd.Prelude.Text.Laws.{str_eq_iff}
use external_crd.Prelude.Outcome.{Outcome, ok, err, panic}
use external_crd.Rest.User.{Context}
use external_crd.Rest.Objects.{Rest, Machinery, Backend, KubernetesCrd}
use external_crd.Rest.Names.Laws.{get_normalized_manifest_name-cancel}
use external_crd.Rest.Crud.{manifest_name}
use external_crd.Rest.Tenant.{View, Change, unclear, AgreeOff, assign, told, read_back, objects}

apart : (s t : Text) → str_eq s t ≡ false → t ≢ s
apart s t h e = ground (arith, str_eq_iff s t, sym e)

pub told-unclear :
    {A U : Type 0} (f : A → Change U) (o : Outcome A) → ((a : A) → o ≢ ok a) → told f o ≡ unclear
told-unclear f (ok a) h = absurd (h a refl)
told-unclear f (err e) h = refl
told-unclear f panic h = refl

module _ {S U O : Type 0} (k : Machinery U) (b : Backend S U O)
    (stored : S → Text → Text → Option (KubernetesCrd U)) (r : Rest) (ctx : Context)
    (cluster : Text) where
  -- The manifest of a name in the view.
  abbrev pub at : S → Text → Option (KubernetesCrd U)
  at s name = stored s r.reserved_namespace (manifest_name k b r ctx cluster name)

  abbrev pub view : S → View U
  view = objects k b stored r ctx cluster

  pub read_back-taken : (s : S) (name : Text) → at s name ≢ none → view s name ≢ none
  read_back-taken s name there e = elim (Option-cases (at s name)) [
    | inl gone ↦ there gone
    | inr (crd, is) ↦ absurd (ground arith)
  ]

  -- The manifests agree off that of one name.
  abbrev pub KeptOff : Text → S → S → Type 0
  KeptOff name s t =
      (m : Text)
      → m ≢ manifest_name k b r ctx cluster name
      → stored t r.reserved_namespace m ≡ stored s r.reserved_namespace m

  pub view-AgreeOff : (s t : S) (name : Text) → KeptOff name s t → AgreeOff name (view s) (view t)
  view-AgreeOff s t name frame n other = ap (read_back k b stored r ctx cluster) (
      frame (manifest_name k b r ctx cluster n) (λ e.
        apart name n other (get_normalized_manifest_name-cancel r cluster ctx.namespace n name e)))

  -- A write of the manifest of one name changes the view at that name.
  pub view-assign :
      (s t : S) (name : Text) (o : Option (KubernetesCrd U))
      → KeptOff name s t
      → at t name ≡ o
      → view t ≡ assign name (read_back k b stored r ctx cluster o) (view s)
  view-assign s t name o frame written = fun_ext λ n. elim (Bool-cases (str_eq name n)) [
    | inl same ↦ rw (same, ← (str_eq_iff name n).0 same, written) refl
    | inr other ↦ rw (other) (view-AgreeOff s t name frame n other)
  ]

  pub view_kept :
      (s t : S)
      → ((m : Text) → stored t r.reserved_namespace m ≡ stored s r.reserved_namespace m)
      → view t ≡ view s
  view_kept s t kept =
      fun_ext
        λ n. ap (read_back k b stored r ctx cluster) (kept (manifest_name k b r ctx cluster n))
