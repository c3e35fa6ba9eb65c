-- ===== src/Rest/Tenant.antt =====
-- What rest.go promises one caller: a map of objects by name, which creates, updates and deletes
-- change as their answers say.
mod Views
mod Verbs
mod Created
mod Changed
pub mod Refines
mod Tests
use external_crd.Prelude.{
  ◌≡◌, ◌≢◌, Bool, true, false, not, ◌&&◌, Option, none, some, List, [], ◌∷◌, if◌then◌else◌,
}
use external_crd.Prelude.Text.{Text, str_eq}
use external_crd.Prelude.Outcome.{Outcome, ok, err, panic}
use external_crd.Rest.User.{Context}
use external_crd.Rest.Objects.{Rest, Machinery, Backend, KubernetesCrd}
use external_crd.Rest.Manifest.{transform_manifest}
use external_crd.Rest.Crud.{create, manifest_name, update, delete}
use external_crd.Rest.Crud.Isolation.{Write, creating, updating, deleting, after}

-- The objects of one caller by their names, as a read would return them.
abbrev pub View : Type 0 → Type 0
View U = Text → Option (Outcome U)

-- What a write has done, as its answer tells the caller. `previewed` is a dry run, `finishing` a delete
-- that was accepted and may wait for finalizers, or an update of an object that is being deleted, and
-- `unclear` a write that was not answered with success.
pub data Change (U : Type 0) : Type 0 where
  created : Text → U → Change U
  saved : Text → U → Change U
  previewed : Change U
  removed : Text → Change U
  finishing : Text → Change U
  unclear : Change U

module _ {U : Type 0} where
  abbrev pub assign : Text → Option (Outcome U) → View U → View U
  assign name u v n = if str_eq name n then u else v n

  -- The views agree on every other name.
  abbrev pub AgreeOff : Text → View U → View U → Type 0
  AgreeOff name v w = (n : Text) → str_eq name n ≡ false → w n ≡ v n

  -- The specification of one change: a create makes an object of a name that is free; an update and a
  -- delete change one that is there; whatever was not answered with success changes one object at most.
  abbrev pub Allows : View U → Change U → View U → Type 0
  Allows v (created name u) w = (v name ≡ none) × (w ≡ assign name (some (ok u)) v)
  Allows v (saved name u) w = (v name ≢ none) × (w ≡ assign name (some (ok u)) v)
  Allows v previewed w = w ≡ v
  Allows v (removed name) w = (v name ≢ none) × (w ≡ assign name none v)
  Allows v (finishing name) w = (v name ≢ none) × AgreeOff name v w
  Allows v unclear w = (name : Text) × AgreeOff name v w

  -- The changes, one after another.
  abbrev pub AllowsAll : View U → List (Change U) → View U → Type 0
  AllowsAll v [] w = w ≡ v
  AllowsAll v (c ∷ cs) w = (x : View U) × Allows v c x × AllowsAll x cs w

  abbrev pub told : {A : Type 0} → (A → Change U) → Outcome A → Change U
  told f (ok a) = f a
  told f (err _) = unclear
  told f panic = unclear

module _ {S U O : Type 0} (k : Machinery U) (b : Backend S U O)
    (stored : S → Text → Text → Option (KubernetesCrd U)) (r : Rest) (ctx : Context)
    (cluster : Text) where
  abbrev pub read_back : Option (KubernetesCrd U) → Option (Outcome U)
  read_back none = none
  read_back (some crd) = some (transform_manifest k crd)

  -- The view of the caller of `ctx` with this cluster: the manifest of each name, as an object.
  abbrev pub objects : S → View U
  objects s n = read_back (stored s r.reserved_namespace (manifest_name k b r ctx cluster n))

  abbrev pub has_finalizers : Option (KubernetesCrd U) → Bool
  has_finalizers none = false
  has_finalizers (some crd) = elim crd.meta.finalizers [ [] ↦ false | _ ∷ _ ↦ true ]

  abbrev pub is_terminating : Option (KubernetesCrd U) → Bool
  is_terminating none = false
  is_terminating (some crd) = elim crd.meta.deletion_timestamp [ none ↦ false | some _ ↦ true ]

  -- What the answer of a write says, for the options of an update that ask for a dry run, and those of a
  -- delete that ask for a removal at once.
  module _ (is_dry_run is_at_once : O → Bool) where
    abbrev pub change : Write U O → S → Change U
    change (creating obj v o) s =
        told (λ u. created (k.get_name u) u) (create k b r ctx obj v o s).0
    change (updating name f v o) s =
        told
          (λ u.
            if is_dry_run o
            then previewed
            else if is_terminating
                (stored s r.reserved_namespace (manifest_name k b r ctx cluster name))
            then finishing name
            else saved name u)
          (update k b r ctx name f v o s).0.0
    change (deleting name v o) s =
        told
          (λ _.
            if is_at_once o
              && not (
                  has_finalizers
                    (stored s r.reserved_namespace (manifest_name k b r ctx cluster name)))
            then removed name
            else finishing name)
          (delete k b r ctx name v o s).0

    -- The state after some writes, and what their answers say.
    abbrev pub changes : List (Write U O) → S → List (Change U)
    changes [] s = []
    changes (w ∷ ws) s = change w s ∷ changes ws (after k b r ctx w s)

module _ {S U O : Type 0} (k : Machinery U) (b : Backend S U O) (r : Rest) (ctx : Context) where
  abbrev pub after_all : List (Write U O) → S → S
  after_all [] s = s
  after_all (w ∷ ws) s = after_all ws (after k b r ctx w s)
