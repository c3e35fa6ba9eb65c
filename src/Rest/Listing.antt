-- ===== src/Rest/Listing.antt =====
-- `convertListOptionsToLabels`, `List` and the query of `Watch` of pkg/apiserver/overlay/rest.go.
pub mod Selects
pub mod Sound
pub mod Complete
use external_crd.Prelude.{Bool, Option, none, some, List, [], ◌∷◌, if◌then◌else◌}
use external_crd.Prelude.Text.{Text, codes, str_eq}
use external_crd.Prelude.Maps.{Map}
use external_crd.Prelude.Outcome.{ApiError, internal, other, Outcome, ok, err, panic, then_do}
use external_crd.Utils.Constants.{
  config_name_label, config_kind_label, config_namespace_label, config_cluster_label,
}
use external_crd.Rest.User.{Context, get_user}
use external_crd.Rest.Objects.{
  Rest, Machinery, Backend, KubernetesCrd, KubernetesCrdList, UnstructuredList, ListParams, Query,
}
use external_crd.Rest.Names.{get_list_kind}
use external_crd.Rest.Manifest.{transform_manifest}

-- What rest.go calls of k8s.io/apimachinery/pkg/labels: `L` is labels.Selector, `R` is
-- labels.Requirement; an operator is its text.
pub record Selectors (L R : Type 0) : Type 0 where
  pub everything : L
  pub add : L → R → L
  pub new_requirement : Text → Text → List Text → Outcome R
  pub to_text : L → Text

-- fields.Requirement
pub record FieldRequirement : Type 0 where
  pub field : Text
  pub operator : Text
  pub value : Text

-- internalversion.ListOptions; a field selector is given by its Requirements()
pub record ListOptions (L : Type 0) : Type 0 where
  pub label_selector : Option L
  pub field_selector : Option (List FieldRequirement)
  pub params : ListParams

-- selection.Equals
abbrev pub equals : Text
equals = codes "="

module _ {L R : Type 0} (sel : Selectors L R) where
  -- The requirement on a label that a field requirement stands for: only metadata.name is known.
  unfoldable pub field_requirement : FieldRequirement → Outcome R
  field_requirement f =
      if str_eq f.field (codes "metadata.name")
      then sel.new_requirement config_name_label f.operator (f.value ∷ [])
      else err (internal (other f.field))

  -- for _, rqmt := range rqmts
  unfoldable pub add_fields : List FieldRequirement → L → Outcome L
  add_fields [] label = ok label
  add_fields (f ∷ fs) label =
      then_do (field_requirement f) λ requirement. add_fields fs (sel.add label requirement)

  -- label = label.Add(*requirement), for a label that must have one value
  abbrev pub require : Text → Text → L → Outcome L
  require key value label =
      then_do (sel.new_requirement key equals (value ∷ []))
        λ requirement. ok (sel.add label requirement)

  -- options != nil && options.LabelSelector != nil
  abbrev pub base_selector : Option (ListOptions L) → L
  base_selector none = sel.everything
  base_selector (some options) = elim options.label_selector [
    | none ↦ sel.everything
    | some label ↦ label
  ]

  -- options != nil && options.FieldSelector != nil
  abbrev pub field_requirements : Option (ListOptions L) → List FieldRequirement
  field_requirements none = []
  field_requirements (some options) = elim options.field_selector [ none ↦ [] | some fs ↦ fs ]

  unfoldable pub convert_list_options_to_labels :
      Rest → Context → Option (ListOptions L) → Outcome L
  convert_list_options_to_labels r ctx options = then_do (get_user ctx) λ cluster.
      then_do (add_fields (field_requirements options) (base_selector options)) λ label.
        then_do (require config_kind_label r.kind label) λ kinded.
          then_do (require config_namespace_label ctx.namespace kinded)
            λ placed. require config_cluster_label cluster placed

  -- The metav1.ListOptions of `List` and `Watch`: no field selector, and the rest is copied. The
  -- options are read without a test for nil.
  unfoldable pub list_query : L → Option (ListOptions L) → Outcome Query
  list_query label none = panic
  list_query label (some options) =
      ok (record {
        label_selector = sel.to_text label;
        field_selector = [];
        params = options.params;
      })

module _ {U : Type 0} (k : Machinery U) where
  -- for _, manifest := range manifests.Items
  unfoldable pub transform_all : List (KubernetesCrd U) → Outcome (List U)
  transform_all [] = ok []
  transform_all (crd ∷ crds) =
      then_do (transform_manifest k crd) λ u. then_do (transform_all crds) λ us. ok (u ∷ us)

  -- The list that `List` returns, without its items.
  abbrev list_header : Rest → KubernetesCrdList U → List U → UnstructuredList U
  list_header r manifests items = record {
    api_version = k.group_version_string r.group r.version;
    kind = get_list_kind r;
    resource_version = manifests.resource_version;
    continue_token = manifests.continue_token;
    items = items;
  }

module _ {S U O L R : Type 0} (k : Machinery U) (b : Backend S U O) (sel : Selectors L R) where
  -- List
  unfoldable pub list : Rest → Context → Option (ListOptions L) → S → Outcome (UnstructuredList U)
  list r ctx options s = then_do (convert_list_options_to_labels sel r ctx options) λ label.
      then_do (list_query sel label options) λ query.
        then_do (b.list r.reserved_namespace query s) λ manifests.
          then_do (transform_all k manifests.items) λ items. ok (list_header k r manifests items)
