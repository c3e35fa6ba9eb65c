-- ===== src/Rest/Example/ListTests.antt =====
-- An instance of the theorem on `convertListOptionsToLabels` of rest.go, for selectors that are lists of
-- labels with their values.
use external_crd.Prelude.{
  ◌≡◌, refl, ◌↔◌, ◌&&◌, Bool, true, false, Option, none, some, List, [], ◌∷◌, arith, if◌then◌else◌,
}
use external_crd.Prelude.Text.{Text, codes, is_empty, str_eq, has_prefix, last_index}
use external_crd.Prelude.Text.Laws.{str_eq_iff}
use external_crd.Prelude.Maps.{Map, lookup}
use external_crd.Prelude.Outcome.{Outcome, ok, err, other}
use external_crd.Rest.User.{get_user, get_cluster_namespace, username_prefix}
use external_crd.Prelude.Int.{pos}
use external_crd.Utils.Constants.{config_cluster_label, config_namespace_label, config_kind_label}
use external_crd.Rest.Listing.{
  add_fields, list_query, field_requirement, Selectors, ListOptions, equals,
  convert_list_options_to_labels,
}
use external_crd.Rest.Listing.Selects.{SelectorLaws, IsSelected, convert_list_options_to_labels_iff}
use external_crd.Rest.Objects.{Query}
use external_crd.Rest.Watch.{watch, watch_selects}
use external_crd.Rest.Example.Requests.{foos, request}

abbrev pub Label : Type 0
Label = Text × Text

abbrev has_value : Text → Option Text → Bool
has_value value none = false
has_value value (some v) = str_eq v value

abbrev holds_in : Label → Map Text → Bool
holds_in r m = has_value r.1 (lookup r.0 m)

abbrev all_hold : List Label → Map Text → Bool
all_hold [] m = true
all_hold (r ∷ l) m = all_hold l m && holds_in r m

abbrev requirement : Text → Text → List Text → Outcome Label
requirement key op [] = err (other op)
requirement key op (v ∷ _) = if str_eq op equals then ok (key, v) else err (other op)

abbrev pub selectors : Selectors (List Label) Label
selectors = record {
  everything = [];
  add = λ l r. r ∷ l;
  new_requirement = requirement;
  to_text = λ l. [];
}

has_value_iff : (value : Text) (o : Option Text) → (has_value value o ≡ true) ↔ (o ≡ some value)
has_value_iff value none = (λ h. absurd (ground arith), λ h. absurd (ground arith))
has_value_iff value (some v) =
    (λ h. let e = (str_eq_iff v value).0 h in cc, λ h. (str_eq_iff v value).1 (cc h))

equals_made :
    (key value : Text) (r : Label) → requirement key equals (value ∷ []) ≡ ok r → r ≡ (key, value)
unfolding codes str_eq
equals_made key value r h = cc

pub selector_laws : SelectorLaws selectors
selector_laws = record {
  matches = all_hold;
  holds = holds_in;
  matches-everything = λ m. refl;
  matches-add = λ l r m. refl;
  holds-equals =
      λ key value r m h. rw (equals_made key value r h) (has_value_iff value (lookup key m));
}

abbrev web : Option (ListOptions (List Label))
web = some (record {
  label_selector = some ((codes "app", codes "web") ∷ []);
  field_selector = none;
  params = record {
    watch = false;
    allow_watch_bookmarks = false;
    resource_version = [];
    resource_version_match = [];
    timeout_seconds = none;
    limit = pos 0;
    continue_token = [];
  };
})

abbrev selector : List Label
selector =
    (config_cluster_label, codes "c1")
    ∷ (config_namespace_label, codes "team")
    ∷ (config_kind_label, codes "Foo")
    ∷ (codes "app", codes "web")
    ∷ []

convert_list_options_to_labels_iff_example :
    (cluster : Text) × (get_user request ≡ ok cluster)
    × ((selector_laws.matches selector [] ≡ true)
        ↔ IsSelected selectors selector_laws foos request web cluster [])
unfolding convert_list_options_to_labels add_fields field_requirement get_user get_cluster_namespace
    username_prefix codes is_empty has_prefix last_index str_eq lookup
convert_list_options_to_labels_iff_example =
    convert_list_options_to_labels_iff selectors selector_laws foos request web selector [] refl

abbrev accepted_query : Text → Query → Unit {0} → Outcome (Unit {0})
accepted_query ns q s = ok tt

watch-IsSelected :
    (cluster : Text) × (label : List Label) × (q : Query) × (get_user request ≡ ok cluster)
    × (accepted_query (codes "reserved") q tt ≡ ok tt)
    × (q.label_selector ≡ selectors.to_text label)
    × (q.field_selector ≡ [])
    × ((selector_laws.matches label [] ≡ true)
        ↔ IsSelected selectors selector_laws foos request web cluster [])
unfolding watch convert_list_options_to_labels add_fields field_requirement get_user
    get_cluster_namespace username_prefix codes is_empty has_prefix last_index str_eq lookup
    list_query
watch-IsSelected =
    watch_selects selectors selector_laws accepted_query foos request web tt tt [] refl
