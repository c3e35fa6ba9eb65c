-- ===== src/Handler/Priority.antt =====
-- pkg/apiserver/overlay/priority.go: which of the groups that serve a resource is stored. The global
-- map `resourcePriorityMap` is an argument and a result; its lock makes each call one step.
pub mod Laws
use external_crd.Prelude.{Bool, true, false, Option, none, some, List, [], ◌∷◌, if◌then◌else◌}
use external_crd.Prelude.Text.{Text, codes, join}
use external_crd.Prelude.Maps.{Map, lookup, put}
use external_crd.Prelude.Int.{ℤ, ltb_ℤ}

-- groupPriority
pub record GroupPriority : Type 0 where
  pub group_version_name : Text
  pub group_priority_minimum : ℤ

-- What is read of an APIService: its name and its Spec.GroupPriorityMinimum.
pub record ApiService : Type 0 where
  pub name : Text
  pub group_priority_minimum : ℤ

-- The lister of APIServices; `none` is an error.
abbrev pub ApiServiceLister : Type 0
ApiServiceLister = Text → Option ApiService

unfoldable pub get_api_service : Text → Text → ApiServiceLister → Option ApiService
get_api_service group version lister = lister (join (version ∷ group ∷ []) (codes "."))

-- ok && gp.groupPriorityMinimum > apiservice.Spec.GroupPriorityMinimum
unfoldable pub is_outranked : Option GroupPriority → ApiService → Bool
is_outranked none service = false
is_outranked (some gp) service = ltb_ℤ service.group_priority_minimum gp.group_priority_minimum

-- The part of `canBeAddedToStorage` behind the call of `getAPIService`; an error of that call is ignored.
unfoldable pub record_priority :
    Option ApiService → Text → Map GroupPriority → Bool × Map GroupPriority
record_priority none resource priorities = (true, priorities)
record_priority (some service) resource priorities =
    if is_outranked (lookup resource priorities) service then (false, priorities) else (
      true,
      put resource
          (record {
            group_version_name = service.name;
            group_priority_minimum = service.group_priority_minimum;
          })
          priorities,
    )

unfoldable pub can_be_added_to_storage :
    Text → Text → Text → ApiServiceLister → Map GroupPriority → Bool × Map GroupPriority
can_be_added_to_storage group version resource lister priorities =
    record_priority (get_api_service group version lister) resource priorities
