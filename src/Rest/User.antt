-- ===== src/Rest/User.antt =====
-- Who calls: `getClusterNamespace` and `getUser` of pkg/apiserver/overlay/rest.go.
pub mod Parts
pub mod Spelling
pub mod Panics
pub mod Access
mod Tests
use external_crd.Prelude.{
  ℕ, suc, ◌+◌, ◌-◌, Bool, true, false, not, ◌&&◌, ◌||◌, Option, none, some, List, [], ◌∷◌, ◌++◌,
  ◌==◌, leb, if◌then◌else◌, length, take, drop,
}
use external_crd.Prelude.Text.{Text, codes, str_eq, is_empty, has_prefix, last_index}
use external_crd.Prelude.Outcome.{
  Outcome, ok, err, panic, then_do, unauthorized, bad_username, wrong_namespace,
}
use external_crd.Utils.Constants.{kcrd_system_namespace, username_random_delimiter_length}

-- What a handler reads of its context: request.UserFrom(ctx), by its GetName(), and
-- request.NamespaceValue(ctx).
pub record Context : Type 0 where
  pub user : Option Text
  pub namespace : Text

-- s[lo:hi], which panics out of bounds
unfoldable pub slice : Text → ℕ → ℕ → Outcome Text
slice s lo hi = if leb lo hi && leb hi (length s) then ok (take (hi - lo) (drop lo s)) else panic

-- s[lo:]
unfoldable pub slice_from : Text → ℕ → Outcome Text
slice_from s lo = if leb lo (length s) then ok (drop lo s) else panic

-- fmt.Sprintf("system:serviceaccount:%s:biz-", utils.KcrdSystemNamespace)
unfoldable pub username_prefix : Text
username_prefix = codes "system:serviceaccount:" ++ (kcrd_system_namespace ++ codes ":biz-")

-- The two slices of the last return of `getClusterNamespace`; `last_idx - 1` is its clusterEnd.
cluster_and_namespace : Text → ℕ → ℕ → Text → Outcome (Option (Text × Text))
unfolding slice slice_from
cluster_and_namespace username first_idx last_idx delimiter =
    let cluster_start = first_idx + length delimiter in
    let cluster_end = last_idx - 1 in
    then_do (slice username cluster_start cluster_end) λ cluster.
      then_do (slice_from username (cluster_end + 1 + length delimiter))
        λ namespace. ok (some (cluster, namespace))

-- `none` is the result ("", "", false). An index of -1 would make the slices panic.
split_username : Text → ℕ → Text → Outcome (Option (Text × Text))
unfolding cluster_and_namespace
split_username username first_idx delimiter = elim (last_index username delimiter) [
  | none ↦ panic
  | some last_idx ↦
      if last_idx == first_idx
      then ok none
      else cluster_and_namespace username first_idx last_idx delimiter
]

unfoldable pub get_cluster_namespace : Text → Outcome (Option (Text × Text))
unfolding split_username
get_cluster_namespace username =
    if is_empty username
    then ok none
    else if not (has_prefix username username_prefix)
    then ok none
    else let first_idx = length username_prefix in
      then_do (slice username first_idx (first_idx + username_random_delimiter_length + 1))
        λ delimiter. split_username username first_idx delimiter

-- The checks of `getUser` once the user's name is taken apart.
unfoldable pub authorize : Text → Option (Text × Text) → Outcome Text
authorize actual none = err bad_username
authorize actual (some (cluster, authorized)) =
    if is_empty actual || not (str_eq actual authorized)
    then err (wrong_namespace actual authorized)
    else ok cluster

unfoldable pub get_user : Context → Outcome Text
unfolding authorize
get_user ctx = elim ctx.user [
  | none ↦ err unauthorized
  | some username ↦ then_do (get_cluster_namespace username) (authorize ctx.namespace)
]
