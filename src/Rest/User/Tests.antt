-- ===== src/Rest/User/Tests.antt =====
-- Runs of `getClusterNamespace` and `getUser`, and instances of their theorems.
use external_crd.Prelude.{◌≡◌, refl, ◌↔◌, ◌++◌, some}
use external_crd.Prelude.Text.{Text, codes, is_empty, has_prefix, last_index, str_eq}
use external_crd.Prelude.Outcome.{ok, err, panic, wrong_namespace}
use external_crd.Rest.User.{Context, username_prefix, get_cluster_namespace, get_user}
use external_crd.Rest.User.Access.{IsAuthorized, get_user_iff}
use external_crd.Rest.User.Panics.{IsCut, get_cluster_namespace_panics_iff}
use external_crd.Rest.User.Spelling.{Names, get_cluster_namespace_iff}

abbrev alice : Text
alice = codes "system:serviceaccount:external-crd-system:biz-ab12-c1-ab12-team"

abbrev request : Context
request = record { user = some alice; namespace = codes "team" }

abbrev elsewhere : Context
elsewhere = record { user = some alice; namespace = codes "other" }

alice_parsed : get_cluster_namespace alice ≡ ok (some (codes "c1", codes "team"))
unfolding get_cluster_namespace username_prefix codes is_empty has_prefix last_index
alice_parsed = refl

alice_authorized : get_user request ≡ ok (codes "c1")
unfolding get_user get_cluster_namespace username_prefix codes is_empty has_prefix last_index str_eq
alice_authorized = refl

alice_refused : get_user elsewhere ≡ err (wrong_namespace (codes "other") (codes "team"))
unfolding get_user get_cluster_namespace username_prefix codes is_empty has_prefix last_index str_eq
alice_refused = refl

get_user_iff_example : (get_user request ≡ ok (codes "c1")) ↔ IsAuthorized request (codes "c1")
get_user_iff_example = get_user_iff request (codes "c1")

get_cluster_namespace_iff_example :
    (get_cluster_namespace alice ≡ ok (some (codes "c1", codes "team")))
    ↔ Names alice (codes "c1") (codes "team")
get_cluster_namespace_iff_example = get_cluster_namespace_iff alice (codes "c1") (codes "team")

get_cluster_namespace_panics_iff_example :
    (get_cluster_namespace (username_prefix ++ codes "ab12-ab12-team") ≡ panic)
    ↔ IsCut (username_prefix ++ codes "ab12-ab12-team")
get_cluster_namespace_panics_iff_example =
    get_cluster_namespace_panics_iff (username_prefix ++ codes "ab12-ab12-team")

-- The cluster between the two delimiters is empty, and its separator is missing.
overlapping : get_cluster_namespace (username_prefix ++ codes "ab12-ab12-team") ≡ panic
unfolding get_cluster_namespace username_prefix codes is_empty has_prefix last_index
overlapping = refl
