-- ===== src/Rest/Names/Laws.antt =====
-- The name of a manifest identifies the object that it stores, where its parts lack the separator.
use external_crd.Prelude.{◌≡◌, [], ◌∷◌, ◌++◌, append_assoc, arith}
use mathlib.Core.List.{append_cancel_left}
use external_crd.Prelude.Text.{Text, Lacks}
use external_crd.Prelude.Text.Laws.{
  contains_byte-append, contains_byte-Lacks, split_first-Lacks, cut_injective,
}
use external_crd.Rest.Objects.{Rest}
use external_crd.Rest.Names.{get_resource_name, get_normalized_manifest_name}

-- Two requests whose resource, cluster and namespace are words without "." use one manifest only
-- if they agree on the resource, the cluster, the namespace and the name, whatever the name is.
pub get_normalized_manifest_name_injective :
    (r r' : Rest) (c n x c' n' x' : Text)
    → Lacks b'.' (get_resource_name r).0
    → Lacks b'.' (get_resource_name r').0
    → Lacks b'.' c
    → Lacks b'.' c'
    → Lacks b'.' n
    → Lacks b'.' n'
    → get_normalized_manifest_name r c n x ≡ get_normalized_manifest_name r' c' n' x'
    → ((get_resource_name r).0 ≡ (get_resource_name r').0) × (c ≡ c') × (n ≡ n') × (x ≡ x')
unfolding get_normalized_manifest_name
get_normalized_manifest_name_injective r r' c n x c' n' x' hr hr' hc hc' hn hn' e =
    let (same_r, e') = cut_injective b'.' _ _ _ _ hr hr' e in
    let (same_c, e'') = cut_injective b'.' c _ c' _ hc hc' e' in
    let (same_n, same_x) = cut_injective b'.' n x n' x' hn hn' e'' in
    (same_r, same_c, same_n, same_x)

-- In one namespace of one cluster, the manifests of two names are different, whatever bytes the names
-- of the namespace and of the cluster have.
pub get_normalized_manifest_name-cancel :
    (r : Rest) (c n x x' : Text)
    → get_normalized_manifest_name r c n x ≡ get_normalized_manifest_name r c n x'
    → x ≡ x'
unfolding get_normalized_manifest_name
get_normalized_manifest_name-cancel r c n x x' e =
    let e1 =
      append_cancel_left (b'.' ∷ []) _ _ (append_cancel_left (get_resource_name r).0 _ _ e) in
    let e2 = append_cancel_left (b'.' ∷ []) _ _ (append_cancel_left c _ _ e1) in
    append_cancel_left (b'.' ∷ []) _ _ (append_cancel_left n _ _ e2)

-- The object x in namespace n of a cluster c.d and the object n.x in namespace d of cluster c have
-- one manifest: a cluster id with a "." shares the manifests of another cluster.
pub get_normalized_manifest_name_collision :
    (r : Rest) (c d n x : Text)
    → get_normalized_manifest_name r (c ++ b'.' ∷ d) n x
      ≡ get_normalized_manifest_name r c d (n ++ b'.' ∷ x)
unfolding get_normalized_manifest_name
get_normalized_manifest_name_collision r c d n x =
    rw (append_assoc c (b'.' ∷ d) (b'.' ∷ (n ++ b'.' ∷ x)))

-- The part before the first "/" is the resource; a name without one is the resource itself.
pub get_resource_name_sub :
    (r : Rest) (resource sub : Text)
    → Lacks b'/' resource
    → r.name ≡ resource ++ b'/' ∷ sub
    → (get_resource_name r).0 ≡ resource
unfolding get_resource_name
get_resource_name_sub r resource sub h e =
    ground (arith, contains_byte-append b'/' resource sub, split_first-Lacks b'/' resource sub h)

pub get_resource_name_plain : (r : Rest) → Lacks b'/' r.name → get_resource_name r ≡ (r.name, [])
unfolding get_resource_name
get_resource_name_plain r h = rw (contains_byte-Lacks b'/' r.name h)
