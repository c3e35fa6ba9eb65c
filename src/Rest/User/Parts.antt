-- ===== src/Rest/User/Parts.antt =====
-- `getClusterNamespace` on a name with the right prefix, by what follows the prefix.
use external_crd.Prelude.{
  ℕ, ◌+◌, ◌-◌, ◌≤◌, ◌<◌, ◌≡◌, refl, ◌⊎◌, inl, inr, false, none, some, ◌++◌, arith, ◌==◌,
  if◌then◌else◌, length, take, drop, length-append, drop-append, length-take_of_le, length-drop,
  drop-add,
}
use external_crd.Prelude.Text.{Text, codes, is_empty, has_prefix, last_index}
use external_crd.Prelude.Text.Laws.{
  has_prefix-append, length-le_of_has_prefix, last_index-append, last_index-occurs,
}
use external_crd.Prelude.Outcome.{ok, panic}
use external_crd.Rest.User.{
  slice, slice_from, username_prefix, cluster_and_namespace, split_username, get_cluster_namespace,
}

is_empty-prefix : (t : Text) → is_empty (username_prefix ++ t) ≡ false
unfolding is_empty username_prefix codes
is_empty-prefix t = refl

pub drop-prefix : (p t : Text) (n : ℕ) → drop (length p + n) (p ++ t) ≡ drop n t
drop-prefix p t n = rw (drop-add, drop-append p t)

-- Slices of what follows a prefix, at offsets that are counted from the prefix's end.
module _ (p t : Text) (lo hi m n : ℕ) (from : lo ≡ length p + m) (to : hi ≡ length p + n) where
  slice-prefix : m ≤ n → n ≤ length t → slice (p ++ t) lo hi ≡ ok (take (n - m) (drop m t))
  unfolding slice
  slice-prefix h k =
      let width : hi - lo ≡ n - m = omega arith in
      rw (from) (rw (drop-prefix p t m) (ground (arith, length-append p t)))

  slice-prefix_out : (n < m) ⊎ (length t < n) → slice (p ++ t) lo hi ≡ panic
  unfolding slice
  slice-prefix_out h = ground (arith, length-append p t)

slice_from-prefix :
    (p t : Text) (lo m : ℕ)
    → lo ≡ length p + m
    → m ≤ length t
    → slice_from (p ++ t) lo ≡ ok (drop m t)
unfolding slice_from
slice_from-prefix p t lo m from h = rw (from, drop-prefix p t m) (ground (arith, length-append p t))

-- A name with another beginning is refused.
pub get_cluster_namespace_unprefixed :
    (u : Text) → has_prefix u username_prefix ≡ false → get_cluster_namespace u ≡ ok none
unfolding get_cluster_namespace
get_cluster_namespace_unprefixed u h = ground arith

module _ (t : Text) where
  -- With less than five bytes behind the prefix.
  pub get_cluster_namespace_short :
      length t < 5 → get_cluster_namespace (username_prefix ++ t) ≡ panic
  unfolding get_cluster_namespace
  get_cluster_namespace_short h = ground (
    arith,
    is_empty-prefix t,
    has_prefix-append username_prefix t,
    slice-prefix_out username_prefix t (length username_prefix) (length username_prefix + 4 + 1) 0 5
        (omega arith) (omega arith) (inr h),
  )

  module _ (i : ℕ) (enough : 5 ≤ length t) (found : last_index t (take 5 t) ≡ some i) where
    split_lem : get_cluster_namespace (username_prefix ++ t) ≡ (
        if i == 0
        then ok none
        else cluster_and_namespace
            (username_prefix ++ t)
            (length username_prefix)
            (length username_prefix + i)
            (take 5 t))
    unfolding get_cluster_namespace split_username
    split_lem = ground (
      arith,
      is_empty-prefix t,
      has_prefix-append username_prefix t,
      slice-prefix username_prefix t (length username_prefix) (length username_prefix + 4 + 1) 0 5
          (omega arith) (omega arith) (omega arith) enough,
      last_index-append username_prefix t (take 5 t) i found,
    )

    pub fits : i + 5 ≤ length t
    fits = omega (
      arith,
      length-le_of_has_prefix (drop i t) (take 5 t) (last_index-occurs t (take 5 t) i found),
      length-take_of_le 5 t enough,
      length-drop i t,
    )

    -- The delimiter stands behind the prefix only.
    pub get_cluster_namespace_once : i ≡ 0 → get_cluster_namespace (username_prefix ++ t) ≡ ok none
    get_cluster_namespace_once e = ground (arith, split_lem)

    -- The slice of the cluster has its end before its start.
    pub get_cluster_namespace_overlap :
        0 < i → i < 6 → get_cluster_namespace (username_prefix ++ t) ≡ panic
    unfolding cluster_and_namespace
    get_cluster_namespace_overlap lo hi = ground (
      arith,
      split_lem,
      length-take_of_le 5 t enough,
      slice-prefix_out username_prefix t (length username_prefix + length (take 5 t))
          (length username_prefix + i - 1) 5 (i - 1) (omega (arith, length-take_of_le 5 t enough))
          (omega arith) (inl (omega arith)),
    )

    pub get_cluster_namespace_parts :
        6 ≤ i
        → get_cluster_namespace (username_prefix ++ t)
          ≡ ok (some (take (i - 6) (drop 5 t), drop (i + 5) t))
    unfolding cluster_and_namespace
    get_cluster_namespace_parts lo = rw split_lem (
        ground (
          arith,
          slice-prefix username_prefix t (length username_prefix + length (take 5 t))
              (length username_prefix + i - 1) 5 (i - 1)
              (omega (arith, length-take_of_le 5 t enough)) (omega arith) (omega arith)
              (omega (arith, fits)),
          slice_from-prefix username_prefix t
              (length username_prefix + i - 1 + 1 + length (take 5 t)) (i + 5)
              (omega (arith, length-take_of_le 5 t enough)) fits,
          (let e : i - 1 - 5 ≡ i - 6 = omega arith in e),
        ))
