-- ===== src/Handler/Groups/Checks.antt =====
-- `installAPIGroups` of apiserver.go looks at every group before it installs one.
use external_crd.Prelude.{◌≡◌, ◌≢◌, ◌⊎◌, inl, inr, List, [], ◌∷◌, ◌++◌, arith}
use external_crd.Prelude.Text.{Text, is_empty}
use external_crd.Prelude.Outcome.{ok, then_do-eq-ok, checked, unchecked}
use external_crd.Handler.Crd.{CrdFunctions}
use external_crd.Handler.State.{WebServices}
use external_crd.Handler.Install.{GroupInfo}
use external_crd.Handler.Groups.{
  Containers, Server, check_group, check_groups, install_groups, install_api_groups,
}

-- The first version of the group has no group or no version.
pub record IsNameless (info : GroupInfo) : Type 0 where
  pub first : Text × Text
  pub others : List (Text × Text)
  pub versions : info.prioritized_versions ≡ first ∷ others
  pub nameless : (first.0 ≡ []) ⊎ (first.1 ≡ [])

check_group-IsNameless : (info : GroupInfo) → IsNameless info → check_group info ≢ ok tt
unfolding check_group is_empty
check_group-IsNameless info n e = elim (n.nameless) [
  | inl g ↦ absurd (ground (arith, rw (n.versions, g) at e))
  | inr v ↦ absurd (ground (arith, rw (n.versions, v) at e))
]

check_groups-IsNameless :
    (before after : List GroupInfo) (info : GroupInfo)
    → IsNameless info
    → check_groups (before ++ info ∷ after) ≢ ok tt
unfolding check_groups
check_groups-IsNameless [] after info n e =
    let (u, checked, _) = then_do-eq-ok (check_group info) (λ _. check_groups after) e in
    check_group-IsNameless info n checked
check_groups-IsNameless (b ∷ before) after info n e =
    let (u, _, later) =
      then_do-eq-ok (check_group b) (λ _. check_groups (before ++ info ∷ after)) e in
    check_groups-IsNameless before after info n later

module _ {W C I : Type 0} (f : CrdFunctions) (w : WebServices W) (c : Containers W C I) where
  -- If one of the groups has a first version without a group or without a version, then
  -- `installAPIGroups` does not succeed and has changed nothing, whatever groups stand before it.
  pub install_api_groups_checked :
      (before after : List GroupInfo) (info : GroupInfo) (s : Server W C I)
      → IsNameless info
      → ((install_api_groups f w c (before ++ info ∷ after) s).1 ≡ s)
        × ((install_api_groups f w c (before ++ info ∷ after) s).0 ≢ ok tt)
  unfolding install_api_groups
  install_api_groups_checked before after info s n =
      let infos = before ++ info ∷ after in
      let refused = check_groups-IsNameless before after info n in
      let next = λ (_ : Unit). install_groups f w c infos in
      (
        unchecked (check_groups infos) next s (λ u h. refused h),
        λ h. let (u, passed, _) = checked (check_groups infos) next s tt h in refused passed,
      )
