-- ===== src/Setup/Factory/Tests.antt =====
-- An instance of the theorem on the factory of informers: two hooks that ask for the informer of
-- manifests and start the factory, in one of their orders. An informer is its resync time.
use external_crd.Prelude.{◌≡◌, refl, none, some, List, [], ◌∷◌, ◌++◌}
use external_crd.Prelude.Text.{codes, str_eq}
use external_crd.Prelude.Maps.{lookup, put}
use external_crd.Prelude.Int.{ℤ, pos}
use external_crd.Setup.Factory.{
  apply_options, with_namespace, with_tweak_list_options, informer_for,
  new_shared_informer_factory_with_options, new_filtered_shared_informer_factory,
}
use external_crd.Setup.Factory.Calls.{Call, asking, starting, perform_all, IsShared, start-IsShared}

abbrev make : ℤ → ℤ
make resync = resync

abbrev before : List (Call ℤ)
before = asking (codes "KubernetesCrd") make ∷ []

abbrev after : List (Call ℤ)
after = asking (codes "KubernetesCrd") make ∷ starting ∷ []

asked :
    lookup
      (codes "KubernetesCrd")
      (perform_all before
        (new_filtered_shared_informer_factory {N = ℤ} {T = Unit {0}} (pos 12) [] none)).informers
    ≡ some (pos 12)
unfolding new_filtered_shared_informer_factory new_shared_informer_factory_with_options
    apply_options with_namespace with_tweak_list_options informer_for lookup put str_eq codes
asked = refl

start-IsShared_example : IsShared {N = ℤ} {T = Unit {0}} (codes "KubernetesCrd") (pos 12) (
    perform_all
      (before ++ starting ∷ after)
      (new_filtered_shared_informer_factory (pos 12) [] none))
start-IsShared_example =
    start-IsShared (pos 12) [] none before after (codes "KubernetesCrd") (pos 12) asked
