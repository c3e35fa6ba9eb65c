-- ===== src/Setup/Server/Serving.antt =====
-- What the hooks of pkg/apiserver/server.go and options.go do to the factory of informers of manifests,
-- in every order in which they take its lock.
use external_crd.Prelude.{◌≡◌, refl, sym, ◌∙◌, ap, none, some, List, [], ◌∷◌, ◌++◌}
use mathlib.Core.Path.{subst}
use external_crd.Prelude.Text.{codes, str_eq}
use external_crd.Prelude.Maps.{lookup, put}
use external_crd.Prelude.Outcome.{ok, lift, bind-eq-ok}
use external_crd.Setup.Factory.{
  Factory, apply_options, with_namespace, with_tweak_list_options, informer_for,
  kubernetes_crd_informer, new_shared_informer_factory, new_shared_informer_factory_with_options,
  new_filtered_shared_informer_factory,
}
use external_crd.Setup.Factory.Calls.{
  Call, asking, starting, perform, perform_all, perform_all_keeps, IsShared, start-IsShared,
}
use external_crd.Setup.Server.{
  Hook, start_external_crd_overlay_apis, start_shared_informers_controllers, ApiServer,
  ServerLibrary, default_resync, new_server, run_hook,
}

module _ {R C V N T : Type 0} (l : ServerLibrary R C V N T) where
  -- The hooks' calls, in the order in which they come.
  abbrev pub run_hooks : List Hook → Factory N T → Factory N T
  run_hooks [] f = f
  run_hooks (h ∷ hooks) f = run_hooks hooks (run_hook l h f)

  -- The calls of the factory that they make.
  abbrev request : Factory N T → Call N
  request f =
      asking (codes "KubernetesCrd") λ resync. l.make f.namespace resync f.tweak_list_options

  abbrev call_of : Hook → Factory N T → Call N
  call_of start_external_crd_overlay_apis f = request f
  call_of start_shared_informers_controllers f = starting

  run_hook-perform : (h : Hook) (f : Factory N T) → run_hook l h f ≡ perform (call_of h f) f
  unfolding run_hook kubernetes_crd_informer
  run_hook-perform start_external_crd_overlay_apis f = refl
  run_hook-perform start_shared_informers_controllers f = refl

  calls_of : List Hook → Factory N T → List (Call N)
  calls_of [] f = []
  calls_of (h ∷ hooks) f = call_of h f ∷ calls_of hooks (run_hook l h f)

  run_hooks-perform_all :
      (hooks : List Hook) (f : Factory N T) → run_hooks hooks f ≡ perform_all (calls_of hooks f) f
  unfolding calls_of
  run_hooks-perform_all [] f = refl
  run_hooks-perform_all (h ∷ hooks) f =
      run_hooks-perform_all hooks (run_hook l h f)
      ∙ ap (perform_all (calls_of hooks (run_hook l h f))) (run_hook-perform h f)

  calls_of-append :
      (before after : List Hook) (f : Factory N T)
      → calls_of (before ++ start_shared_informers_controllers ∷ after) f
        ≡ calls_of before f
          ++ starting
            ∷ calls_of after (run_hook l start_shared_informers_controllers (run_hooks before f))
  unfolding calls_of
  calls_of-append [] after f = refl
  calls_of-append (h ∷ before) after f =
      ap (λ x. call_of h f ∷ x) (calls_of-append before after (run_hook l h f))

  -- The informer of manifests of all namespaces.
  abbrev pub manifests : N
  manifests = l.make [] default_resync none

  asked :
      (config : C) (server : ApiServer V) (f : Factory N T)
      → new_server l config (new_shared_informer_factory default_resync) ≡ (ok server, f)
      → f
        ≡ perform_all
            (request (new_shared_informer_factory default_resync) ∷ [])
            (new_filtered_shared_informer_factory default_resync [] none)
  unfolding new_server new_shared_informer_factory new_filtered_shared_informer_factory
      new_shared_informer_factory_with_options apply_options with_namespace with_tweak_list_options
      kubernetes_crd_informer
  asked config server f h =
      let (generic, _, e) = bind-eq-ok (lift (l.new_generic_server config)) _ _ h in
      sym (ap (λ x. x.1) e)

  known :
      lookup
        (codes "KubernetesCrd")
        (perform_all {T = T}
          (request (new_shared_informer_factory default_resync) ∷ [])
          (new_filtered_shared_informer_factory default_resync [] none)).informers
      ≡ some manifests
  unfolding new_shared_informer_factory new_filtered_shared_informer_factory
      new_shared_informer_factory_with_options apply_options with_namespace with_tweak_list_options
      informer_for lookup put codes str_eq
  known = refl

  -- If `New` makes a server, then in whatever order, and however often, its hook and the hook of
  -- `Run` call the factory, once the hook of `Run` has started it exactly one goroutine runs an
  -- informer of manifests, it is that for all namespaces with the default resync time, and the
  -- factory answers with it.
  pub hooks-IsShared :
      (config : C) (server : ApiServer V) (f : Factory N T) (before after : List Hook)
      → new_server l config (new_shared_informer_factory default_resync) ≡ (ok server, f)
      → IsShared
          (codes "KubernetesCrd")
          manifests
          (run_hooks (before ++ start_shared_informers_controllers ∷ after) f)
  hooks-IsShared config server f before after h =
      let f0 = new_filtered_shared_informer_factory {N = N} {T = T} default_resync [] none in
      let first = request (new_shared_informer_factory default_resync) in
      let hooks = before ++ start_shared_informers_controllers ∷ after in
      let later =
        calls_of after (run_hook l start_shared_informers_controllers (run_hooks before f)) in
      subst (IsShared (codes "KubernetesCrd") manifests)
        (sym (
          run_hooks-perform_all hooks f
          ∙ ap (λ x. perform_all x f) (calls_of-append before after f)
          ∙ ap (perform_all (calls_of before f ++ starting ∷ later)) (asked config server f h)))
        (start-IsShared default_resync [] none (first ∷ calls_of before f) later
          (codes "KubernetesCrd") manifests
          (perform_all_keeps (calls_of before f) (perform first f0) (codes "KubernetesCrd")
            manifests known))
