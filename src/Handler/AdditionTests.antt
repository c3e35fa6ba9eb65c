-- ===== src/Handler/AdditionTests.antt =====
-- An instance of the theorem on `addCustomResourceDefinition` of customresource_handler.go: the first
-- definition that a handler gets.
use external_crd.Prelude.{◌≡◌, ◌⊎◌, some, false, List, []}
use external_crd.Prelude.Text.{codes}
use external_crd.Handler.Discovery.{new_discovery}
use external_crd.Handler.State.{Route, Handler}
use external_crd.Handler.Storage.Decided.{IsUnchanged, Eligible}
use external_crd.Handler.Events.{is_own, add_custom_resource_definition}
use external_crd.Handler.Events.Addition.{IsServing, add_event_decided}
use external_crd.Handler.Tests.{lister, foos_of, functions, services, fresh}

-- A handler behind `SetRootWebService`.
abbrev ready : Handler (List Route)
ready = record fresh { ws = some []; discovery = some (new_discovery []) }

add_event_decided_example :
    ((is_own (foos_of (codes "a")) ≡ false)
      × Eligible functions services lister ready (foos_of (codes "a"))
      × IsServing functions services lister ready
          (foos_of (codes "a"))
          (add_custom_resource_definition functions services lister ready (foos_of (codes "a"))).1)
    ⊎ (IsUnchanged
          (List Route)
          ready
          (add_custom_resource_definition functions services lister ready (foos_of (codes "a"))).1
        × ¬ (
            (is_own (foos_of (codes "a")) ≡ false)
            × Eligible functions services lister ready (foos_of (codes "a"))))
add_event_decided_example = add_event_decided functions services lister ready (foos_of (codes "a"))
