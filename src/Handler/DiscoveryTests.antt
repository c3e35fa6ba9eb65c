-- ===== src/Handler/DiscoveryTests.antt =====
-- Instances of the theorems on version discovery of customresource_handler.go.
use external_crd.Prelude.{◌≡◌, refl, ◌&&◌, ◌++◌, true, none, some, [], ◌∷◌, if◌then◌else◌}
use external_crd.Prelude.Text.{Text, codes, str_eq}
use external_crd.Handler.Discovery.{ApiResource, Discovery, update_crd, remove_crd}
use external_crd.Handler.Discovery.Laws.{find, IsUnique}
use external_crd.Handler.Discovery.Listed.{
  set, Serves, this, entry, scale_entry, is_taken, find-update_crd, discovery_keeps_names,
}
use external_crd.Handler.Tests.{version, functions, foos_of, empty}

abbrev named : Text → ApiResource
named n = record (entry functions (foos_of (codes "a")) (codes "v1")) { name = n }

-- A definition, one of its subresources, and a definition whose name begins alike.
abbrev listing : Discovery
listing = record {
  non_crd_api_resources = [];
  crd_api_resources =
      named (codes "foos") ∷ named (codes "foos/scale") ∷ named (codes "foosets") ∷ [];
}

foos-Serves : Serves (foos_of (codes "a")).versions (codes "v1") true
foos-Serves = this version refl refl (set (record { status = true; scale = true }))

find-update_crd_example :
    find (codes "foos/scale") (update_crd functions empty (foos_of (codes "a"))).crd_api_resources
    ≡ (if true && str_eq (codes "foos" ++ codes "/scale") (codes "foos/scale")
        then some (scale_entry functions (foos_of (codes "a")))
        else if str_eq (codes "foos") (codes "foos/scale")
        then some (entry functions (foos_of (codes "a")) (codes "v1"))
        else find (codes "foos/scale") [])
find-update_crd_example =
    find-update_crd functions empty (foos_of (codes "a")) (codes "foos/scale") (codes "v1") true
      foos-Serves

discovery_keeps_names_example :
    IsUnique (update_crd functions listing (foos_of (codes "a"))).crd_api_resources
    × IsUnique (remove_crd listing (foos_of (codes "a"))).crd_api_resources
    × (find (codes "foosets") (remove_crd listing (foos_of (codes "a"))).crd_api_resources ≡ (
        if is_taken (codes "foos") (codes "foosets")
        then none
        else find (codes "foosets") listing.crd_api_resources))
discovery_keeps_names_example =
    discovery_keeps_names functions listing (foos_of (codes "a")) (codes "foosets") unique
  where
    unique : IsUnique listing.crd_api_resources
    unique = unfold codes in unfold str_eq in ((refl, (refl, tt)), ((refl, tt), (tt, tt)))
