-- ===== src/Rest/Example/Requests.antt =====
-- Two resources, two callers and an object, for the instances of theorems about rest.go.
use external_crd.Prelude.{ℕ, ◌≡◌, refl, ◌≢◌, none, some, true, false, [], ◌∷◌, arith}
use external_crd.Prelude.Text.{
  Text, codes, Lacks, is_empty, str_eq, has_prefix, last_index, contains_byte,
}
use external_crd.Prelude.Outcome.{ok}
use external_crd.Rest.User.{Context, get_user, get_cluster_namespace, username_prefix}
use external_crd.Rest.Objects.{Rest}
use external_crd.Rest.Names.{
  new_rest, set_name, set_namespace_scoped, set_kind, set_group, set_version, get_resource_name,
}
use external_crd.Rest.DryRun.{moves_namespace, is_namespace_kind}
use external_crd.Rest.Example.{object}

abbrev pub foos : Rest
foos =
    set_version
      (set_group
        (set_kind
          (set_namespace_scoped (set_name (new_rest (codes "reserved")) (codes "foos")) true)
          (codes "Foo"))
        (codes "example.com"))
      (codes "v1")

abbrev pub bars : Rest
bars = set_kind (set_name foos (codes "bars")) (codes "Bar")

abbrev pub request : Context
request = record {
  user = some (codes "system:serviceaccount:external-crd-system:biz-ab12-c1-ab12-team");
  namespace = codes "team";
}

abbrev pub stranger : Context
stranger = record { user = none; namespace = codes "team" }

abbrev pub item : Text
item = object (codes "x") (codes "team")

pub request_authorized : get_user request ≡ ok (codes "c1")
unfolding get_user get_cluster_namespace username_prefix codes is_empty has_prefix last_index str_eq
request_authorized = refl

pub stranger_refused : (cluster : Text) → get_user stranger ≢ ok cluster
unfolding get_user
stranger_refused cluster h = ground arith

pub foos_moves : moves_namespace foos ≡ true
unfolding moves_namespace is_namespace_kind codes str_eq
foos_moves = refl

Lacks-checked : (c : ℕ) (s : Text) → contains_byte c s ≡ false → Lacks c s
unfolding contains_byte
Lacks-checked c [] h = tt
Lacks-checked c (a ∷ s) h = (ground arith, Lacks-checked c s (ground arith))

pub foos-Lacks : Lacks b'.' (get_resource_name foos).0
unfolding codes contains_byte get_resource_name
foos-Lacks = Lacks-checked b'.' (codes "foos") refl

pub bars-Lacks : Lacks b'.' (get_resource_name bars).0
unfolding codes contains_byte get_resource_name
bars-Lacks = Lacks-checked b'.' (codes "bars") refl

pub c1-Lacks : Lacks b'.' (codes "c1")
unfolding codes contains_byte
c1-Lacks = Lacks-checked b'.' (codes "c1") refl

pub c2-Lacks : Lacks b'.' (codes "c2")
unfolding codes contains_byte
c2-Lacks = Lacks-checked b'.' (codes "c2") refl

pub team-Lacks : Lacks b'.' (codes "team")
unfolding codes contains_byte
team-Lacks = Lacks-checked b'.' (codes "team") refl
