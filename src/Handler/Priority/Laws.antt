-- ===== src/Handler/Priority/Laws.antt =====
-- The priority that is recorded for a resource only grows, and decides which group is stored.
use external_crd.Prelude.{
  ◌+◌, ◌≤◌, ◌≡◌, Bool-cases, true, false, inl, inr, Option, Option-cases, none, some, List, [], ◌∷◌,
  arith,
}
use external_crd.Prelude.Text.{Text, str_eq}
use external_crd.Prelude.Text.Laws.{str_eq_iff}
use external_crd.Prelude.Maps.{Map, lookup, put, lookup-put}
use external_crd.Prelude.Int.{ℤ, pos_part, neg_part, ltb_ℤ}
use external_crd.Handler.Priority.{
  GroupPriority, ApiService, ApiServiceLister, get_api_service, is_outranked, record_priority,
  can_be_added_to_storage,
}

-- a ≤ b
infix 50 ◌≤ℤ◌
abbrev pub ◌≤ℤ◌ : ℤ → ℤ → Type 0
a ≤ℤ b = pos_part a + neg_part b ≤ pos_part b + neg_part a

-- The priority recorded first is at most the one recorded later, and is not lost.
abbrev pub AtMost : Option GroupPriority → Option GroupPriority → Type 0
AtMost none later = Unit
AtMost (some a) none = ⊥
AtMost (some a) (some b) = a.group_priority_minimum ≤ℤ b.group_priority_minimum

AtMost-refl : (a : Option GroupPriority) → AtMost a a
AtMost-refl none = tt
AtMost-refl (some a) = omega arith

AtMost-trans : (a b c : Option GroupPriority) → AtMost a b → AtMost b c → AtMost a c
AtMost-trans none b c h k = tt
AtMost-trans (some a) none c h k = absurd h
AtMost-trans (some a) (some b) none h k = k
AtMost-trans (some a) (some b) (some c) h k = omega arith

-- What a service that is not outranked records is at least what was recorded.
AtMost-recorded :
    (old : Option GroupPriority) (service : ApiService) (name : Text)
    → is_outranked old service ≡ false
    → AtMost old (
        some (record {
          group_version_name = name;
          group_priority_minimum = service.group_priority_minimum;
        }))
unfolding is_outranked
AtMost-recorded none service name h = tt
AtMost-recorded (some gp) service name h = ground arith

-- A call for one resource.
pub record Request : Type 0 where
  pub group : Text
  pub version : Text
  pub resource : Text

-- The map after a sequence of calls.
pub after_requests : ApiServiceLister → List Request → Map GroupPriority → Map GroupPriority
after_requests lister [] m = m
after_requests lister (q ∷ qs) m =
    after_requests lister qs (can_be_added_to_storage q.group q.version q.resource lister m).1

module _ (lister : ApiServiceLister) where
  AtMost-put :
      (m : Map GroupPriority) (resource j : Text) (service : ApiService)
      → is_outranked (lookup resource m) service ≡ false
      → AtMost (lookup j m) (
          lookup j (
            put resource
              (record {
                group_version_name = service.name;
                group_priority_minimum = service.group_priority_minimum;
              })
              m))
  AtMost-put m resource j service h = rw lookup-put (elim (Bool-cases (str_eq resource j)) [
    | inl e ↦
        rw (e, ← (str_eq_iff resource j).0 e)
          (AtMost-recorded (lookup resource m) service service.name h)
    | inr e ↦ rw e (AtMost-refl (lookup j m))
  ])

  AtMost-record :
      (o : Option ApiService) (resource : Text) (m : Map GroupPriority) (j : Text)
      → AtMost (lookup j m) (lookup j (record_priority o resource m).1)
  unfolding record_priority
  AtMost-record none resource m j = AtMost-refl (lookup j m)
  AtMost-record (some service) resource m j =
      elim (Bool-cases (is_outranked (lookup resource m) service)) [
        | inl low ↦ rw low (AtMost-refl (lookup j m))
        | inr high ↦ rw high (AtMost-put m resource j service high)
      ]

  AtMost-request :
      (q : Request) (m : Map GroupPriority) (j : Text)
      → AtMost
          (lookup j m)
          (lookup j (can_be_added_to_storage q.group q.version q.resource lister m).1)
  unfolding can_be_added_to_storage
  AtMost-request q m j = AtMost-record (get_api_service q.group q.version lister) q.resource m j

  -- Whatever calls of `canBeAddedToStorage` are made with one lister, the priority that is
  -- recorded for a resource never falls, and a recorded resource stays recorded.
  pub priority_monotone :
      (qs : List Request) (m : Map GroupPriority) (j : Text)
      → AtMost (lookup j m) (lookup j (after_requests lister qs m))
  unfolding after_requests
  priority_monotone [] m j = AtMost-refl (lookup j m)
  priority_monotone (q ∷ qs) m j =
      let m' = (can_be_added_to_storage q.group q.version q.resource lister m).1 in
      AtMost-trans (lookup j m) (lookup j m') (lookup j (after_requests lister qs m'))
        (AtMost-request q m j) (priority_monotone qs m' j)

  -- If the priority that is recorded for a resource is higher than that of a group's API service,
  -- then `canBeAddedToStorage` refuses the resource to that group after any calls with that
  -- lister: no call lowers a priority.
  pub outranked_for_good :
      (qs : List Request) (q : Request) (m : Map GroupPriority) (gp : GroupPriority)
      (service : ApiService)
      → lookup q.resource m ≡ some gp
      → get_api_service q.group q.version lister ≡ some service
      → ltb_ℤ service.group_priority_minimum gp.group_priority_minimum ≡ true
      → (can_be_added_to_storage q.group q.version q.resource lister (after_requests lister qs m)).0
        ≡ false
  unfolding can_be_added_to_storage record_priority is_outranked
  outranked_for_good qs q m gp service recorded found lower =
      let grown : AtMost (some gp) (lookup q.resource (after_requests lister qs m)) =
        rw (← recorded) (priority_monotone qs m q.resource) in
      elim (Option-cases (lookup q.resource (after_requests lister qs m))) [
        | inl e ↦ absurd (rw e at grown)
        | inr (gp', e) ↦ let more : AtMost (some gp) (some gp') = rw e at grown in ground arith
      ]
