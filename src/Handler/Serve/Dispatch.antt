-- ===== src/Handler/Serve/Dispatch.antt =====
-- What `ServeHTTP` of `crdHandler` in customresource_handler.go gives the handlers of k8s.io/apiserver.
use external_crd.Prelude.{
  ◌≡◌, refl, Bool-cases, true, inl, inr, Option, none, some, arith, ◌⊎◌, if◌then◌else◌,
}
use external_crd.Prelude.Text.{Text, codes, str_eq, is_empty}
use external_crd.Prelude.Text.Laws.{str_eq_iff}
use external_crd.Prelude.Maps.{lookup}
use external_crd.Prelude.Int.{ℤ}
use external_crd.Prelude.Outcome.{ok, ok_injective}
use external_crd.Handler.Crd.{CrdFunctions}
use external_crd.Handler.State.{WebServices, Handler}
use external_crd.Handler.Storage.Consistent.{Agree}
use external_crd.Handler.Events.Reach.{Reach, Reach-IsConsistent}
use external_crd.Handler.Serve.{
  RequestInfo, Call, get_resource, list_resource, watch_resource, create_resource, update_resource,
  patch_resource, delete_resource, delete_collection, Dispatched, is_subresource_verb, call_of,
  refuse_verb, dispatch, serve_http,
}

-- The verb of a handler's requests.
abbrev pub verb_of : Call → Text
verb_of get_resource = codes "get"
verb_of list_resource = codes "list"
verb_of watch_resource = codes "watch"
verb_of create_resource = codes "create"
verb_of update_resource = codes "update"
verb_of patch_resource = codes "patch"
verb_of delete_resource = codes "delete"
verb_of delete_collection = codes "deletecollection"

-- The dispatch of a request in one state.
pub record IsDispatch (W : Type 0) (h : Handler W) (info : RequestInfo) (d : Dispatched)
    : Type 0 where
  pub verb : verb_of d.call ≡ info.verb
  pub storage : d.storage ≡ lookup info.resource h.storages
  pub scope : d.scope ≡ lookup info.resource h.request_scopes

switch_case :
    (v s : Text) (c d : Call) (rest : Option Call)
    → verb_of c ≡ s
    → (rest ≡ some d → verb_of d ≡ v)
    → (if str_eq v s then some c else rest) ≡ some d
    → verb_of d ≡ v
switch_case v s c d rest e other h = elim (Bool-cases (str_eq v s)) [
  | inl same ↦ let found = (str_eq_iff v s).0 same in cc
  | inr differs ↦ other (rw (← h, differs) refl)
]

call_of-verb : (v : Text) (c : Call) → call_of v ≡ some c → verb_of c ≡ v
unfolding call_of
call_of-verb v c h =
    switch_case v _ get_resource c _ refl
      (switch_case v _ list_resource c _ refl (
        switch_case v _ watch_resource c _ refl (
          switch_case v _ create_resource c _ refl (
            switch_case v _ update_resource c _ refl (
              switch_case v _ patch_resource c _ refl (
                switch_case v _ delete_resource c _ refl (
                  switch_case v _ delete_collection c _ refl
                    (λ (e : none ≡ some c). absurd (ground arith)))))))))
      h

module _ {W : Type 0} where
  dispatch-IsDispatch :
      (h : Handler W) (info : RequestInfo) (call : Option Call) (d : Dispatched)
      → ((c : Call) → call ≡ some c → verb_of c ≡ info.verb)
      → dispatch h info call ≡ ok d
      → IsDispatch W h info d
  unfolding dispatch refuse_verb
  dispatch-IsDispatch h info none d verb e = absurd (ground arith)
  dispatch-IsDispatch h info (some c) d verb e =
      rw (← ok_injective e) (record { verb = verb c refl; storage = refl; scope = refl })

  serve-IsDispatch :
      (h : Handler W) (info : RequestInfo) (d : Dispatched)
      → serve_http h (some info) ≡ ok d
      → IsDispatch W h info d
        × ((is_empty info.subresource ≡ true) ⊎ (is_subresource_verb info.verb ≡ true))
  unfolding serve_http refuse_verb
  serve-IsDispatch h info d e = elim (Bool-cases (is_empty info.subresource)) [
    | inl whole ↦
        (dispatch-IsDispatch h info _ d (call_of-verb info.verb) (rw (← e, whole) refl), inl whole)
    | inr sub ↦ elim (Bool-cases (is_subresource_verb info.verb)) [
      | inl allowed ↦ (
        dispatch-IsDispatch h info _ d (call_of-verb info.verb) (rw (← e, sub, allowed) refl),
        inr allowed,
      )
      | inr refused ↦ absurd (ground arith)
    ]
  ]

module _ {W : Type 0} (f : CrdFunctions) (w : WebServices W) (reserved : Text) (bytes : ℤ) where
  -- In every state that the handler can come to, a request that is handed on goes to the handler
  -- of its verb, has no subresource or the verb get, update or patch, and gets a storage and a
  -- request scope that are both missing, or that are both for its resource and agree on group,
  -- version, kind and scope.
  pub serve_http_coherent :
      {h : Handler W} (info : RequestInfo) (d : Dispatched)
      → Reach f w reserved bytes h
      → serve_http h (some info) ≡ ok d
      → (verb_of d.call ≡ info.verb)
        × ((is_empty info.subresource ≡ true) ⊎ (is_subresource_verb info.verb ≡ true))
        × Agree info.resource d.storage d.scope
  serve_http_coherent info d p e =
      let (is, allowed) = serve-IsDispatch _ info d e in
      let c = Reach-IsConsistent f w reserved bytes p in
      (is.verb, allowed, rw (is.storage, is.scope) (c.agree info.resource))
