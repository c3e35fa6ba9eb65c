-- ===== src/Handler/Storage/Decided.antt =====
-- For which definitions `addStorage` of customresource_handler.go makes a storage: for the others both maps
-- stay as they were.
use external_crd.Prelude.{
  ◌≡◌, refl, sym, ◌∙◌, ◌⊎◌, Bool, inl, inr, Bool-cases, true, Option, none, some, arith,
  if◌then◌else◌,
}
use mathlib.Core.Path.{subst}
use external_crd.Prelude.Text.{Text}
use external_crd.Prelude.Maps.{Map}
use external_crd.Prelude.Outcome.{Outcome, ok, ok_injective, err, panic}
use external_crd.Handler.Priority.{GroupPriority, ApiServiceLister, can_be_added_to_storage}
use external_crd.Handler.Crd.{Crd, CrdFunctions, Subresources}
use external_crd.Handler.Discovery.{Discovery, update_crd}
use external_crd.Handler.State.{WebServices, Handler, is_some}
use external_crd.Handler.Storage.{
  add_with_subresources, add_discovered, add_allowed, add_version, add_stored, add_to, add_storage,
}
use external_crd.Handler.Storage.Added.{IsStorable}

-- The maps of storages and of request scopes are as they were.
pub record IsUnchanged (W : Type 0) (h h' : Handler W) : Type 0 where
  pub storages : h'.storages ≡ h.storages
  pub request_scopes : h'.request_scopes ≡ h.request_scopes

module _ {W : Type 0} (f : CrdFunctions) (w : WebServices W) (lister : ApiServiceLister) where
  -- The handler may store the definition.
  abbrev pub Eligible : Handler W → Crd → Type 0
  Eligible h crd =
      (ws : W) × (d : Discovery) × (version : Text) × (subs : Option Subresources) × IsStorable f w
        lister h crd ws d version subs

  -- The condition holds, or the maps are as they were.
  abbrev pub Decided : Type 0 → Handler W → Handler W → Type 0
  Decided E h h' = E ⊎ (IsUnchanged W h h' × (E → ⊥))

  module _ (h : Handler W) (crd : Crd) where
    abbrev WithSubresources : Text → Type 0
    WithSubresources version =
        (subs : Option Subresources) × (f.get_subresources crd version ≡ ok subs)

    abbrev WithDiscovery : Text → Type 0
    WithDiscovery version = (d : Discovery) × (h.discovery ≡ some d) × WithSubresources version

    abbrev WithVersion : Text → Type 0
    WithVersion version =
        (f.has_served_version crd version ≡ true)
        × ((can_be_added_to_storage crd.group version crd.plural lister h.priorities).0 ≡ true)
        × WithDiscovery version

    abbrev WithStored : Type 0
    WithStored = (version : Text) × (f.get_storage_version crd ≡ ok version) × WithVersion version

    abbrev WithRoot : Type 0
    WithRoot = (ws : W) × (h.ws ≡ some ws) × WithStored

    subresources-Decided :
        (h' : Handler W) (ws : W) (version : Text) (o : Outcome (Option Subresources))
        → f.get_subresources crd version ≡ o
        → IsUnchanged W h h'
        → Decided (WithSubresources version) h (add_with_subresources f w h' ws crd version o).1
    unfolding add_with_subresources
    subresources-Decided h' ws version (ok subs) e u = inl (subs, e)
    subresources-Decided h' ws version (err x) e u =
        inr (u, λ p. absurd (ground (arith, sym e ∙ p.1)))
    subresources-Decided h' ws version panic e u =
        inr (u, λ p. absurd (ground (arith, sym e ∙ p.1)))

    discovery-Decided :
        (h' : Handler W) (ws : W) (version : Text) (o : Option Discovery)
        → h.discovery ≡ o
        → IsUnchanged W h h'
        → Decided (WithDiscovery version) h (add_discovered f w h' o ws crd version).1
    unfolding add_discovered
    discovery-Decided h' ws version none e u = inr (u, λ p. absurd (ground (arith, sym e ∙ p.1)))
    discovery-Decided h' ws version (some d) e u =
        elim (subresources-Decided (record h' { discovery = some (update_crd f d crd) }) ws version
          (f.get_subresources crd version) refl
          (record { storages = u.storages; request_scopes = u.request_scopes })) [
            | inl p ↦ inl (d, e, p)
            | inr (u', refused) ↦ inr (u', λ p. refused p.2)
          ]

    version-Decided :
        (ws : W) (version : Text)
        → Decided (WithVersion version) h (add_version f w lister h ws crd version).1
    unfolding add_version add_allowed
    version-Decided ws version = elim (Bool-cases (f.has_served_version crd version)) [
      | inr e ↦ rw e (inr (unchanged, λ p. absurd (ground (arith, p.0))))
      | inl e ↦ rw e (elim (Bool-cases called.0) [
        | inr r ↦ rw r (inr (unchanged', λ p. absurd (ground (arith, p.1))))
        | inl a ↦ rw a (elim (discovery-Decided h' ws version h.discovery refl unchanged') [
          | inl p ↦ inl (refl, refl, p)
          | inr (u, refused) ↦ inr (u, λ p. refused p.2)
        ])
      ])
    ]
      where
        called : Bool × Map GroupPriority
        called = can_be_added_to_storage crd.group version crd.plural lister h.priorities

        h' : Handler W
        h' = record h { priorities = called.1 }

        unchanged : IsUnchanged W h h
        unchanged = record { storages = refl; request_scopes = refl }

        unchanged' : IsUnchanged W h h'
        unchanged' = record { storages = refl; request_scopes = refl }

    stored-Decided :
        (ws : W) (o : Outcome Text)
        → f.get_storage_version crd ≡ o
        → Decided WithStored h (add_stored f w lister h ws crd o).1
    unfolding add_stored
    stored-Decided ws (ok version) e = elim (version-Decided ws version) [
      | inl p ↦ inl (version, e, p)
      | inr (u, refused) ↦ inr (u, λ p. refused (same_version p))
    ]
      where
        same_version : WithStored → WithVersion version
        same_version p =
            let same : p.0 ≡ version = ok_injective (sym p.1 ∙ e) in subst WithVersion same p.2
    stored-Decided ws (err x) e = inr (
      record { storages = refl; request_scopes = refl },
      λ p. absurd (ground (arith, sym e ∙ p.1)),
    )
    stored-Decided ws panic e = inr (
      record { storages = refl; request_scopes = refl },
      λ p. absurd (ground (arith, sym e ∙ p.1)),
    )

    root-Decided : (o : Option W) → h.ws ≡ o → Decided WithRoot h (add_to f w lister h o crd).1
    unfolding add_to
    root-Decided none e = inr (
      record { storages = refl; request_scopes = refl },
      λ p. absurd (ground (arith, sym e ∙ p.1)),
    )
    root-Decided (some ws) e = elim (stored-Decided ws (f.get_storage_version crd) refl) [
      | inl p ↦ inl (ws, e, p)
      | inr (u, refused) ↦ inr (u, λ p. refused p.2)
    ]

    alive-Decided :
        (o : Option Text)
        → crd.deletion_timestamp ≡ o
        → Decided
            (Eligible h crd)
            h
            (if is_some o then (ok tt, h) else add_to f w lister h h.ws crd).1
    alive-Decided (some t) e = inr (
      record { storages = refl; request_scopes = refl },
      λ (ws, d, version, subs, p). absurd (ground (arith, sym e ∙ p.alive)),
    )
    alive-Decided none e = elim (root-Decided h.ws refl) [
      | inl (ws, rooted, (version, storage, (served, allowed, (d, discovered, (subs, found))))) ↦
          inl (
            ws,
            d,
            version,
            subs,
            record {
              alive = e;
              rooted = rooted;
              discovered = discovered;
              storage_version = storage;
              served = served;
              allowed = allowed;
              subresources = found;
            },
          )
      | inr (u, refused) ↦ inr (
        u,
        λ (ws, d, version, subs, p). refused (
          ws,
          p.rooted,
          (
            version,
            p.storage_version,
            (p.served, p.allowed, (d, p.discovered, (subs, p.subresources))),
          ),
        ),
      )
    ]

    pub add_storage-Decided : Decided (Eligible h crd) h (add_storage f w lister h crd).1
    unfolding add_storage
    add_storage-Decided = alive-Decided crd.deletion_timestamp refl
