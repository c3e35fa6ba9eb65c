-- ===== src/Rest/Example/Changing.antt =====
-- How the API server of Rest/Example.antt updates and deletes.
use external_crd.Prelude.{◌≡◌, refl, ap, ◌≢◌, true, false, Option, none, some, [], arith}
use external_crd.Prelude.Text.{Text}
use external_crd.Prelude.Text.Laws.{str_eq_refl}
use external_crd.Prelude.Maps.{lookup, lookup-delete}
use external_crd.Prelude.Outcome.{ok}
use external_crd.Rest.Objects.{KubernetesCrd}
use external_crd.Rest.Crud.Store.{UpdateLaws, DeleteLaws}
use external_crd.Rest.Example.{
  machinery, Server, named, stored, updated, deleted, backend, updated_stores, encoded_raw,
}

pub deleted_removes :
    (n : Text) (s : Server) (o : Option (KubernetesCrd Text))
    → (deleted n s o).0 ≡ ok tt
    → stored (deleted n s o).1 [] n ≡ none
deleted_removes n s none h = absurd (ground arith)
deleted_removes n s (some c) h = rw (lookup-delete n n s, str_eq_refl n) refl

pub updated_present :
    (crd saved : KubernetesCrd Text) (s s' : Server) (o : Option (KubernetesCrd Text))
    → updated crd s o ≡ (ok saved, s')
    → named crd.meta.name o ≢ none
updated_present crd saved s s' none h e = absurd (ground arith)
updated_present crd saved s s' (some c) h e = absurd (ground arith)

pub deleted_present :
    (name : Text) (s : Server) (o : Option (KubernetesCrd Text))
    → (deleted name s o).0 ≡ ok tt
    → named name o ≢ none
deleted_present name s none h e = absurd (ground arith)
deleted_present name s (some c) h e = absurd (ground arith)

-- None of this server's updates is a dry run, and its deletes are at once.
unfoldable pub update_laws : UpdateLaws machinery backend stored
update_laws = record {
  is_dry_run = λ o. false;
  update_stores = λ ns crd old saved o s s' real there alive h.
      (updated_stores crd saved s s' (lookup crd.meta.name s) h).0;
  update_dry_run = λ ns crd o s n dry. absurd (ground arith);
  update_present =
      λ ns crd saved o s s' h. updated_present crd saved s s' (lookup crd.meta.name s) h;
  update_encodes = λ ns crd saved o s s' u h e.
      rw ((updated_stores crd saved s s' (lookup crd.meta.name s) h).1)
        (ap ok (encoded_raw crd.manifest u e));
  update_labelled = λ ns crd saved o s s' h.
      rw ((updated_stores crd saved s s' (lookup crd.meta.name s) h).1) refl;
}

unfoldable pub delete_laws : DeleteLaws machinery backend stored
delete_laws = record {
  is_at_once = λ o. true;
  delete_present = λ ns name o s h. deleted_present name s (lookup name s) h;
  delete_removes = λ ns name o s crd now there free h. deleted_removes name s (lookup name s) h;
}
