-- ===== src/Datasets/Ledger.antt =====
-- The receipts of a dataset as its ledger: what a step of a transaction may do to heads, receipts and
-- transformations.
use data_analytics_platform.Base.{
  ℕ, ◌+◌, ◌≡◌, refl, sym, ap, ◌∙◌, subst, List, [], ◌∷◌, ◌++◌, String, Bool, true, false, some,
  ◌==◌,
}
use mathlib.Core.List.{append_assoc, append-nil}
use data_analytics_platform.Schema.Catalog.{Catalog, Dataset, Transformation, DatasetEvent}
use data_analytics_platform.Datasets.Session.{find_dataset, find_transformation}

-- A head: the version and the path.
abbrev pub Head : Type 0
Head = ℕ × String

abbrev pub head : Dataset → Head
head d = (d.version, d.stored_path)

-- Receipts that lead from one head of a dataset to another: each starts where the one before ended, and
-- adds one to the version. Receipts of other datasets may stand between.
abbrev pub Link : Bool → DatasetEvent → Head → Type 0 → Type 0 → Type 0
Link true e h next skip =
    (e.previous_version ≡ h.0) × (e.input_path ≡ h.1) × (e.result_version ≡ h.0 + 1) × next
Link false e h next skip = skip

abbrev pub Leads : ℕ → Head → List DatasetEvent → Head → Type 0
Leads id h [] h' = h' ≡ h
Leads id h (e ∷ es) h' =
    Link (e.dataset_id == id) e h (Leads id (e.result_version, e.output_path) es h')
      (Leads id h es h')

Leads-append :
    (id : ℕ) (h h' h'' : Head) (es fs : List DatasetEvent)
    → Leads id h es h'
    → Leads id h' fs h''
    → Leads id h (es ++ fs) h''
Leads-append id h h' h'' [] fs a b = subst (λ z. Leads id z fs h'') a b
Leads-append id h h' h'' (e ∷ es) fs a b =
    linked (e.dataset_id == id) a
      (λ k. Leads-append id (e.result_version, e.output_path) h' h'' es fs k b)
      (λ k. Leads-append id h h' h'' es fs k b)
  where
    linked :
        (t : Bool)
        → Link t e h (Leads id (e.result_version, e.output_path) es h') (Leads id h es h')
        → (Leads id (e.result_version, e.output_path) es h'
            → Leads id (e.result_version, e.output_path) (es ++ fs) h'')
        → (Leads id h es h' → Leads id h (es ++ fs) h'')
        → Link t e h
            (Leads id (e.result_version, e.output_path) (es ++ fs) h'')
            (Leads id h (es ++ fs) h'')
    linked true l next skip = (l.0, l.1, l.2, next l.3)
    linked false l next skip = skip l

-- What a transformation was asked for, which nothing changes.
abbrev pub SameRequest : Transformation → Transformation → Type 0
SameRequest t t' =
    (t'.dataset_id ≡ t.dataset_id)
    × (t'.expected_version ≡ t.expected_version)
    × (t'.input_path ≡ t.input_path)

-- The receipts grow, and those that are new lead from each dataset's old head to its new one; no
-- dataset and no transformation is lost.
pub record Extends (c c' : Catalog) : Type 0 where
  pub receipts : List DatasetEvent
  pub appended : c'.events ≡ c.events ++ receipts
  pub heads :
      (id : ℕ) (d : Dataset)
      → find_dataset id c ≡ some d
      → (d' : Dataset) × (find_dataset id c' ≡ some d') × Leads id (head d) receipts (head d')
  pub requests :
      (id : ℕ) (t : Transformation)
      → find_transformation id c ≡ some t
      → (t' : Transformation) × (find_transformation id c' ≡ some t') × SameRequest t t'

pub Extends-refl : (c : Catalog) → Extends c c
Extends-refl c = record {
  receipts = [];
  appended = sym (append-nil c.events);
  heads = λ id d f. (d, f, refl);
  requests = λ id t f. (t, f, (refl, refl, refl));
}

pub Extends-trans : (a b c : Catalog) → Extends a b → Extends b c → Extends a c
Extends-trans a b c e f = record {
  receipts = e.receipts ++ f.receipts;
  appended =
      f.appended
      ∙ ap (λ es. es ++ f.receipts) e.appended
      ∙ append_assoc a.events e.receipts f.receipts;
  heads = λ id d g.
      let (d', g', l) = e.heads id d g in
      let (d'', g'', l') = f.heads id d' g' in
      (d'', g'', Leads-append id (head d) (head d') (head d'') e.receipts f.receipts l l');
  requests = λ id t g.
      let (t', g', l) = e.requests id t g in
      let (t'', g'', l') = f.requests id t' g' in (t'', g'', (l'.0 ∙ l.0, l'.1 ∙ l.1, l'.2 ∙ l.2));
}
