-- ===== src/Datasets/Steps.antt =====
-- What each kind of step keeps of the ledger.
use data_analytics_platform.Base.{
  ◌≡◌, refl, sym, ap, ◌∙◌, subst, List, [], ◌∷◌, ◌++◌, Bool, true, false, Option, none, some, ◌==◌,
  if◌then◌else◌, first_where-update_same, first_where-append,
}
use mathlib.Core.List.{append-nil}
use data_analytics_platform.Schema.{Database, Result, ok, err, Refusal}
use data_analytics_platform.Schema.Catalog.{Catalog, Dataset, Transformation}
use data_analytics_platform.Artifacts.Table.{Storage}
use data_analytics_platform.Datasets.Session.{
  Action, lift, or_raise, on_database, settle, transaction, and_then, ◌>>=◌, require, modify,
  is_dataset, is_transformation, set_datasets, set_transformations,
}
use data_analytics_platform.Datasets.Ledger.{
  head, SameRequest, Extends, Extends-refl, Extends-trans,
}

set_datasets-Extends :
    (p : Dataset → Bool) (f : Dataset → Dataset) (c : Catalog)
    → ((d : Dataset) → (f d).id ≡ d.id)
    → ((d : Dataset) → head (f d) ≡ head d)
    → Extends c (set_datasets p f c)
set_datasets-Extends p f c ids heads = record {
  receipts = [];
  appended = sym (append-nil c.events);
  heads = λ id d g. (
    if p d then f d else d,
    first_where-update_same (is_dataset id) p f (λ x. ap (λ n. n == id) (ids x)) c.datasets d g,
    same_head d (p d),
  );
  requests = λ id t g. (t, g, (refl, refl, refl));
}
  where
    same_head : (d : Dataset) (b : Bool) → head (if b then f d else d) ≡ head d
    same_head d true = heads d
    same_head d false = refl

pub set_transformations-Extends :
    (p : Transformation → Bool) (f : Transformation → Transformation) (c : Catalog)
    → ((t : Transformation) → (f t).id ≡ t.id)
    → ((t : Transformation) → SameRequest t (f t))
    → Extends c (set_transformations p f c)
set_transformations-Extends p f c ids same = record {
  receipts = [];
  appended = sym (append-nil c.events);
  heads = λ id d g. (d, g, refl);
  requests = λ id t g. (
    if p t then f t else t,
    first_where-update_same (is_transformation id) p f (λ x. ap (λ n. n == id) (ids x))
        c.transformations t g,
    same_request t (p t),
  );
}
  where
    same_request : (t : Transformation) (b : Bool) → SameRequest t (if b then f t else t)
    same_request t true = same t
    same_request t false = (refl, refl, refl)

pub append_transformation-Extends :
    (c : Catalog) (t : Transformation)
    → Extends c (record c { transformations = c.transformations ++ t ∷ [] })
append_transformation-Extends c t = record {
  receipts = [];
  appended = sym (append-nil c.events);
  heads = λ id d g. (d, g, refl);
  requests = λ id x g. (
    x,
    first_where-append (is_transformation id) c.transformations (t ∷ []) x g,
    (refl, refl, refl),
  );
}

-- A step that leaves the three tables alone.
pub snapshots-Extends : (c : Catalog) (ms : List _) → Extends c (record c { snapshots = ms })
snapshots-Extends c ms = record {
  receipts = [];
  appended = sym (append-nil c.events);
  heads = λ id d g. (d, g, refl);
  requests = λ id t g. (t, g, (refl, refl, refl));
}

pub and_then-ok :
    {A B : Type 0} (r : Result A × Storage) (f : A → Action B) (b : B) (st' : Storage)
    → and_then r f ≡ (ok b, st')
    → (a : A) × (st : Storage) × (r ≡ (ok a, st)) × (f a st ≡ (ok b, st'))
and_then-ok (ok a, st) f b st' h = (a, st, refl, h)
and_then-ok (err e, st) f b st' h = absurd (cc (ap (λ r. r.0) h))

-- A step keeps the ledger where it does not raise.
abbrev pub Keeps : {A : Type 0} → Action A → Type 0
Keeps {A} m = (st st' : Storage) (a : A) → m st ≡ (ok a, st') → Extends st.catalog st'.catalog

module _ {A : Type 0} where
  pub same-Keeps : (m : Action A) → ((st : Storage) → (m st).1.catalog ≡ st.catalog) → Keeps m
  same-Keeps m same st st' a h =
      subst (Extends st.catalog) (sym (same st) ∙ ap (λ r. r.1.catalog) h) (Extends-refl st.catalog)

  pub or_raise-Keeps : (o : Option A) (e : Refusal) → Keeps (or_raise o e)
  or_raise-Keeps none e = same-Keeps (or_raise none e) (λ st. refl)
  or_raise-Keeps (some a) e = same-Keeps (or_raise (some a) e) (λ st. refl)

  pub lift-Keeps : (r : Result A) → Keeps (lift r)
  lift-Keeps r = same-Keeps (lift r) (λ st. refl)

  pub on_database-Keeps : (f : Database → Result A × Database) → Keeps (on_database f)
  on_database-Keeps f = same-Keeps (on_database f) (λ st. refl)

  pub transaction-Keeps :
      (m : Action A) → Keeps m → (st : Storage) → Extends st.catalog (transaction m st).1.catalog
  transaction-Keeps m k st = settled (m st) refl
    where
      settled : (r : Result A × Storage) → m st ≡ r → Extends st.catalog (settle st r).1.catalog
      settled (ok a, st') e = k st st' a e
      settled (err x, st') e = Extends-refl st.catalog

pub require-Keeps : (c : Bool) (e : Refusal) → Keeps (require c e)
require-Keeps c e = same-Keeps (require c e) (λ st. refl)

pub bind-Keeps :
    {A B : Type 0} (m : Action A) (f : A → Action B)
    → Keeps m
    → ((a : A) → Keeps (f a))
    → Keeps (m >>= f)
bind-Keeps m f k next st st' b h =
    let (a, mid, e, g) = and_then-ok (m st) f b st' h in
    Extends-trans st.catalog mid.catalog st'.catalog (k st mid a e) (next a mid st' b g)

pub modify_datasets-Keeps :
    (p : Dataset → Bool) (f : Dataset → Dataset)
    → ((d : Dataset) → (f d).id ≡ d.id)
    → ((d : Dataset) → head (f d) ≡ head d)
    → Keeps (modify (set_datasets p f))
modify_datasets-Keeps p f ids heads st st' a h =
    subst (Extends st.catalog) (ap (λ r. r.1.catalog) h)
      (set_datasets-Extends p f st.catalog ids heads)

pub modify_transformations-Keeps :
    (p : Transformation → Bool) (f : Transformation → Transformation)
    → ((t : Transformation) → (f t).id ≡ t.id)
    → ((t : Transformation) → SameRequest t (f t))
    → Keeps (modify (set_transformations p f))
modify_transformations-Keeps p f ids same st st' a h =
    subst (Extends st.catalog) (ap (λ r. r.1.catalog) h)
      (set_transformations-Extends p f st.catalog ids same)

-- A step keeps the ledger also where it raises.
abbrev pub AlwaysKeeps : {A : Type 0} → Action A → Type 0
AlwaysKeeps m = (st : Storage) → Extends st.catalog (m st).1.catalog

pub same-AlwaysKeeps :
    {A : Type 0} (m : Action A) → ((st : Storage) → (m st).1.catalog ≡ st.catalog) → AlwaysKeeps m
same-AlwaysKeeps m same st = subst (Extends st.catalog) (sym (same st)) (Extends-refl st.catalog)

pub or_raise-AlwaysKeeps : {A : Type 0} (o : Option A) (e : Refusal) → AlwaysKeeps (or_raise o e)
or_raise-AlwaysKeeps none e st = Extends-refl st.catalog
or_raise-AlwaysKeeps (some a) e st = Extends-refl st.catalog

pub bind-AlwaysKeeps :
    {A B : Type 0} (m : Action A) (f : A → Action B)
    → AlwaysKeeps m
    → ((a : A) → AlwaysKeeps (f a))
    → AlwaysKeeps (m >>= f)
bind-AlwaysKeeps {A} m f k next st = continued (m st) (k st)
  where
    continued :
        (r : Result A × Storage)
        → Extends st.catalog r.1.catalog
        → Extends st.catalog (and_then r f).1.catalog
    continued (ok a, mid) e =
        Extends-trans st.catalog mid.catalog (f a mid).1.catalog e (next a mid)
    continued (err x, mid) e = e

-- What a step leaves behind where it does not raise.
abbrev pub Ensures : {A : Type 0} → (A → Storage → Type 0) → Result A × Storage → Type 0
Ensures P (ok a, st) = P a st
Ensures P (err e, st) = Unit

pub and_then-Ensures :
    {A B : Type 0} (Q : A → Storage → Type 0) (P : B → Storage → Type 0) (r : Result A × Storage)
    (f : A → Action B)
    → Ensures Q r
    → ((a : A) (st : Storage) → Q a st → Ensures P (f a st))
    → Ensures P (and_then r f)
and_then-Ensures Q P (ok a, st) f q k = k a st q
and_then-Ensures Q P (err e, st) f q k = tt

pub weaken-Ensures :
    {A : Type 0} (Q P : A → Storage → Type 0) (r : Result A × Storage)
    → ((a : A) (st : Storage) → Q a st → P a st)
    → Ensures Q r
    → Ensures P r
weaken-Ensures Q P (ok a, st) k q = k a st q
weaken-Ensures Q P (err e, st) k q = tt

pub require-Ensures :
    (c : Bool) (e : Refusal) (st : Storage)
    → Ensures (λ u s. (c ≡ true) × (s ≡ st)) (require c e st)
require-Ensures true e st = (refl, refl)
require-Ensures false e st = tt

module _ {A : Type 0} where
  pub or_raise-Ensures :
      (o : Option A) (e : Refusal) (st : Storage)
      → Ensures (λ a s. (o ≡ some a) × (s ≡ st)) (or_raise o e st)
  or_raise-Ensures none e st = tt
  or_raise-Ensures (some a) e st = (refl, refl)

  pub anything-Ensures : (r : Result A × Storage) → Ensures (λ a s. s ≡ r.1) r
  anything-Ensures (ok a, st) = refl
  anything-Ensures (err e, st) = tt

  -- The catalog after a step that leaves it alone.
  pub same-Ensures :
      (r : Result A × Storage) (c : Catalog) → r.1.catalog ≡ c → Ensures (λ a s. s.catalog ≡ c) r
  same-Ensures (ok a, st) c h = h
  same-Ensures (err e, st) c h = tt

  pub settle-Extends :
      (st : Storage) (r : Result A × Storage)
      → Ensures (λ a s. Extends st.catalog s.catalog) r
      → Extends st.catalog (settle st r).1.catalog
  settle-Extends st (ok a, st') h = h
  settle-Extends st (err e, st') h = Extends-refl st.catalog

pub lift-Ensures :
    {A : Type 0} (r : Result A) (st : Storage) → Ensures (λ a s. (r ≡ ok a) × (s ≡ st)) (lift r st)
lift-Ensures (ok a) st = (refl, refl)
lift-Ensures (err e) st = tt
