-- ===== src/Base/Table.antt =====
-- A database table as the list of its rows, and the queries that the services make:
-- `filter(...).update(...)`, `filter(...).count()` and `filter(...).first()`.
use Prim.Native.Nat.{ℕ, ◌+◌, ◌≤◌}
use mathlib.Core.Path.{◌≡◌, refl, subst}
use mathlib.Core.Logic.{inl, inr}
use mathlib.Core.Bool.{Bool, true, false, not, ◌&&◌}
use mathlib.Core.Option.{Option, none, some}
use mathlib.Core.List.{List, [], ◌∷◌, ◌++◌}
use native.Mathlib.Omega.{arith}
use data_analytics_platform.Base.Tests.{if◌then◌else◌, Bool-cases}
use data_analytics_platform.Base.Lists.{filter}

module _ {ℓ} {A : Type ℓ} where
  -- The rows after `UPDATE ... WHERE p`.
  unfoldable pub update_where : (A → Bool) → (A → A) → List A → List A
  update_where p f [] = []
  update_where p f (r ∷ rs) = (if p r then f r else r) ∷ update_where p f rs

  -- The number of rows that `p` selects, which an `UPDATE` also reports.
  unfoldable pub count_where : (A → Bool) → List A → ℕ
  count_where p [] = 0
  count_where p (r ∷ rs) = (if p r then 1 else 0) + count_where p rs

  unfoldable pub first_where : (A → Bool) → List A → Option A
  first_where p [] = none
  first_where p (r ∷ rs) = if p r then some r else first_where p rs

  pub first_where-sat :
      (p : A → Bool) (rs : List A) (r : A) → first_where p rs ≡ some r → p r ≡ true
  unfolding first_where
  first_where-sat p [] r h = absurd (cc)
  first_where-sat p (x ∷ rs) r h = ground (arith, first_where-sat p rs r)

  pub count_where-append :
      (p : A → Bool) (rs ss : List A)
      → count_where p (rs ++ ss) ≡ count_where p rs + count_where p ss
  unfolding count_where
  count_where-append p [] ss = omega arith
  count_where-append p (x ∷ rs) ss = omega (arith, count_where-append p rs ss)

  pub first_where-append :
      (p : A → Bool) (rs ss : List A) (r : A)
      → first_where p rs ≡ some r
      → first_where p (rs ++ ss) ≡ some r
  unfolding first_where
  first_where-append p [] ss r h = absurd (cc)
  first_where-append p (x ∷ rs) ss r h = ground (arith, first_where-append p rs ss r)

  pub count_where_pos :
      (p : A → Bool) (rs : List A) (r : A) → first_where p rs ≡ some r → 1 ≤ count_where p rs
  unfolding first_where count_where
  count_where_pos p [] r h = absurd (cc)
  count_where_pos p (x ∷ rs) r h = ground (arith, count_where_pos p rs r)

  -- The first row of a key after an update of all its rows that keeps the key.
  pub first_where-update_key :
      (p : A → Bool) (f : A → A) (rs : List A) (r : A)
      → ((s : A) → p s ≡ true → p (f s) ≡ true)
      → first_where p rs ≡ some r
      → first_where p (update_where p f rs) ≡ some (f r)
  unfolding first_where update_where
  first_where-update_key p f [] r keep h = absurd (cc)
  first_where-update_key p f (x ∷ rs) r keep h =
      ground (arith, keep x, first_where-update_key p f rs r keep)

  -- An update that takes a row out of its own condition leaves none that meets it.
  pub count_where-update :
      (p : A → Bool) (f : A → A)
      → ((s : A) → p (f s) ≡ false)
      → (rs : List A) → count_where p (update_where p f rs) ≡ 0
  unfolding count_where update_where
  count_where-update p f out [] = refl
  count_where-update p f out (x ∷ rs) = ground (arith, out x, count_where-update p f out rs)

  -- An update that keeps a test of every row keeps its count.
  pub count_where-update_same :
      (q p : A → Bool) (f : A → A)
      → ((s : A) → q (f s) ≡ q s)
      → (rs : List A) → count_where q (update_where p f rs) ≡ count_where q rs
  unfolding count_where update_where
  count_where-update_same q p f same [] = refl
  count_where-update_same q p f same (x ∷ rs) =
      ground (arith, same x, count_where-update_same q p f same rs)

  -- The first row of a test that an update of other rows keeps.
  pub first_where-update_same :
      (q p : A → Bool) (f : A → A)
      → ((s : A) → q (f s) ≡ q s)
      → (rs : List A) (r : A) → first_where q rs ≡ some r
      → first_where q (update_where p f rs) ≡ some (if p r then f r else r)
  unfolding first_where update_where
  first_where-update_same q p f same [] r h = absurd (cc)
  first_where-update_same q p f same (x ∷ rs) r h =
      ground (arith, same x, first_where-update_same q p f same rs r)

  -- A key selects one row at most.
  abbrev pub IsSingle : (A → Bool) → List A → Type 0
  IsSingle p rs = count_where p rs ≤ 1

  pub count_where_zero :
      (p : A → Bool) (rs : List A) → count_where p rs ≡ 0 → first_where p rs ≡ none
  unfolding first_where count_where
  count_where_zero p [] h = refl
  count_where_zero p (x ∷ rs) h = ground (arith, count_where_zero p rs)

  pub count_where-none :
      (p : A → Bool) (rs : List A) → first_where p rs ≡ none → count_where p rs ≡ 0
  unfolding first_where count_where
  count_where-none p [] h = refl
  count_where-none p (x ∷ rs) h = ground (arith, count_where-none p rs)

  -- A row that comes last is the first one where no other row meets the test.
  pub first_where_last :
      (p : A → Bool) (r : A) (rs : List A)
      → p r ≡ true
      → first_where p rs ≡ none
      → first_where p (rs ++ r ∷ []) ≡ some r
  unfolding first_where
  first_where_last p r [] t h = ground arith
  first_where_last p r (x ∷ rs) t h = ground (arith, first_where_last p r rs t)

  -- An update that selects nothing changes nothing.
  pub update_where_zero :
      (p : A → Bool) (f : A → A) (rs : List A) → count_where p rs ≡ 0 → update_where p f rs ≡ rs
  unfolding update_where count_where
  update_where_zero p f [] h = refl
  update_where_zero p f (x ∷ rs) h = ground (arith, update_where_zero p f rs)

-- The rows that a key and a guard select, when the key selects one row.
module _ {ℓ} {A : Type ℓ} (key guard : A → Bool) where
  pub count_where-and-le :
      (rs : List A) → count_where (λ r. key r && guard r) rs ≤ count_where key rs
  unfolding count_where
  count_where-and-le [] = omega arith
  count_where-and-le (x ∷ rs) = ground (arith, count_where-and-le rs)

  pub count_where_keyed :
      (rs : List A) (r : A)
      → IsSingle key rs
      → first_where key rs ≡ some r
      → count_where (λ s. key s && guard s) rs ≡ (if guard r then 1 else 0)
  unfolding count_where first_where
  count_where_keyed [] r u h = absurd (cc)
  count_where_keyed (x ∷ rs) r u h = elim (Bool-cases (key x)) [
    | inl e ↦ ground (arith, count_where-and-le rs)
    | inr e ↦ ground (arith, count_where_keyed rs r)
  ]

  -- The first row of key and guard is the key's row, where that passes the guard.
  pub first_where-and :
      (rs : List A) (r : A)
      → first_where key rs ≡ some r
      → guard r ≡ true
      → first_where (λ s. key s && guard s) rs ≡ some r
  unfolding first_where
  first_where-and [] r h g = absurd (cc)
  first_where-and (x ∷ rs) r h g = ground (arith, first_where-and rs r)

  pub count_where_absent :
      (rs : List A) → first_where key rs ≡ none → count_where (λ s. key s && guard s) rs ≡ 0
  unfolding count_where first_where
  count_where_absent [] h = refl
  count_where_absent (x ∷ rs) h = ground (arith, count_where_absent rs)

  -- The row of the key after the update, where the update keeps the key.
  pub first_where-update :
      (f : A → A) (rs : List A)
      → ((s : A) → key s ≡ true → key (f s) ≡ true)
      → (r : A) → first_where key rs ≡ some r
      → first_where key (update_where (λ s. key s && guard s) f rs)
        ≡ some (if guard r then f r else r)
  unfolding first_where update_where
  first_where-update f [] keep r h = absurd (cc)
  first_where-update f (x ∷ rs) keep r h = ground (arith, keep x, first_where-update f rs keep r)

-- Rows related one to one, in order.
module _ {ℓ} {A : Type ℓ} (R : A → A → Type 0) where
  abbrev pub Pointwise : List A → List A → Type 0
  Pointwise [] [] = Unit
  Pointwise (x ∷ xs) (y ∷ ys) = R x y × Pointwise xs ys
  Pointwise _ _ = ⊥

  pub Pointwise-refl : ((x : A) → R x x) → (xs : List A) → Pointwise xs xs
  Pointwise-refl h [] = tt
  Pointwise-refl h (x ∷ xs) = (h x, Pointwise-refl h xs)

  pub update_where-Pointwise :
      (p : A → Bool) (f : A → A)
      → ((x : A) → R x x)
      → ((x : A) → p x ≡ true → R x (f x))
      → (xs : List A) → Pointwise xs (update_where p f xs)
  unfolding update_where
  update_where-Pointwise p f same step [] = tt
  update_where-Pointwise p f same step (x ∷ xs) = elim (Bool-cases (p x)) [
    | inl e ↦ rw e (step x e, update_where-Pointwise p f same step xs)
    | inr e ↦ rw e (same x, update_where-Pointwise p f same step xs)
  ]

  -- The same by a key that selects one row, where the step is known of that row only.
  pub update_key-Pointwise :
      (key : A → Bool) (f : A → A)
      → ((x : A) → R x x)
      → (xs : List A) (r : A) → IsSingle key xs
      → first_where key xs ≡ some r
      → R r (f r)
      → Pointwise xs (update_where key f xs)
  unfolding update_where first_where count_where
  update_key-Pointwise key f same [] r u h step = absurd (cc)
  update_key-Pointwise key f same (x ∷ xs) r u h step = elim (Bool-cases (key x)) [
    | inl e ↦ ground (arith, Pointwise-refl same xs, update_where_zero key f xs)
    | inr e ↦ ground (arith, same x, update_key-Pointwise key f same xs r)
  ]

-- What a relation of rows that keeps a test, or only takes it away, says of the whole tables.
module _ {ℓ} {A : Type ℓ} (R : A → A → Type 0) where
  pub count_where-Pointwise-le :
      (p : A → Bool)
      → ((x y : A) → R x y → p y ≡ true → p x ≡ true)
      → (xs ys : List A) → Pointwise R xs ys
      → count_where p ys ≤ count_where p xs
  unfolding count_where
  count_where-Pointwise-le p back [] [] h = omega arith
  count_where-Pointwise-le p back [] (y ∷ ys) h = absurd h
  count_where-Pointwise-le p back (x ∷ xs) [] h = absurd h
  count_where-Pointwise-le p back (x ∷ xs) (y ∷ ys) h =
      ground (arith, back x y h.0, count_where-Pointwise-le p back xs ys h.1)

  pub first_where-Pointwise :
      (p : A → Bool)
      → ((x y : A) → R x y → p y ≡ p x)
      → (xs ys : List A) → Pointwise R xs ys
      → (x : A) → first_where p xs ≡ some x
      → (y : A) × (first_where p ys ≡ some y) × R x y
  unfolding first_where
  first_where-Pointwise p same [] [] h x e = absurd (cc)
  first_where-Pointwise p same [] (y ∷ ys) h x e = absurd h
  first_where-Pointwise p same (a ∷ xs) [] h x e = absurd h
  first_where-Pointwise p same (a ∷ xs) (b ∷ ys) h x e = elim (Bool-cases (p a)) [
    | inl t ↦
        let same_row : a ≡ x = ground arith in
        (b, ground (arith, same a b h.0), subst (λ z. R z b) same_row h.0)
    | inr t ↦
        let (y, f, l) = first_where-Pointwise p same xs ys h.1 x (ground arith) in
        (y, ground (arith, same a b h.0), l)
  ]

-- Counting in the rows that a query returns.
module _ {ℓ} {A : Type ℓ} (p : A → Bool) where
  pub count_where-filter-not : (xs : List A) → count_where (λ x. not (p x)) (filter p xs) ≡ 0
  unfolding count_where
  count_where-filter-not [] = refl
  count_where-filter-not (x ∷ xs) = ground (arith, count_where-filter-not xs)

  pub count_where-filter-le :
      (q : A → Bool) (xs : List A) → count_where q (filter p xs) ≤ count_where q xs
  unfolding count_where
  count_where-filter-le q [] = omega arith
  count_where-filter-le q (x ∷ xs) = ground (arith, count_where-filter-le q xs)
