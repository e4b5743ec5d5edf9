-- ===== src/Base/Order.antt =====
-- `ORDER BY` as an insertion sort by a comparison of rows.
use Prim.Native.Nat.{◌+◌}
use mathlib.Core.Path.{◌≡◌, refl}
use mathlib.Core.Bool.{Bool}
use mathlib.Core.Logic.{inl, inr}
use mathlib.Core.List.{List, [], ◌∷◌}
use native.Mathlib.Omega.{arith}
use data_analytics_platform.Base.Tests.{if◌then◌else◌, Bool-cases}
use data_analytics_platform.Base.Lists.{All}
use data_analytics_platform.Base.Table.{count_where}

module _ {ℓ} {A : Type ℓ} (before : A → A → Bool) where
  unfoldable pub insert_by : A → List A → List A
  insert_by x [] = x ∷ []
  insert_by x (y ∷ ys) = if before x y then x ∷ y ∷ ys else y ∷ insert_by x ys

  unfoldable pub order_by : List A → List A
  unfolding insert_by
  order_by [] = []
  order_by (x ∷ xs) = insert_by x (order_by xs)

  count_where-insert_by :
      (p : A → Bool) (x : A) (ys : List A)
      → count_where p (insert_by x ys) ≡ (if p x then 1 else 0) + count_where p ys
  unfolding count_where insert_by
  count_where-insert_by p x [] = refl
  count_where-insert_by p x (y ∷ ys) = ground (arith, count_where-insert_by p x ys)

  -- Ordering loses no row and repeats none.
  pub count_where-order_by :
      (p : A → Bool) (xs : List A) → count_where p (order_by xs) ≡ count_where p xs
  unfolding count_where order_by
  count_where-order_by p [] = refl
  count_where-order_by p (x ∷ xs) =
      omega (arith, count_where-insert_by p x (order_by xs), count_where-order_by p xs)

module _ {ℓ κ} {A : Type ℓ} (before : A → A → Bool) (P : A → Type κ) where
  pub All-insert_by : (x : A) (ys : List A) → P x → All P ys → All P (insert_by before x ys)
  unfolding insert_by
  All-insert_by x [] k h = (k, h)
  All-insert_by x (y ∷ ys) k h = elim (Bool-cases (before x y)) [
    | inl e ↦ rw e (k, h)
    | inr e ↦ rw e (h.0, All-insert_by x ys k h.1)
  ]

  pub All-order_by : (xs : List A) → All P xs → All P (order_by before xs)
  unfolding order_by
  All-order_by [] h = h
  All-order_by (x ∷ xs) h = All-insert_by x (order_by before xs) h.0 (All-order_by xs h.1)
