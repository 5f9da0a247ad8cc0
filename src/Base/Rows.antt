-- ===== src/Base/Rows.antt =====
-- Tables as lists of rows: UPDATE ... WHERE with its count of affected rows, SELECT of one row,
-- and the lemmas on them that the store's proofs share.
use Prim.Native.Nat.{ℕ, ◌+◌}
use mathlib.Core.Path.{◌≡◌, refl, sym, subst}
use mathlib.Core.Logic.{inl, inr}
use mathlib.Core.Bool.{Bool, true, false}
use mathlib.Core.Option.{Option, none, some}
use mathlib.Core.List.{List, [], ◌∷◌, map, Memᴰ}
use mathlib.Core.List.Memᴰ
use native.Mathlib.Omega.{arith}
use facilitator.Base.Tests.{if◌then◌else◌, Bool-cases}

abbrev pub All {ℓ κ} : {A : Type ℓ} → (A → Type κ) → List A → Type κ
All P [] = Unit
All P (x ∷ xs) = P x × All P xs

module _ {ℓ} {A : Type ℓ} where
  -- UPDATE ... SET f WHERE test.
  unfoldable pub update_rows : (A → Bool) → (A → A) → List A → List A
  update_rows test f [] = []
  update_rows test f (x ∷ xs) = (if test x then f x else x) ∷ update_rows test f xs

  -- How many rows a WHERE selects.
  unfoldable pub count_rows : (A → Bool) → List A → ℕ
  count_rows test [] = 0
  count_rows test (x ∷ xs) = (if test x then 1 else 0) + count_rows test xs

  -- The first row that a WHERE selects.
  unfoldable pub find_row : (A → Bool) → List A → Option A
  find_row test [] = none
  find_row test (x ∷ xs) = if test x then some x else find_row test xs

  pub find_row-test :
      (test : A → Bool) (xs : List A) (x : A) → find_row test xs ≡ some x → test x ≡ true
  unfolding find_row
  find_row-test test [] x h = ground arith
  find_row-test test (y ∷ xs) x h = ground (arith, find_row-test test xs x)

  pub find_row-mem : (test : A → Bool) (xs : List A) (x : A) → find_row test xs ≡ some x → Memᴰ x xs
  unfolding find_row
  find_row-mem test [] x h = absurd (ground arith)
  find_row-mem test (y ∷ xs) x h = elim (Bool-cases (test y)) [
    | inl e ↦ Memᴰ.head (ground arith)
    | inr e ↦ Memᴰ.tail (find_row-mem test xs x (ground arith))
  ]

  pub find_row-none-count :
      (test : A → Bool) (xs : List A) → find_row test xs ≡ none → count_rows test xs ≡ 0
  unfolding find_row count_rows
  find_row-none-count test [] h = refl
  find_row-none-count test (y ∷ xs) h = ground (arith, find_row-none-count test xs)

  pub All-mem {κ} : (P : A → Type κ) {x : A} (xs : List A) → All P xs → Memᴰ x xs → P x
  All-mem P [] h m = absurd (Memᴰ.not-nil m)
  All-mem P (y ∷ xs) h (Memᴰ.head e) = subst P (sym e) h.0
  All-mem P (y ∷ xs) h (Memᴰ.tail m) = All-mem P xs h.1 m

  -- A predicate on rows survives an update whose assignment keeps it on the selected rows.
  pub All-update_rows {κ} :
      {P : A → Type κ} (test : A → Bool) (f : A → A) (xs : List A)
      → ((x : A) → test x ≡ true → P x → P (f x))
      → All P xs
      → All P (update_rows test f xs)
  unfolding update_rows
  All-update_rows test f [] keep h = tt
  All-update_rows {P = P} test f (x ∷ xs) keep h =
      (row (test x) refl, All-update_rows test f xs keep h.1)
    where
      row : (b : Bool) → test x ≡ b → P (if b then f x else x)
      row true e = keep x e h.0
      row false e = h.0

  -- An assignment that leaves a column alone leaves the list of that column's values alone.
  pub map-update_rows {κ} :
      {B : Type κ} (column : A → B) (test : A → Bool) (f : A → A) (xs : List A)
      → ((x : A) → column (f x) ≡ column x)
      → map column (update_rows test f xs) ≡ map column xs
  unfolding update_rows
  map-update_rows column test f [] keep = refl
  map-update_rows column test f (x ∷ xs) keep =
      ground (arith, keep x, map-update_rows column test f xs keep)

  pub find_row-update_rows_self :
      (test : A → Bool) (f : A → A) (xs : List A) (x : A)
      → ((y : A) → test (f y) ≡ test y)
      → find_row test xs ≡ some x
      → find_row test (update_rows test f xs) ≡ some (f x)
  unfolding find_row update_rows
  find_row-update_rows_self test f [] x keep h = ground arith
  find_row-update_rows_self test f (y ∷ xs) x keep h =
      ground (arith, keep y, find_row-update_rows_self test f xs x keep)
