-- ===== src/Settlement/Sweep/Listing.antt =====
-- internal/store/recovery.go: what a query lists comes from rows of its table.
use facilitator.Base.{
  ◌≡◌, refl, subst, none, some, List, [], ◌∷◌, map, Memᴰ, Text, Bool, if◌then◌else◌, All,
}
use mathlib.Core.List.Memᴰ
use facilitator.Settlement.Errors.{Result, ok, >>=-ok, ok_injective, null_column}
use facilitator.Settlement.Work.{TrackedTransaction}
use facilitator.Settlement.Sweep.Actions.{bytes_column}
use facilitator.Settlement.Sweep.Runs.{option-by, if-by}
use facilitator.Settlement.Sweep.Hashes.{or_error-ok}
use facilitator.Settlement.Sweep.Items.{Listed}
use facilitator.Store.Schema.{Payment, Transaction, Db}
use facilitator.Store.Signer.{or_error}
use facilitator.Store.Watch.{
  payment_row, joined, scan_all, scan_gap_filler, is_gap_filler, list_gap_fillers,
}

joined-All :
    (Q : Transaction → Type 0) (test : Transaction → Payment → Bool) (d : Db)
    (ts : List Transaction)
    → All Q ts
    → All (λ (row : Transaction × Payment). Q row.0) (joined test d ts)
unfolding joined
joined-All Q test d [] all = tt
joined-All Q test d (t ∷ ts) all = added (joined-All Q test d ts all.1)
  where
    AllQ : List (Transaction × Payment) → Type 0
    AllQ rows = All (λ (row : Transaction × Payment). Q row.0) rows

    added :
        AllQ (joined test d ts)
        → AllQ (elim (payment_row t d) as (λ x. List (Transaction × Payment)) [
          | none ↦ joined test d ts
          | some p ↦ if test t p then (t, p) ∷ joined test d ts else joined test d ts
        ])
    added rest =
        option-by AllQ (payment_row t d) _ _ rest
          (λ p at_p. if-by AllQ (test t p) _ _ (λ yes_. (all.0, rest)) (λ no_. rest))

pub All-of_mem :
    {A : Type 0} (P : A → Type 0) (xs : List A) → ((x : A) → Memᴰ x xs → P x) → All P xs
All-of_mem P [] h = tt
All-of_mem P (x ∷ xs) h = (h x (Memᴰ.head refl), All-of_mem P xs (λ y m. h y (Memᴰ.tail m)))

scan_all-All {ℓ} :
    {A : Type ℓ} (P : Transaction × Payment → Type 0) (Q : A → Type 0)
    (scan : Transaction × Payment → Result A) (rows : List (Transaction × Payment)) (items : List A)
    → ((row : Transaction × Payment) (a : A) → P row → scan row ≡ ok a → Q a)
    → All P rows
    → scan_all scan rows ≡ ok items
    → All Q items
unfolding scan_all
scan_all-All P Q scan [] items each_ all h = rw (← ok_injective h) tt
scan_all-All P Q scan (row ∷ rows) items each_ all h =
    let (a, at_a, h₁) = >>=-ok (scan row) _ h in
    let (rest, at_rest, h₂) = >>=-ok (scan_all scan rows) _ h₁ in
    rw (← ok_injective h₂)
      (each_ row a all.0 at_a, scan_all-All P Q scan rows rest each_ all.1 at_rest)

scan_gap_filler-Listed :
    (d : Db) (row : Transaction × Payment) (t : TrackedTransaction)
    → Memᴰ row.0 d.transactions
    → scan_gap_filler row ≡ ok t
    → Memᴰ (t.transaction_id, some t.raw_transaction) (map bytes_column d.transactions)
unfolding scan_gap_filler
scan_gap_filler-Listed d (t, p) item m h =
    let (tx_hash, at_hash, h₁) = >>=-ok (or_error t.tx_hash null_column) _ h in
    let (raw, at_raw, h₂) = >>=-ok (or_error t.raw_transaction null_column) _ h₁ in
    let same : bytes_column t ≡ (item.transaction_id, some item.raw_transaction) =
      rw (← ok_injective h₂) (rw (or_error-ok t.raw_transaction null_column raw at_raw)) in
    subst (λ c. Memᴰ c (map bytes_column d.transactions)) same (Memᴰ.map bytes_column m)

pub list_gap_fillers-Listed :
    (keccak : Text → Text) (d : Db) (items : List TrackedTransaction)
    → list_gap_fillers d ≡ ok items
    → All (Listed keccak d) items
unfolding list_gap_fillers
list_gap_fillers-Listed keccak d items h =
    scan_all-All (λ row. Memᴰ row.0 d.transactions) (Listed keccak d) scan_gap_filler
      (joined is_gap_filler d d.transactions) items (scan_gap_filler-Listed d)
      (joined-All (λ t. Memᴰ t d.transactions) is_gap_filler d d.transactions
        (All-of_mem _ d.transactions (λ t m. m)))
      h
