-- ===== src/Settlement/Sweep/Actions.antt =====
-- What the recovery worker may do, as a relation: write one of its statements, record a signature,
-- or hand over bytes that a row holds or has held at some moment before.
use facilitator.Base.{
  ℕ, ◌≡◌, refl, sym, subst, Option, some, List, ◌∷◌, map, Memᴰ, Text, Bool, ◌⊎◌, inl, inr,
}
use facilitator.Settlement.Errors.{Result, ok}
use facilitator.Settlement.Work.{Lease, ClaimRequest, Replacement}
use facilitator.Settlement.Service.{World}
use facilitator.Settlement.Recovery.{hand_over}
use facilitator.Store.Schema.{Transaction, Db}
use facilitator.Store.Lease.{claim_payment, claim_payments, renew_lease, release_lease}
use facilitator.Store.Recovery
use facilitator.Store.Fillers
use facilitator.Store.Evolution.{Evolves, Evolves-refl, Evolves-trans}
use facilitator.Store.Evolution.Recovery.{
  mark_tx_recovered_broadcast-Steps, mark_ambiguous_retry-Steps, mark_tx_ambiguous_replaced-Steps,
  mark_tx_replaced-Steps, mark_replacement_landed-Steps, mark_gap_filler_prepared-Steps,
  mark_gap_filler_replaced-Steps, mark_gap_filler_resolved-Steps, mark_gap_filler_succeeded-Steps,
}
use facilitator.Store.Evolution.Leases.{
  db_after, claim_payment-Evolves, claim_payments-Evolves, renew_lease-Evolves, release_lease-Steps,
}

abbrev pub with_db : World → Db → World
with_db w d = record w { db = d }

-- The writes that precede no send.
pub data Write (d e : Db) : Type 0 where
  claims_one :
      (payment_id : ℕ) (worker : Text) (duration : ℕ) (now : Option ℕ) (lease : Lease)
      → claim_payment payment_id worker duration now d ≡ ok (lease, e)
      → Write d e
  claims_batch :
      (request : ClaimRequest) (leases : List Lease)
      → claim_payments request d ≡ ok (leases, e)
      → Write d e
  renews :
      (payment_id : ℕ) (worker : Text) (now : Option ℕ) (duration until : ℕ)
      → renew_lease payment_id worker now duration d ≡ ok (until, e)
      → Write d e
  releases : (payment_id : ℕ) (worker : Text) → release_lease payment_id worker d ≡ ok e → Write d e
  finds :
      (payment_id transaction_id : ℕ) (tx_hash actor : Text)
      → Recovery.mark_tx_recovered_broadcast payment_id transaction_id tx_hash actor d ≡ ok e
      → Write d e
  retries :
      (payment_id transaction_id : ℕ)
      → Recovery.mark_ambiguous_retry payment_id transaction_id d ≡ ok e
      → Write d e
  lands :
      (payment_id transaction_id : ℕ) (succeeded : Bool) (block_number : ℕ) (block_hash : Text)
      (gas_used gas_price : ℕ) (actor : Text)
      → Recovery.mark_replacement_landed payment_id transaction_id succeeded block_number block_hash
          gas_used gas_price actor d
        ≡ ok e
      → Write d e
  resolves :
      (transaction_id gas_used gas_price : ℕ)
      → Fillers.mark_gap_filler_resolved transaction_id gas_used gas_price d ≡ ok e
      → Write d e
  escalates :
      (payment_id transaction_id block_number : ℕ) (block_hash : Text) (gas_used gas_price : ℕ)
      (actor : Text)
      → Fillers.mark_gap_filler_succeeded payment_id transaction_id block_number block_hash gas_used
          gas_price actor d
        ≡ ok e
      → Write d e

-- The hash of the bytes, or the bytes themselves, stand in the row.
abbrev pub hash_column : Transaction → ℕ × Option Text
hash_column t = (t.id, t.raw_transaction_hash)

abbrev pub bytes_column : Transaction → ℕ × Option Text
bytes_column t = (t.id, t.raw_transaction)

module _ (keccak : Text → Text) where
  -- The writes that record a new signature `raw` in the row `id`.
  pub data Issue (d : Db) (id : ℕ) (raw : Text) (e : Db) : Type 0 where
    supersedes_ambiguous :
        (payment_id old_tx_id : ℕ) (r : Replacement) (actor : Text)
        → r.raw_hash ≡ keccak raw
        → Recovery.mark_tx_ambiguous_replaced id payment_id old_tx_id r actor d ≡ ok e
        → Issue d id raw e
    supersedes :
        (payment_id old_tx_id : ℕ) (r : Replacement) (actor : Text)
        → r.raw_hash ≡ keccak raw
        → Recovery.mark_tx_replaced id payment_id old_tx_id r actor d ≡ ok e
        → Issue d id raw e
    fills :
        (raw_hash tx_hash : Text) (gas_limit max_fee priority_fee : ℕ)
        → raw_hash ≡ keccak raw
        → Fillers.mark_gap_filler_prepared id raw_hash tx_hash raw gas_limit max_fee priority_fee d
          ≡ ok e
        → Issue d id raw e
    bumps :
        (payment_id old_tx_id : ℕ) (r : Replacement)
        → r.raw_hash ≡ keccak raw
        → Fillers.mark_gap_filler_replaced id payment_id old_tx_id r raw d ≡ ok e
        → Issue d id raw e

  abbrev pub OnFile : ℕ → Text → Db → Type 0
  OnFile id raw d =
      Memᴰ (id, some (keccak raw)) (map hash_column d.transactions)
      ⊎ Memᴰ (id, some raw) (map bytes_column d.transactions)

  -- From a world and the databases that there have been, newest first, to another.
  pub data Reached : World → List Db → World → List Db → Type 0 where
    start : {w : World} {h : List Db} → Reached w h w h
    writes :
        {w v : World} {h k : List Db} {e : Db}
        → Reached w h v k
        → Write v.db e
        → Reached w h (with_db v e) (e ∷ k)
    records :
        {w v : World} {h k : List Db} {e : Db} {id : ℕ} {raw : Text}
        → Reached w h v k
        → Issue v.db id raw e
        → Reached w h (with_db v e) (e ∷ k)
    sends :
        {w v : World} {h k : List Db} {u : Db} {id : ℕ} {raw : Text}
        → Reached w h v k
        → Memᴰ u k
        → OnFile id raw u
        → Reached w h (hand_over id raw v) k

  pub Reached-trans :
      {w v x : World} {h k l : List Db} → Reached w h v k → Reached v k x l → Reached w h x l
  Reached-trans a start = a
  Reached-trans a (writes b write) = writes (Reached-trans a b) write
  Reached-trans a (records b issue) = records (Reached-trans a b) issue
  Reached-trans a (sends b past held) = sends (Reached-trans a b) past held

  -- Nothing that has been is forgotten.
  pub Reached-past : {w v : World} {h k : List Db} {u : Db} → Reached w h v k → Memᴰ u h → Memᴰ u k
  Reached-past start m = m
  Reached-past (writes a write) m = Memᴰ.tail (Reached-past a m)
  Reached-past (records a issue) m = Memᴰ.tail (Reached-past a m)
  Reached-past (sends a past held) m = Reached-past a m

  pub Reached-now : {w v : World} {h k : List Db} → Reached w h v k → Memᴰ w.db h → Memᴰ v.db k
  Reached-now start m = m
  Reached-now (writes a write) m = Memᴰ.head refl
  Reached-now (records a issue) m = Memᴰ.head refl
  Reached-now (sends a past held) m = Reached-now a m

after-Evolves {ℓ} :
    {A : Type ℓ} {d e : Db} (r : Result (A × Db)) (a : A)
    → Evolves d (db_after d r)
    → r ≡ ok (a, e)
    → Evolves d e
after-Evolves {d} {e} r a h at_r = rw at_r at h

Write-Evolves : {d e : Db} → Write d e → Evolves d e
Write-Evolves {d} {e} (claims_one i worker duration now lease h) =
    after-Evolves _ lease (claim_payment-Evolves d i worker duration now) h
Write-Evolves {d} {e} (claims_batch request leases h) =
    after-Evolves _ leases (claim_payments-Evolves d request) h
Write-Evolves {d} {e} (renews i worker now duration until h) =
    after-Evolves _ until (renew_lease-Evolves d i worker now duration) h
Write-Evolves {d} {e} (releases i worker h) = release_lease-Steps d i worker e h
Write-Evolves {d} {e} (finds i t tx_hash actor h) =
    mark_tx_recovered_broadcast-Steps d i t tx_hash actor e h
Write-Evolves {d} {e} (retries i t h) = mark_ambiguous_retry-Steps d i t e h
Write-Evolves {d} {e} (lands i t succeeded number hash gas price actor h) =
    mark_replacement_landed-Steps d i t succeeded number hash gas price actor e h
Write-Evolves {d} {e} (resolves t gas price h) = mark_gap_filler_resolved-Steps d t gas price e h
Write-Evolves {d} {e} (escalates i t number hash gas price actor h) =
    mark_gap_filler_succeeded-Steps d i t number hash gas price actor e h

module _ {keccak : Text → Text} where
  Issue-Evolves : {d e : Db} {id : ℕ} {raw : Text} → Issue keccak d id raw e → Evolves d e
  Issue-Evolves {d} {e} {id} (supersedes_ambiguous i old r actor same h) =
      mark_tx_ambiguous_replaced-Steps d id i old r actor e h
  Issue-Evolves {d} {e} {id} (supersedes i old r actor same h) =
      mark_tx_replaced-Steps d id i old r actor e h
  Issue-Evolves {d} {e} {id} {raw} (fills raw_hash tx_hash gas max_fee priority same h) =
      mark_gap_filler_prepared-Steps d id raw_hash tx_hash raw gas max_fee priority e h
  Issue-Evolves {d} {e} {id} {raw} (bumps i old r same h) =
      mark_gap_filler_replaced-Steps d id i old r raw e h

  pub Reached-Evolves : {w v : World} {h k : List Db} → Reached keccak w h v k → Evolves w.db v.db
  Reached-Evolves {w} start = Evolves-refl w.db
  Reached-Evolves (writes a write) = Evolves-trans (Reached-Evolves a) (Write-Evolves write)
  Reached-Evolves (records a issue) = Evolves-trans (Reached-Evolves a) (Issue-Evolves issue)
  Reached-Evolves (sends a past held) = Reached-Evolves a

module _ (keccak : Text → Text) where
  -- The entry was sent before, or a database that there has been holds it.
  abbrev pub Backed : List (ℕ × Text) → List Db → ℕ × Text → Type 0
  Backed before k (id, raw) = Memᴰ (id, raw) before ⊎ ((u : Db) × Memᴰ u k × OnFile keccak id raw u)

  Backed-later :
      (entry : ℕ × Text) {before : List (ℕ × Text)} {k : List Db} (e : Db)
      → Backed before k entry
      → Backed before (e ∷ k) entry
  Backed-later entry e (inl old) = inl old
  Backed-later entry e (inr (u, past, held)) = inr (u, Memᴰ.tail past, held)

  pub Reached-Backed :
      (entry : ℕ × Text) {w v : World} {h k : List Db}
      → Reached keccak w h v k
      → Memᴰ entry v.sent
      → Backed w.sent k entry
  Reached-Backed entry start m = inl m
  Reached-Backed entry (writes a write) m = Backed-later entry _ (Reached-Backed entry a m)
  Reached-Backed entry (records a issue) m = Backed-later entry _ (Reached-Backed entry a m)
  Reached-Backed entry {w} {k = k} (sends {u = u} a past held) (Memᴰ.head e) =
      subst (Backed w.sent k) (sym e) (inr (u, past, held))
  Reached-Backed entry (sends a past held) (Memᴰ.tail m) = Reached-Backed entry a m
