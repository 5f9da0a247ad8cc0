-- ===== src/Settlement/Service/Once.antt =====
-- internal/settlement/service.go: broadcastClaimed hands a transaction to the network at most once.
use facilitator.Base.{
  ℕ, ◌+◌, ◌≤◌, ◌≡◌, refl, Option, none, some, List, [], ◌∷◌, ◌++◌, Text, codes, Bool, true, false,
  ◌==◌, not, is_empty, ltb, count_rows, if◌then◌else◌, arith,
}
use facilitator.Settlement.Errors.{
  Error, Result, ok, err, invalid_calldata, unavailable, unexpected_status,
}
use facilitator.Settlement.Work.{Work, ambiguous_broadcast, broadcast_pending}
use facilitator.Store.Schema.{Db}
use facilitator.Store.Broadcast.{mark_tx_signed}
use facilitator.Settlement.Service.{
  Config, Network, Simulation, unknown, reverts, passes, SignedTransaction, Unsigned, World, marked,
  recorded, acknowledged, send_signed, send_recorded, sign_and_send, broadcast_claimed,
  service_fees, unsigned_transaction,
}
use facilitator.Store.Broadcast.Signing.{
  unsigned_rows, SignsNone, mark_tx_ambiguous-SignsNone, mark_tx_broadcast-SignsNone,
  mark_intent_expired-SignsNone, mark_intent_unsettleable-SignsNone, mark_tx_signed-spends,
}

abbrev is_sent : ℕ → ℕ × Text → Bool
is_sent t entry = entry.0 == t

-- How often a transaction was sent.
abbrev pub times_sent : ℕ → World → ℕ
times_sent t w = count_rows (is_sent t) w.sent

-- The transaction's sends and its unsigned rows, together.
abbrev budget : ℕ → World → ℕ
budget t w = times_sent t w + unsigned_rows t w.db

abbrev Spends : ℕ → World → World × Result Text → Type 0
Spends t w o = budget t o.0 ≤ budget t w

unspent : (t : ℕ) (w : World) (r : Result Text) → Spends t w (w, r)
unspent t w r = omega arith

marked-Spends :
    (t : ℕ) (r : Result Db) (cause : Error) (w : World)
    → SignsNone t w.db r
    → Spends t w (marked r cause w)
marked-Spends t (ok d) cause w h = let le = h d refl in omega arith
marked-Spends t (err e) cause w h = omega arith

recorded-Spends :
    (t : ℕ) (r : Result Db) (hash : Text) (w : World)
    → SignsNone t w.db r
    → Spends t w (recorded r hash w)
recorded-Spends t (ok d) hash w h = let le = h d refl in omega arith
recorded-Spends t (err e) hash w h = omega arith

if-Spends :
    (t : ℕ) (w : World) (b : Bool) (x y : World × Result Text)
    → Spends t w x
    → Spends t w y
    → Spends t w (if b then x else y)
if-Spends t w true x y p q = p
if-Spends t w false x y p q = q

found-Spends {ℓ} :
    {A : Type ℓ} (t : ℕ) (w : World) (o : Option A) (missing : World × Result Text)
    (found : A → World × Result Text)
    → Spends t w missing
    → ((a : A) → Spends t w (found a))
    → Spends t w (elim o as (λ x. World × Result Text) [ none ↦ missing | some a ↦ found a ])
found-Spends t w none missing found m f = m
found-Spends t w (some a) missing found m f = f a

result-Spends {ℓ} :
    {A : Type ℓ} (t : ℕ) (w : World) (r : Result A) (failed : Error → World × Result Text)
    (done : A → World × Result Text)
    → ((e : Error) → Spends t w (failed e))
    → ((a : A) → r ≡ ok a → Spends t w (done a))
    → Spends t w (elim r as (λ x. World × Result Text) [ err e ↦ failed e | ok a ↦ done a ])
result-Spends t w (err e) failed done m f = m e
result-Spends t w (ok a) failed done m f = f a refl

simulation-Spends :
    (t : ℕ) (w : World) (s : Simulation) (x y z : World × Result Text)
    → Spends t w x
    → Spends t w y
    → Spends t w z
    → Spends t w (elim s as (λ q. World × Result Text) [ unknown ↦ x | reverts ↦ y | passes ↦ z ])
simulation-Spends t w unknown x y z p q r = p
simulation-Spends t w reverts x y z p q r = q
simulation-Spends t w passes x y z p q r = r

module _ (t : ℕ) (network : Network) (work : Work) (actor : Text) where
  send_signed-Spends :
      (raw : Text) (w : World)
      → budget t (send_signed network work actor raw w).0
        ≤ (if work.transaction_id == t then 1 else 0) + budget t w
  unfolding send_signed count_rows
  send_signed-Spends raw w =
      let le : Spends t (record w { sent = (work.transaction_id, raw) ∷ w.sent })
          (send_signed network work actor raw w) =
        if-Spends t (record w { sent = (work.transaction_id, raw) ∷ w.sent })
          (acknowledged (network.send_raw_transaction (codes "0x" ++ raw))
            (codes "0x" ++ network.keccak256 raw))
          _ _
          (recorded-Spends t _ _ (record w { sent = (work.transaction_id, raw) ∷ w.sent })
            (mark_tx_broadcast-SignsNone t work.payment_id work.transaction_id actor w.db _))
          (marked-Spends t _ _ (record w { sent = (work.transaction_id, raw) ∷ w.sent })
            (mark_tx_ambiguous-SignsNone t work.payment_id work.transaction_id actor w.db)) in
      omega arith

  send_recorded-Spends :
      (unsigned : Unsigned) (signed : SignedTransaction) (w : World)
      → Spends t w (send_recorded network work actor unsigned signed w)
  unfolding send_recorded
  send_recorded-Spends unsigned signed w =
      result-Spends t w
        (mark_tx_signed work.transaction_id (network.keccak256 signed.raw) signed.sighash
          unsigned.gas_limit unsigned.max_fee_per_gas unsigned.max_priority_fee_per_gas w.db)
        _ _ (λ e. unspent t w (err e))
        (λ d h.
          let signing = mark_tx_signed-spends t work.transaction_id _ _ _ _ _ w.db d h in
          let sending = send_signed-Spends signed.raw (record w { db = d }) in omega arith)

  module _ (config : Config) (w : World) where
    sign_and_send-Spends : Spends t w (sign_and_send config network work actor w)
    unfolding sign_and_send
    sign_and_send-Spends =
        found-Spends t w (network.transfer_data work.authorization) _ _
          (unspent t w (err invalid_calldata))
          (λ calldata.
            simulation-Spends t w (network.call work.signer_address calldata) _ _ _
              (unspent t w (err unavailable))
              (marked-Spends t _ _ w (
                mark_intent_unsettleable-SignsNone t work.payment_id work.transaction_id actor
                  w.db))
              (result-Spends t w (service_fees config network) _ _ (λ e. unspent t w (err e))
                (λ f h.
                  found-Spends t w
                    (network.sign_transaction (unsigned_transaction config work calldata f.0 f.1)) _
                    _ (unspent t w (err unavailable))
                    (λ signed.
                      send_recorded-Spends (unsigned_transaction config work calldata f.0 f.1)
                        signed w))))

    broadcast_claimed-Spends :
        (now : ℕ) → Spends t w (broadcast_claimed config network now work actor w)
    unfolding broadcast_claimed
    broadcast_claimed-Spends now =
        if-Spends t w (not (is_empty work.tx_hash)) _ _ (unspent t w (ok work.tx_hash)) (
          if-Spends t w (ambiguous_broadcast work) _ _
            (marked-Spends t _ _ w
              (mark_tx_ambiguous-SignsNone t work.payment_id work.transaction_id actor w.db))
            (if-Spends t w (not (broadcast_pending work)) _ _ (unspent t w (err unexpected_status))
              (if-Spends t w (ltb (now + config.expiry_margin) work.authorization.valid_before) _ _
                sign_and_send-Spends
                (marked-Spends t _ _ w (
                  mark_intent_expired-SignsNone t work.payment_id work.transaction_id actor
                    w.db)))))

-- One attempt, with whatever work was loaded, and whatever the network answers.
pub record BroadcastAttempt : Type 0 where
  pub config : Config
  pub network : Network
  pub now : ℕ
  pub work : Work
  pub actor : Text

unfoldable pub attempts : List BroadcastAttempt → World → World
attempts [] w = w
attempts (a ∷ more) w =
    attempts more (broadcast_claimed a.config a.network a.now a.work a.actor w).0

attempts-Spends :
    (t : ℕ) (tries : List BroadcastAttempt) (w : World) → budget t (attempts tries w) ≤ budget t w
unfolding attempts
attempts-Spends t [] w = omega arith
attempts-Spends t (a ∷ more) w =
    let one = broadcast_claimed-Spends t a.network a.work a.actor a.config w a.now in
    let rest =
      attempts-Spends t more (broadcast_claimed a.config a.network a.now a.work a.actor w).0 in
    omega arith

-- A transaction that has not been sent, and of which at most one row awaits its signature, is sent at
-- most once by any sequence of attempts, even where attempts act on stale work and the network's
-- answers are arbitrary.
pub sent_at_most_once :
    (t : ℕ) (tries : List BroadcastAttempt) (w : World)
    → times_sent t w ≡ 0
    → unsigned_rows t w.db ≤ 1
    → times_sent t (attempts tries w) ≤ 1
sent_at_most_once t tries w none_sent one = let le = attempts-Spends t tries w in omega arith

-- No sequence of attempts of broadcastClaimed sends a transaction of which no row awaits its signature,
-- with whatever work and whatever answers of the network. The sends of recovery are not among them.
pub signed_not_sent_by_attempts :
    (t : ℕ) (tries : List BroadcastAttempt) (w : World)
    → unsigned_rows t w.db ≡ 0
    → times_sent t (attempts tries w) ≤ times_sent t w
signed_not_sent_by_attempts t tries w none_left = let le = attempts-Spends t tries w in omega arith
