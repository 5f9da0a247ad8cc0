-- ===== src/Tests/Recovery.antt =====
-- The recovery worker, on the test data.
use facilitator.Base.{
  ◌≡◌, ◌≤◌, refl, ◌*◌, none, some, List, [], ◌∷◌, Memᴰ, codes, false, arith, pos,
}
use facilitator.Settlement.State.{State}
use facilitator.Settlement.Service.{World}
use facilitator.Settlement.Recovery.{RecoveryConfig, Surroundings, ambiguous_retry_delay}
use facilitator.Settlement.Recovery.Quiet.{retried}
use facilitator.Settlement.Recovery.Backoff.{doubled, ambiguous_retry_delay-doubled}
use facilitator.Settlement.Sweep.{Moment, process}
use facilitator.Settlement.Sweep.Actions.{Reached, Backed}
use facilitator.Settlement.Sweep.Round.{process-Reached, process-Evolves, process-OnFile}
use facilitator.Store.Schema.{Db, Payment, Transaction, Status}
use facilitator.Store.Evolution.{Evolves}
use facilitator.Tests.Data.{payment, transaction, database, signer, signature}
use facilitator.Tests.Service.{network, config, chain}

-- A broadcast whose outcome is not known.
abbrev lost : Payment
lost =
    let p = payment 1 (codes "one") State.manual_review in
    record p { payer_signature = some signature }

abbrev lost_transaction : Transaction
lost_transaction =
    let t = transaction 11 1 3 Status.ambiguous in
    record t {
      raw_transaction_hash = some (codes "aa");
      gas_limit = some 60000;
      max_fee_per_gas = some 30;
      max_priority_fee_per_gas = some 3;
    }

abbrev lost_world : World
lost_world = record { db = database (lost ∷ []) (lost_transaction ∷ []); sent = [] }

abbrev recovery_config : RecoveryConfig
recovery_config = record {
  service_config = config;
  signer_address = signer;
  recovery_grace = 10;
  replacement_after = 50;
  confirmations = 12;
  lease_duration = 30;
}

-- The node has neither a receipt nor the transaction.
abbrev outside : Surroundings
outside = record {
  network = network;
  chain = record chain { transaction_receipt = λ h. some none };
  knows = λ h. some false;
}

abbrev moment : Moment
moment = record { now = 100; outside = outside; new_id = 12; cancelled = false }

abbrev round : World → World
round w = process recovery_config (codes "worker-1") (λ i. 100) (λ i k. moment) w

ambiguous_retry_delay-doubled_example :
    (ambiguous_retry_delay 7 60 ≡ pos (doubled 7 60))
    × (60 ≤ doubled 7 60)
    × (doubled 7 60 ≤ 60 * 32)
ambiguous_retry_delay-doubled_example = ambiguous_retry_delay-doubled 7 60 (omega arith)

-- The retry is counted at time 1, and the payment is visited at time 15, before the grace, doubled
-- once, is over.
abbrev counted_db : Db
counted_db = record (lost_world.db) { transactions = retried 1 lost_transaction ∷ []; clock = 1 }

process-Reached_example :
    (k : List Db) × Reached (λ x. codes "aa") lost_world (lost_world.db ∷ []) (round lost_world) k
process-Reached_example =
    process-Reached (λ x. codes "aa") recovery_config (codes "worker-1") (λ i. 100) (λ i k. moment)
      (λ i k x. refl) lost_world

process-Evolves_example : Evolves lost_world.db (round lost_world).db
process-Evolves_example =
    process-Evolves (λ x. codes "aa") recovery_config (codes "worker-1") (λ i. 100) (λ i k. moment)
      (λ i k x. refl) lost_world

-- The round sends the recorded bytes again.
process-OnFile_example :
    (k : List Db) × Reached (λ x. codes "aa") lost_world (lost_world.db ∷ []) (round lost_world) k
    × Backed (λ x. codes "aa") [] k (11, codes "02f8")
unfolding process facilitator.Store.Statements.update_transaction
    facilitator.Store.Statements.transaction_at facilitator.Store.Statements.transition_payment
process-OnFile_example =
    process-OnFile (λ x. codes "aa") recovery_config (codes "worker-1") (λ i. 100) (λ i k. moment)
      (λ i k x. refl) lost_world (11, codes "02f8") (Memᴰ.head refl)
