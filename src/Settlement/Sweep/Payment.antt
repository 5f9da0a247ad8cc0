-- ===== src/Settlement/Sweep/Payment.antt =====
-- internal/settlement/recovery.go: what recovery does with one payment is within the worker's actions.
use facilitator.Base.{
  ℕ, ◌≡◌, sym, subst, ◌∙◌, some, ◌++◌, map, Memᴰ, Text, codes, text_eq, text_eq-eq, is_empty, false,
  inl,
}
use facilitator.Settlement.Work.{Work}
use facilitator.Settlement.Service.{Network, World}
use facilitator.Settlement.Recovery.{
  RecoveryConfig, Surroundings, stored, sign_identical, replacement_of, hand_over, send,
  rebroadcast, resend, resign, resolve_ambiguous, price_replacement, replace_stuck, is_stuck,
  recover_payment, stored_fees, in_backoff, ambiguous_retry_delay,
}
use facilitator.Settlement.Sweep.Actions.{
  OnFile, hash_column, finds, retries, supersedes_ambiguous, supersedes,
}
use facilitator.Settlement.Sweep.Runs.{
  written-RunsTo, RunsTo, offer-by, reading-by, known-by, idle-RunsTo, then-RunsTo, stored-RunsTo,
  again-Runs, then_send-RunsTo, if-by, option-by, result-by,
}
use facilitator.Settlement.Sweep.Hashes.{load-hash, sign_identical-hash, price_replacement-hash}
use facilitator.Store.Schema.{Status, Db, status_eq}
use facilitator.Store.Load.{load_settlement_work}
use facilitator.Store.Recovery.{
  mark_tx_recovered_broadcast, mark_ambiguous_retry, mark_tx_ambiguous_replaced, mark_tx_replaced,
}

module _ (keccak : Text → Text) (u : Db) (network : Network)
    (hashes : (x : Text) → network.keccak256 x ≡ keccak x) where
  rebroadcast-RunsTo :
      (work : Work) (actor raw : Text) (w : World)
      → OnFile keccak work.transaction_id raw w.db
      → RunsTo keccak u w (rebroadcast network work actor raw w)
  unfolding rebroadcast send
  rebroadcast-RunsTo work actor raw w held =
      then-RunsTo keccak u w sent _ (again-Runs keccak u w work.transaction_id raw held) (
        result-by (RunsTo keccak u sent)
          (send network work.transaction_id raw (codes "0x" ++ work.raw_hash) w).1 _ _
          (λ e.
            result-by (RunsTo keccak u sent)
              (mark_ambiguous_retry work.payment_id work.transaction_id w.db) _ _
              (λ x. idle-RunsTo keccak u sent _)
              (λ d at_d.
                written-RunsTo keccak u sent d _
                  (retries work.payment_id work.transaction_id at_d)))
          (λ v at_v.
            stored-RunsTo keccak u sent
              (mark_tx_recovered_broadcast work.payment_id work.transaction_id
                (codes "0x" ++ work.raw_hash) actor w.db)
              (λ d at_d. finds work.payment_id work.transaction_id _ actor at_d)))
    where
      sent : World
      sent = hand_over work.transaction_id raw w

  resend-RunsTo :
      (new_id : ℕ) (work : Work) (actor : Text) (max_fee priority : ℕ) (raw raw_hash : Text)
      (w : World)
      → Memᴰ (work.transaction_id, some work.raw_hash) (map hash_column w.db.transactions)
      → raw_hash ≡ network.keccak256 raw
      → RunsTo keccak u w (resend network new_id work actor max_fee priority (raw, raw_hash) w)
  unfolding resend
  resend-RunsTo new_id work actor max_fee priority raw raw_hash w held hash =
      if-by (RunsTo keccak u w) (text_eq raw_hash work.raw_hash) _ _
        (λ same. rebroadcast-RunsTo work actor raw w (
          inl (
            subst (λ x. Memᴰ (work.transaction_id, some x) (map hash_column w.db.transactions))
              (sym (text_eq-eq raw_hash work.raw_hash same) ∙ hash ∙ hashes raw) held)))
        (λ other.
          then_send-RunsTo keccak u w
            (mark_tx_ambiguous_replaced new_id work.payment_id work.transaction_id
              (replacement_of work raw_hash max_fee priority) actor w.db)
            network new_id raw (codes "0x" ++ raw_hash)
            (λ d at_d.
              supersedes_ambiguous work.payment_id work.transaction_id
                (replacement_of work raw_hash max_fee priority) actor (hash ∙ hashes raw) at_d))

  resign-RunsTo :
      (config : RecoveryConfig) (new_id : ℕ) (work : Work) (actor : Text) (w : World)
      → Memᴰ (work.transaction_id, some work.raw_hash) (map hash_column w.db.transactions)
      → RunsTo keccak u w (resign config network new_id work actor w)
  unfolding resign
  resign-RunsTo config new_id work actor w held =
      if-by (RunsTo keccak u w)
        (in_backoff work.db_now work.transaction_updated_at
          (ambiguous_retry_delay work.ambiguous_attempts config.recovery_grace))
        _ _ (λ early. idle-RunsTo keccak u w _)
        (λ late.
          option-by (RunsTo keccak u w) (stored_fees work) _ _ (idle-RunsTo keccak u w _)
            (λ fees at_fees.
              result-by (RunsTo keccak u w) (sign_identical network work fees.0 fees.1) _ _
                (λ e. idle-RunsTo keccak u w _)
                (λ signed at_signed.
                  resend-RunsTo new_id work actor fees.0 fees.1 signed.0 signed.1 w held
                    (sign_identical-hash network work fees.0 fees.1 signed.0 signed.1 at_signed))))

  replace_stuck-RunsTo :
      (config : RecoveryConfig) (new_id : ℕ) (work : Work) (actor : Text) (w : World)
      → RunsTo keccak u w (replace_stuck config network new_id work actor w)
  unfolding replace_stuck
  replace_stuck-RunsTo config new_id work actor w =
      option-by (RunsTo keccak u w) (stored_fees work) _ _ (idle-RunsTo keccak u w _)
        (λ fees at_fees.
          offer-by (RunsTo keccak u w)
            (price_replacement config.service_config network work fees.0 fees.1) _ _ _
            (λ e. idle-RunsTo keccak u w _) (idle-RunsTo keccak u w _)
            (λ signed r at_r.
              then_send-RunsTo keccak u w
                (mark_tx_replaced new_id work.payment_id work.transaction_id r actor w.db) network
                new_id signed.raw r.tx_hash
                (λ d at_d.
                  supersedes work.payment_id work.transaction_id r actor
                    (price_replacement-hash config.service_config network work fees.0 fees.1 signed
                        r at_r
                      ∙ hashes signed.raw)
                    at_d)))

module _ (keccak : Text → Text) (u : Db) (outside : Surroundings)
    (hashes : (x : Text) → outside.network.keccak256 x ≡ keccak x) where
  resolve_ambiguous-RunsTo :
      (config : RecoveryConfig) (new_id : ℕ) (work : Work) (actor : Text) (w : World)
      → (is_empty work.raw_hash ≡ false
          → Memᴰ (work.transaction_id, some work.raw_hash) (map hash_column w.db.transactions))
      → RunsTo keccak u w (resolve_ambiguous config outside new_id work actor w)
  unfolding resolve_ambiguous
  resolve_ambiguous-RunsTo config new_id work actor w held =
      if-by (RunsTo keccak u w) (is_empty work.raw_hash) _ _ (λ empty. idle-RunsTo keccak u w _)
        (λ full.
          reading-by (RunsTo keccak u w) (outside.chain.transaction_receipt tx_hash) _ _ _
            (idle-RunsTo keccak u w _)
            (known-by (RunsTo keccak u w) (outside.knows tx_hash) _ _ _ (idle-RunsTo keccak u w _)
              found-RunsTo
              (resign-RunsTo keccak u outside.network hashes config new_id work actor w
                (held full)))
            (λ receipt. found-RunsTo))
    where
      tx_hash : Text
      tx_hash = codes "0x" ++ work.raw_hash

      found-RunsTo : RunsTo keccak u w (
          stored
            (mark_tx_recovered_broadcast work.payment_id work.transaction_id tx_hash actor w.db)
            w)
      found-RunsTo =
          stored-RunsTo keccak u w
            (mark_tx_recovered_broadcast work.payment_id work.transaction_id tx_hash actor w.db)
            (λ d at_d. finds work.payment_id work.transaction_id _ actor at_d)

  pub recover_payment-RunsTo :
      (config : RecoveryConfig) (new_id payment_id : ℕ) (actor : Text) (w : World)
      → RunsTo keccak u w (recover_payment config outside new_id payment_id actor w)
  unfolding recover_payment
  recover_payment-RunsTo config new_id payment_id actor w =
      result-by (RunsTo keccak u w) (load_settlement_work payment_id w.db) _ _
        (λ e. idle-RunsTo keccak u w _)
        (λ work at_work.
          if-by (RunsTo keccak u w) (status_eq work.transaction_status Status.ambiguous) _ _
            (λ ambiguous.
              resolve_ambiguous-RunsTo config new_id work actor w
                (λ full. load-hash payment_id w.db work at_work full))
            (λ other.
              if-by (RunsTo keccak u w) (is_stuck config work) _ _
                (λ stuck.
                  replace_stuck-RunsTo keccak u outside.network hashes config new_id work actor w)
                (λ fresh. idle-RunsTo keccak u w _)))
