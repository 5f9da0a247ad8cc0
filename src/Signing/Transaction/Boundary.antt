-- ===== src/Signing/Transaction/Boundary.antt =====
-- internal/signer/policy.go and internal/policy/policy.go together: an honest boundary is believed.
use facilitator.Base.{
  ℕ, ◌≡◌, refl, sym, ◌∙◌, some, List, Text, text_eq, text_eq_refl, equal_fold, Bool, true, ◌==◌,
  ==-refl, ℤ, pos, set_string,
}
use facilitator.Signing.Policy.{
  WireAuthorization, Encoder, Limits, DynamicFeeTx, allowed, unsigned, mainnet_usdc,
}
use facilitator.Signing.Policy.Ceilings.{Permitted, unsigned-Permitted}
use facilitator.Signing.Transaction.{
  Transaction, Decoded, Codec, expect, int_eq, equal_wei, mismatches, none_of, verify, request_of,
}

-- The bytes of a signed transaction decode to the transaction.
abbrev pub decoded_of : DynamicFeeTx → Decoded
decoded_of tx = record {
  transaction_type = 2;
  chain_id = tx.chain_id;
  nonce = tx.nonce;
  to = some tx.to;
  value = tx.value;
  data_bytes = tx.data_bytes;
  gas = tx.gas;
  gas_fee_cap = tx.gas_fee_cap;
  gas_tip_cap = tx.gas_tip_cap;
}

expect-met {ℓ} :
    {A : Type ℓ} (b : Bool) (complaint : A) (rest : List A)
    → b ≡ true
    → none_of rest ≡ true
    → none_of (expect b complaint rest) ≡ true
expect-met b complaint rest holds h = rw holds h

same_number : (a b : ℕ) → a ≡ b → (a == b) ≡ true
same_number a b e = rw e (==-refl b)

equal_wei_refl :
    (n : ℕ) (got : ℤ) (want : Text)
    → set_string want ≡ some (pos n)
    → got ≡ pos n
    → equal_wei got want ≡ true
unfolding equal_wei int_eq
equal_wei_refl n got want is_n same = rw is_n (rw same (==-refl n))

Permitted-mismatches :
    (codec : Codec) (encoder : Encoder) (limits : Limits) (t : Transaction)
    (authorization : WireAuthorization) (tx : DynamicFeeTx)
    → t.chain_id ≡ 1
    → equal_fold (codec.hex (encoder.hex_to_address mainnet_usdc)) t.to ≡ true
    → tx.data_bytes ≡ t.data_bytes
    → Permitted encoder (request_of t authorization) limits tx
    → none_of (mismatches codec (decoded_of tx) t) ≡ true
unfolding mismatches
Permitted-mismatches codec encoder limits t authorization tx mainnet usdc packed p =
    expect-met (tx.chain_id == t.chain_id) _ _ (same_number _ _ (p.on_mainnet ∙ sym mainnet)) (
      expect-met (tx.nonce == t.nonce) _ _ (same_number _ _ p.same_nonce) (
        expect-met (equal_fold (codec.hex tx.to) t.to) _ _ (rw p.to_usdc usdc) (
          expect-met (tx.value == 0) _ _ (same_number _ _ p.no_ether) (
            expect-met (text_eq tx.data_bytes t.data_bytes) _ _
              (rw packed (text_eq_refl t.data_bytes))
              (expect-met (tx.gas == t.gas_limit) _ _ (same_number _ _ p.same_gas) (
                expect-met (equal_wei tx.gas_fee_cap t.max_fee_per_gas) _ _
                  (equal_wei_refl p.fee _ t.max_fee_per_gas p.same_fee.0 p.same_fee.1)
                  (expect-met (equal_wei tx.gas_tip_cap t.max_priority_fee_per_gas) _ _
                    (equal_wei_refl p.tip _ t.max_priority_fee_per_gas p.same_tip.0 p.same_tip.1)
                    refl)))))))

-- What the boundary builds for a transaction's request, from the calldata that this process packed too, shows no
-- mismatch with the transaction; so the client takes the signed bytes, if they decode to what was
-- built and are signed by the address it knows.
pub unsigned-verify :
    (codec : Codec) (encoder : Encoder) (limits : Limits) (address : Text) (t : Transaction)
    (authorization : WireAuthorization) (tx : DynamicFeeTx) (raw sender : List ℕ)
    → t.chain_id ≡ 1
    → equal_fold (codec.hex (encoder.hex_to_address mainnet_usdc)) t.to ≡ true
    → unsigned encoder (request_of t authorization) limits ≡ allowed tx
    → tx.data_bytes ≡ t.data_bytes
    → codec.unmarshal raw ≡ some (decoded_of tx)
    → codec.sender t.chain_id (decoded_of tx) ≡ some sender
    → equal_fold (codec.hex sender) address ≡ true
    → verify codec address raw t
      ≡ some (record { raw = raw; sig_hash = codec.hash t.chain_id (decoded_of tx) })
unfolding verify
unsigned-verify codec encoder limits address t authorization tx raw sender mainnet usdc built packed
      decodes signed_by known =
    rw (verify, decodes)
      (rw
        (Permitted-mismatches codec encoder limits t authorization tx mainnet usdc packed
          (unsigned-Permitted encoder (request_of t authorization) limits tx built))
        (rw signed_by (rw known)))
