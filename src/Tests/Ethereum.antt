-- ===== src/Tests/Ethereum.antt =====
-- Two providers that are asked the same.
use facilitator.Base.{
  ℕ, ◌≡◌, ◌<◌, ◌≤◌, ◌^◌, refl, Option, some, List, [], ◌∷◌, All, Text, codes, true, false, ◌==◌,
  if◌then◌else◌, ℤ, pos, arith,
}
use facilitator.Settlement.Confirmation.{Receipt}
use facilitator.Ethereum.Agreement.{
  CallError, rpc_error, other_error, Outcome, answered, failed, call_provider,
}
use facilitator.Ethereum.Agreement.Evidence.{Ended, call_provider-Ended, call_provider-heard}
use facilitator.Ethereum.Reads.{
  RpcReceipt, normalize_hash, decode_receipt, transaction_receipt, decode_hex_uint_result,
  block_number, call, reverted,
}
use facilitator.Ethereum.Reads.Receipts.{
  Near, block_number-Near, transaction_receipt-agreed, decode_receipt-bounds,
  call-simulation_reverted,
}
use facilitator.Ethereum.Lookups.{RpcBlock, Block, BlockAnswers, block_by_number}
use facilitator.Ethereum.Lookups.Pinned.{Reported, block_by_number-Reported}

-- The first attempt times out.
abbrev attempts : ℕ → Outcome ℕ
attempts k = if k == 0 then failed other_error else answered 5

call_provider-Ended_example :
    Ended attempts (λ k. false) 2 0 (call_provider attempts (λ k. false) 2 0)
call_provider-Ended_example = call_provider-Ended attempts (λ k. false) 2 0

call_provider-heard_example :
    (heard : ℕ) × ((call_provider attempts (λ k. false) 2 0).0 ≡ answered heard)
call_provider-heard_example =
    call_provider-heard attempts (λ k. false) 2 1 5 (omega arith) refl (λ j lt. refl)

-- Heads that differ by one block.
abbrev heads : List (Outcome (Option Text))
heads = answered (some (codes "0x65")) ∷ answered (some (codes "0x64")) ∷ []

block_number-Near_example :
    All
      (λ o.
        (raw : Option Text) × (o ≡ answered raw)
        × ((x : ℕ) × (decode_hex_uint_result raw ≡ some x) × Near 100 x))
      heads
unfolding block_number
block_number-Near_example = block_number-Near heads 100 refl

abbrev revert : Outcome (Option Text)
revert = failed (rpc_error (pos 3) (codes "execution reverted"))

call-simulation_reverted_example :
    (code : ℤ) × (message : Text) × (reverted (rpc_error code message) ≡ true)
    × All
        (λ o. (e : CallError) × (o ≡ failed e) × (e ≡ rpc_error code message))
        (revert ∷ revert ∷ [])
unfolding call
call-simulation_reverted_example = call-simulation_reverted (revert ∷ revert ∷ []) refl

abbrev hash : Text
hash = codes "0xabababababababababababababababababababababababababababababababab"

abbrev mined : RpcReceipt
mined = record {
  transaction_hash = hash;
  status = codes "0x1";
  block_number = codes "0x64";
  block_hash = hash;
  gas_used = codes "0xc350";
  effective_gas_price = codes "0x14";
}

abbrev receipt : Receipt
receipt = record {
  status = 1;
  block_number = 100;
  block_hash = hash;
  gas_used = 50000;
  effective_gas_price = 20;
}

abbrev receipts : List (Outcome (Option (Option RpcReceipt)))
receipts = answered (some (some mined)) ∷ answered (some (some mined)) ∷ []

transaction_receipt-agreed_example :
    (requested_hash : Text) × (normalize_hash hash ≡ some requested_hash)
    × All
        (λ o.
          (raw : Option (Option RpcReceipt)) × (o ≡ answered raw)
          × ((x : Option Receipt) × (decode_receipt requested_hash raw ≡ some x)
              × (x ≡ some receipt)))
        receipts
unfolding transaction_receipt
transaction_receipt-agreed_example =
    transaction_receipt-agreed hash (λ h. receipts) (some receipt) refl

decode_receipt-bounds_example :
    (receipt.status ≤ 1)
    × (receipt.block_number < 2 ^ 64)
    × (receipt.gas_used < 2 ^ 64)
    × ((answer : RpcReceipt) × (some (some mined) ≡ some (some answer))
        × (normalize_hash answer.transaction_hash ≡ some hash))
unfolding decode_receipt
decode_receipt-bounds_example = decode_receipt-bounds hash (some (some mined)) receipt refl

abbrev latest : RpcBlock
latest = record { hash = hash; number = codes "0x64"; base_fee = codes "0x7" }

abbrev block : Block
block = record { hash = hash; number = 100; base_fee = 7 }

abbrev blocks : BlockAnswers
blocks = answered (some (some latest)) ∷ answered (some (some latest)) ∷ []

block_by_number-Reported_example :
    (head : ℕ) × All
      (λ o.
        (raw : Option Text) × (o ≡ answered raw)
        × ((x : ℕ) × (decode_hex_uint_result raw ≡ some x) × Near head x))
      heads
    × All (Reported head block) blocks
unfolding block_by_number
block_by_number-Reported_example =
    block_by_number-Reported (codes "a") (codes "b") heads (λ number. blocks) block refl refl
