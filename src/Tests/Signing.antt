-- ===== src/Tests/Signing.antt =====
-- The signing boundary and its client, on one request.
use facilitator.Base.{
  ℕ, ◌≡◌, refl, none, some, List, [], ◌∷◌, ◌++◌, Text, codes, length, true, ◌==◌, if◌then◌else◌,
  ltb, ◌*◌, ◌/◌, ◌^◌, pos, arith, format_int,
}
use facilitator.Settlement.Work.{Authorization}
use facilitator.Settlement.Calldata.Transfer
use facilitator.Signing.Policy
use facilitator.Signing.Policy.{
  WireAuthorization, Request, Limits, DynamicFeeTx, Encoder, mainnet_usdc,
}
use facilitator.Signing.Policy.Ceilings.{Permitted, unsigned-Permitted}
use facilitator.Signing.Transaction.{
  Transaction, Codec, SignedTransaction, sign_transaction, verify,
}
use facilitator.Signing.Transaction.Answer.{Safe, Answers, sign_transaction-Answers}
use facilitator.Signing.Transaction.Boundary.{decoded_of, unsigned-verify}
use facilitator.Tests.Data.{signer}

-- An encoder that keeps of the arguments only the nonce.
abbrev encoder : Encoder
encoder = record {
  is_hex_address = λ s. true;
  hex_to_address = λ s. 1 ∷ [];
  pack = λ a. some (227 ∷ 238 ∷ 22 ∷ 14 ∷ a.nonce);
}

abbrev authorization : Authorization
authorization = record {
  from = codes "payer";
  to = codes "recipient";
  value = codes "1000";
  valid_after = 0;
  valid_before = 5000 * 10 ^ 9;
  nonce = codes "0x1111111111111111111111111111111111111111111111111111111111111111";
  signature =
      codes
        "0x111111111111111111111111111111111111111111111111111111111111111111111111111111111111111111111111111111111111111111111111111111111b";
}

abbrev wire_authorization : WireAuthorization
wire_authorization = record {
  from = codes "payer";
  to = codes "recipient";
  value = codes "1000";
  valid_after = codes "0";
  valid_before = codes "5000";
  nonce = codes "0x1111111111111111111111111111111111111111111111111111111111111111";
  signature =
      codes
        "0x111111111111111111111111111111111111111111111111111111111111111111111111111111111111111111111111111111111111111111111111111111111b";
}

abbrev nonce_bytes : List ℕ
nonce_bytes =
    17 ∷ 17 ∷ 17 ∷ 17 ∷ 17 ∷ 17 ∷ 17 ∷ 17 ∷ 17 ∷ 17 ∷ 17 ∷ 17 ∷ 17 ∷ 17 ∷ 17 ∷ 17 ∷ 17 ∷ 17 ∷ 17
    ∷ 17 ∷ 17 ∷ 17 ∷ 17 ∷ 17 ∷ 17 ∷ 17 ∷ 17 ∷ 17 ∷ 17 ∷ 17 ∷ 17 ∷ 17 ∷ []

abbrev transaction : Transaction
transaction = record {
  chain_id = 1;
  nonce = 3;
  to = mainnet_usdc;
  data_bytes = 227 ∷ 238 ∷ 22 ∷ 14 ∷ nonce_bytes;
  value = codes "0";
  gas_limit = 60000;
  max_fee_per_gas = codes "30";
  max_priority_fee_per_gas = codes "3";
  authorization = some wire_authorization;
}

abbrev request : Request
request = record {
  nonce = 3;
  gas_limit = 60000;
  max_fee_per_gas = codes "30";
  max_priority_fee_per_gas = codes "3";
  authorization = wire_authorization;
}

abbrev limits : Limits
limits = record {
  max_fee_per_gas_wei = some (pos 100);
  max_priority_fee_per_gas_wei = some (pos 10);
  max_gas_limit = 100000;
}

abbrev built : DynamicFeeTx
built = record {
  chain_id = 1;
  nonce = 3;
  to = 1 ∷ [];
  value = 0;
  gas = 60000;
  gas_fee_cap = pos 30;
  gas_tip_cap = pos 3;
  data_bytes = 227 ∷ 238 ∷ 22 ∷ 14 ∷ nonce_bytes;
}

abbrev codec : Codec
codec = record {
  unmarshal = λ raw. some (decoded_of built);
  hex = λ address. if length address == 1 then mainnet_usdc else signer;
  sender = λ chain signed. some (1 ∷ 2 ∷ []);
  hash = λ chain signed. 7 ∷ [];
}

abbrev raw_bytes : List ℕ
raw_bytes = 2 ∷ 248 ∷ []

wire-transfer_with_authorization_data_example :
    Policy.transfer_with_authorization_data encoder (Transfer.wire authorization) ≡ (
      if ltb (authorization.valid_after / 10 ^ 9) (authorization.valid_before / 10 ^ 9)
      then Transfer.transfer_with_authorization_data encoder authorization
      else none)
wire-transfer_with_authorization_data_example =
    Transfer.wire-transfer_with_authorization_data encoder authorization (omega arith) (omega arith)

unsigned-Permitted_example : Permitted encoder request limits built
unfolding Policy.unsigned
unsigned-Permitted_example = unsigned-Permitted encoder request limits built refl

abbrev answer : SignedTransaction
answer = record { raw = raw_bytes; sig_hash = 7 ∷ [] }

sign_transaction-Answers_example :
    Safe (227 ∷ 238 ∷ 22 ∷ 14 ∷ []) transaction × Answers codec signer answer transaction
unfolding sign_transaction
sign_transaction-Answers_example =
    sign_transaction-Answers codec (227 ∷ 238 ∷ 22 ∷ 14 ∷ []) signer (λ r. some raw_bytes)
      transaction answer refl

unsigned-verify_example : verify codec signer raw_bytes transaction ≡ some answer
unfolding facilitator.Base.equal_fold Policy.unsigned
unsigned-verify_example =
    unsigned-verify codec encoder limits signer transaction wire_authorization built raw_bytes
      (1 ∷ 2 ∷ []) refl refl refl refl refl refl refl
