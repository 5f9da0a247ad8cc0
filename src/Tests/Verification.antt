-- ===== src/Tests/Verification.antt =====
-- The /verify service on one request: a payment that is accepted and filed.
use facilitator.Base.{refl, some, [], codes, true, false, text_eq, find_row, count_rows}
use facilitator.Signing.Policy.{mainnet_usdc}
use facilitator.Verification.Request.{
  Fields, no_fields, field, json_string, json_object, Requirements, VerifyRequest, EvmPayload,
  Library,
}
use facilitator.Verification.Service.{VerifyResponse, scheme_response, Oracle, verify_request}
use facilitator.Verification.Service.Valid.{Backed, verify_request-Backed}
use facilitator.Tests.Data.{verified_db}

abbrev requirements : Requirements
requirements = record {
  scheme = codes "exact";
  network = codes "eip155:1";
  asset = mainnet_usdc;
  amount = codes "1000";
  pay_to = codes "recipient";
  extra =
      field (codes "name") (json_string (codes "USD Coin"))
        (field (codes "version") (json_string (codes "2")) no_fields);
}

abbrev evm_payload : EvmPayload
evm_payload = record {
  from = codes "Payer";
  to = codes "Recipient";
  value = codes "1000";
  valid_after = codes "10";
  valid_before = codes "20";
  nonce = codes "0x1111111111111111111111111111111111111111111111111111111111111111";
  signature =
      codes
        "0x111111111111111111111111111111111111111111111111111111111111111111111111111111111111111111111111111111111111111111111111111111111b";
}

abbrev authorization_fields : Fields
authorization_fields = field (codes "from") (json_string evm_payload.from) (
    field (codes "to") (json_string evm_payload.to) (
      field (codes "value") (json_string evm_payload.value) (
        field (codes "validAfter") (json_string evm_payload.valid_after) (
          field (codes "validBefore") (json_string evm_payload.valid_before)
            (field (codes "nonce") (json_string evm_payload.nonce) no_fields)))))

abbrev request : VerifyRequest
request = record {
  x402_version = 2;
  payment_payload = record {
    x402_version = 2;
    accepted = requirements;
    payload =
        field (codes "authorization") (json_object authorization_fields)
          (field (codes "signature") (json_string evm_payload.signature) no_fields);
    extensions = no_fields;
  };
  payment_requirements = requirements;
}

abbrev library : Library
library = record {
  deep_equal = λ a b. text_eq a.amount b.amount;
  is_permit2_payload = λ fields. false;
  is_eip3009_payload = λ fields. true;
  payload_from_map = λ fields. some evm_payload;
  is_hex_address = λ s. true;
  marshal = λ payload. some (codes "payload");
  sha256 = λ s. codes "hash";
  text_of = λ reason. codes "reason";
}

abbrev response : VerifyResponse
response = record { is_valid = true; invalid_reason = []; payer = codes "payer" }

abbrev oracle : Oracle
oracle = record {
  get_code = λ payer. some [];
  authorization_state = λ asset payer nonce. some (some false);
  scheme_verify = λ payload needs. scheme_response (some response);
}

verify_request-Backed_example :
    Backed true library oracle request response
      (verify_request true 9 library oracle request verified_db).0
unfolding verify_request facilitator.Store.Verification.record_verified find_row count_rows
    facilitator.Store.Verification.same_authorization facilitator.Store.Verification.insert_payment
    facilitator.Store.Statements.record_transition
verify_request-Backed_example =
    verify_request-Backed true 9 library oracle request verified_db response refl refl
