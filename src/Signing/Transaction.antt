-- ===== src/Signing/Transaction.antt =====
-- internal/signer/signer.go and policy.go: what this process asks to have signed, and what it takes
-- from the policy signer. go-ethereum's decoding, address texts, sender recovery and digest, and the
-- signer's answer over HTTP, are parameters.
pub mod Answer
pub mod Boundary
use facilitator.Base.{
  ℕ, Option, none, some, List, [], ◌∷◌, Text, text_eq, is_empty, equal_fold, Bool, true, false,
  ◌&&◌, ◌||◌, not, leb, ltb, ◌==◌, if◌then◌else◌, ℤ, pos, negsuc, length, set_string,
}
use facilitator.Settlement.Calldata.{first_bytes}
use facilitator.Signing.Policy.{
  WireAuthorization, Request, mainnet_usdc, is_positive, is_negative, exceeds,
}

pub record Transaction : Type 0 where
  pub chain_id : ℕ
  pub nonce : ℕ
  pub to : Text
  pub data_bytes : List ℕ
  pub value : Text
  pub gas_limit : ℕ
  pub max_fee_per_gas : Text
  pub max_priority_fee_per_gas : Text
  pub authorization : Option WireAuthorization

pub data Complaint : Type 0 where
  other_chain other_contract other_function no_gas some_ether bad_max_fee bad_priority_fee
        priority_above_max :
      Complaint

-- errs = append(errs, e), unless the test holds.
abbrev pub expect {ℓ} : {A : Type ℓ} → Bool → A → List A → List A
expect true complaint rest = rest
expect false complaint rest = complaint ∷ rest

abbrev pub is_number : (ℤ → Bool) → Option ℤ → Bool
is_number test none = false
is_number test (some n) = test n

abbrev pub is_zero : ℤ → Bool
is_zero (pos n) = n == 0
is_zero (negsuc n) = false

-- Of two numbers that are there, with a positive ceiling.
abbrev pub ordered : Option ℤ → Option ℤ → Bool
ordered none tip = true
ordered (some fee) none = true
ordered (some fee) (some tip) = if is_positive fee then not (exceeds tip fee) else true

-- Transaction.Validate. `selector` is the function selector of transferWithAuthorization.
unfoldable pub validate : List ℕ → Transaction → List Complaint
unfolding equal_fold text_eq first_bytes set_string exceeds
validate selector t = expect (t.chain_id == 1) other_chain (
    expect (equal_fold t.to mainnet_usdc) other_contract (
      expect (leb 4 (length t.data_bytes) && text_eq (first_bytes 4 t.data_bytes) selector)
        other_function
        (expect (not (t.gas_limit == 0)) no_gas (
          expect (is_number is_zero (set_string t.value)) some_ether (
            expect (is_number is_positive (set_string t.max_fee_per_gas)) bad_max_fee (
              expect (is_number (λ n. not (is_negative n)) (set_string t.max_priority_fee_per_gas))
                bad_priority_fee
                (expect
                  (ordered (set_string t.max_fee_per_gas) (set_string t.max_priority_fee_per_gas))
                  priority_above_max [])))))))

-- What go-ethereum decodes from the raw bytes; a recipient that is nil is `none`.
pub record Decoded : Type 0 where
  pub transaction_type : ℕ
  pub chain_id : ℕ
  pub nonce : ℕ
  pub to : Option (List ℕ)
  pub value : ℕ
  pub data_bytes : List ℕ
  pub gas : ℕ
  pub gas_fee_cap : ℤ
  pub gas_tip_cap : ℤ

pub record Codec : Type 0 where
  pub unmarshal : List ℕ → Option Decoded
  pub hex : List ℕ → Text
  pub sender : ℕ → Decoded → Option (List ℕ)
  pub hash : ℕ → Decoded → List ℕ

pub data Mismatch : Type 0 where
  type_differs chain_differs nonce_differs recipient_differs value_differs calldata_differs
        gas_differs fee_differs tip_differs :
      Mismatch

unfoldable pub int_eq : ℤ → ℤ → Bool
int_eq (pos a) (pos b) = a == b
int_eq (negsuc a) (negsuc b) = a == b
int_eq _ _ = false

-- equalWei, as a test.
unfoldable pub equal_wei : ℤ → Text → Bool
unfolding set_string int_eq
equal_wei got want = is_number (λ n. int_eq got n) (set_string want)

abbrev pub sent_to : Codec → Option (List ℕ) → Text → Bool
sent_to codec none want = false
sent_to codec (some to) want = equal_fold (codec.hex to) want

unfoldable pub mismatches : Codec → Decoded → Transaction → List Mismatch
unfolding equal_fold text_eq equal_wei
mismatches codec signed want = expect (signed.transaction_type == 2) type_differs (
    expect (signed.chain_id == want.chain_id) chain_differs (
      expect (signed.nonce == want.nonce) nonce_differs (
        expect (sent_to codec signed.to want.to) recipient_differs (
          expect (signed.value == 0) value_differs (
            expect (text_eq signed.data_bytes want.data_bytes) calldata_differs (
              expect (signed.gas == want.gas_limit) gas_differs (
                expect (equal_wei signed.gas_fee_cap want.max_fee_per_gas) fee_differs (
                  expect (equal_wei signed.gas_tip_cap want.max_priority_fee_per_gas) tip_differs
                    []))))))))

pub record SignedTransaction : Type 0 where
  pub raw : List ℕ
  pub sig_hash : List ℕ

abbrev pub none_of {ℓ} : {A : Type ℓ} → List A → Bool
none_of [] = true
none_of (x ∷ xs) = false

-- verify; any error is `none`.
unfoldable pub verify : Codec → Text → List ℕ → Transaction → Option SignedTransaction
unfolding mismatches equal_fold
verify codec address raw want = elim (codec.unmarshal raw) [
  | none ↦ none
  | some signed ↦
      if none_of (mismatches codec signed want)
      then elim (codec.sender want.chain_id signed) [
        | none ↦ none
        | some sender ↦
            if equal_fold (codec.hex sender) address
            then some (record { raw = raw; sig_hash = codec.hash want.chain_id signed })
            else none
      ]
      else none
]

abbrev pub request_of : Transaction → WireAuthorization → Request
request_of t authorization = record {
  nonce = t.nonce;
  gas_limit = t.gas_limit;
  max_fee_per_gas = t.max_fee_per_gas;
  max_priority_fee_per_gas = t.max_priority_fee_per_gas;
  authorization = authorization;
}

-- PolicyClient.SignTransaction. `boundary` is the answer's raw transaction, decoded from hexadecimal;
-- an empty one is refused.
unfoldable pub sign_transaction :
    Codec → List ℕ → Text → (Request → Option (List ℕ)) → Transaction → Option SignedTransaction
unfolding validate verify
sign_transaction codec selector address boundary t =
    if none_of (validate selector t)
    then elim t.authorization [
      | none ↦ none
      | some authorization ↦ elim (boundary (request_of t authorization)) [
        | none ↦ none
        | some raw ↦ if is_empty raw then none else verify codec address raw t
      ]
    ]
    else none
