-- ===== src/Store/Admission.antt =====
-- internal/store/settlement.go: what CreateSettlementIntent has made sure of when it reserves a nonce.
use facilitator.Base.{ℕ, ◌+◌, ◌<◌, ◌≡◌, none, some, Memᴰ, Text, Bool, true, false, count_rows}
use facilitator.Settlement.State.{State, can_transition}
use facilitator.Settlement.Errors.{Result, ok, err}
use facilitator.Settlement.Work.{Intent, IntentRequest}
use facilitator.Store.Schema.{Payment, Merchant, Db, duplicate}
use facilitator.Store.Statements.{active_of}
use facilitator.Store.Intent.{
  Outcome, merchant_settled, overall_settled, terminal_transaction, is_valid_request,
}
use facilitator.Store.Nonces.Written.{Written}
use facilitator.Walletproof.{normalize_address}

-- The payment may still be settled, for a registered merchant, before it expires, within both quotas.
pub record Admissible (request : IntentRequest) (now : ℕ) (p : Payment) (d : Db) : Type 0 where
  pub edge : can_transition p.state State.broadcasting ≡ true
  pub merchant : Merchant
  pub its_merchant : p.merchant_id ≡ some merchant.id
  pub registered : Memᴰ merchant d.merchants × (merchant.active ≡ true)
  pub valid_before : ℕ
  pub expiry : p.valid_before ≡ some valid_before
  pub in_time : now + request.expiry_margin < valid_before
  pub within_quota : merchant_settled merchant.id request.quota_window d < request.quota
  pub within_global_quota : overall_settled request.quota_window d < request.global_quota

-- A payment with the request's identity was admissible and had neither an active nor a final transaction.
pub record Admitted (new_id : ℕ) (request : IntentRequest) (d e : Db) (intent : Intent)
    : Type 0 where
  pub now : ℕ
  pub at_now : request.now ≡ some now
  pub valid : is_valid_request request ≡ true
  pub signer : Text
  pub named : normalize_address request.signer_address ≡ some signer
  pub payment : Payment
  pub on_file : Memᴰ payment d.payments × (payment.payment_identity ≡ request.payment_identity)
  pub not_final : terminal_transaction payment d ≡ none
  pub not_active : count_rows (active_of payment.id) d.transactions ≡ 0
  pub admissible : Admissible request now payment d
  pub written : Written new_id request signer payment d e intent

-- Whether an outcome is a duplicate's.
abbrev duplicated : Result Intent → Bool
duplicated (err x) = false
duplicated (ok i) = i.duplicate

abbrev Reserves : Outcome → Db → Intent → Type 0
Reserves o e intent = (o ≡ (e, ok intent)) × (intent.duplicate ≡ false)
