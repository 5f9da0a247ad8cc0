-- ===== src/Ethereum/Agreement.antt =====
-- internal/ethereum/rpc.go: callProvider, readProviders and readClientAgreement. `Raw` is the result of
-- one JSON-RPC call, and `attempts` what each call to a provider answers.
pub mod Evidence
use facilitator.Base.{
  ℕ, zero, suc, ◌+◌, Option, none, some, List, [], ◌∷◌, Text, codes, text_eq, is_empty, has_prefix,
  lower, Bool, true, false, ◌&&◌, ◌||◌, not, ◌==◌, if◌then◌else◌, ℤ, pos, negsuc,
}
use facilitator.Signing.Transaction.{int_eq}

-- An RPCError, or any other error.
pub data CallError : Type 0 where
  rpc_error : ℤ → Text → CallError
  other_error : CallError

pub data Outcome (Raw : Type 0) : Type 0 where
  answered : Raw → Outcome Raw
  failed : CallError → Outcome Raw

-- providerURLs: how many providers are asked.
unfoldable pub provider_urls : Text → Text → List Text
unfolding text_eq
provider_urls url fallback =
    if not (is_empty fallback) && not (text_eq fallback url) then url ∷ fallback ∷ [] else url ∷ []

module _ {Raw : Type 0} where
  -- An attempt ends the loop if it is answered or the context is done.
  abbrev pub or_retry : Outcome Raw → Bool → ℕ → Outcome Raw × ℕ → Outcome Raw × ℕ
  or_retry (answered raw) done k rest = (answered raw, k + 1)
  or_retry (failed e) done k rest = if done then (failed e, k + 1) else rest

  -- callProvider, from the attempt `k` on, and how many attempts have been made when it returns.
  unfoldable pub call_provider :
      (attempts : ℕ → Outcome Raw) (cancelled : ℕ → Bool) → ℕ → ℕ → Outcome Raw × ℕ
  call_provider attempts cancelled zero k = (attempts k, k + 1)
  call_provider attempts cancelled (suc retries) k =
      let rest = call_provider attempts cancelled retries (k + 1) in
      or_retry (attempts k) (cancelled k) k rest

  unfoldable pub failures : List (Outcome Raw) → List CallError
  failures [] = []
  failures (answered raw ∷ outcomes) = failures outcomes
  failures (failed e ∷ outcomes) = e ∷ failures outcomes

  unfoldable pub answers : List (Outcome Raw) → List Raw
  answers [] = []
  answers (answered raw ∷ outcomes) = raw ∷ answers outcomes
  answers (failed e ∷ outcomes) = answers outcomes

-- What a read returns: a value, an error that wraps a provider's, or one of the reader's own.
pub data Read (T : Type 0) : Type 0 where
  agreed : T → Read T
  provider_failed : CallError → Read T
  disagreement invalid_data : Read T

abbrev pub is_rpc : CallError → Bool
is_rpc (rpc_error code message) = true
is_rpc other_error = false

unfoldable pub all_rpc : List CallError → Bool
all_rpc [] = true
all_rpc (e ∷ es) = is_rpc e && all_rpc es

unfoldable pub same_rpc_error : CallError → CallError → Bool
unfolding int_eq text_eq
same_rpc_error (rpc_error c m) (rpc_error d n) = int_eq c d && text_eq m n
same_rpc_error _ _ = false

unfoldable pub all_same : CallError → List CallError → Bool
unfolding same_rpc_error
all_same e [] = true
all_same e (f ∷ es) = same_rpc_error e f && all_same e es

-- All providers failed. An error that is not an RPCError hides those that are.
unfoldable pub all_failed : {T : Type 0} → CallError → List CallError → Read T
unfolding all_rpc all_same
all_failed e es =
    if all_rpc (e ∷ es)
    then (if all_same e es then provider_failed e else disagreement)
    else provider_failed other_error

module _ {Raw T : Type 0} (decode : Raw → Option T) where
  unfoldable pub decode_all : List Raw → Option (List T)
  decode_all [] = some []
  decode_all (raw ∷ raws) =
      let rest = decode_all raws in
      elim (decode raw) [
        | none ↦ none
        | some value ↦ elim rest [ none ↦ none | some values ↦ some (value ∷ values) ]
      ]

  unfoldable pub reconciled : (List T → Option T) → List Raw → Read T
  unfolding decode_all
  reconciled reconcile raws = elim (decode_all raws) [
    | none ↦ invalid_data
    | some values ↦ elim (reconcile values) [ none ↦ disagreement | some value ↦ agreed value ]
  ]

  -- readClientAgreement, of the outcomes of all providers.
  unfoldable pub read_client_agreement : (List T → Option T) → List (Outcome Raw) → Read T
  unfolding failures answers all_failed reconciled
  read_client_agreement reconcile outcomes = elim (failures outcomes) [
    | [] ↦ reconciled reconcile (answers outcomes)
    | e ∷ es ↦ elim (answers outcomes) [
      | [] ↦ all_failed e es
      | raw ∷ raws ↦ if is_rpc e then disagreement else provider_failed e
    ]
  ]

-- exactComparable.
unfoldable pub all_equal : {T : Type 0} → (T → T → Bool) → T → List T → Bool
all_equal same first [] = true
all_equal same first (value ∷ values) = same value first && all_equal same first values

unfoldable pub exact_comparable : {T : Type 0} → (T → T → Bool) → List T → Option T
unfolding all_equal
exact_comparable same [] = none
exact_comparable same (first ∷ values) = if all_equal same first values then some first else none
