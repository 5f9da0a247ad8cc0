-- ===== src/Tests/Service.antt =====
-- The settlement service, on the test data.
use facilitator.Base.{◌≡◌, ◌≤◌, refl, none, some, [], ◌∷◌, codes, arith, pos, count_rows}
use facilitator.Settlement.State.{State}
use facilitator.Settlement.Work.{Work}
use facilitator.Settlement.Service.{Config, Network, World, passes}
use facilitator.Settlement.Service.Once.{
  BroadcastAttempt, attempts, times_sent, sent_at_most_once, signed_not_sent_by_attempts,
}
use facilitator.Settlement.Confirmation.{
  Receipt, Chain, observation_confirmed, observe_settlement, confirm_work,
}
use facilitator.Settlement.Confirmation.Agreement.{Agrees, confirm_work-Agrees}
use facilitator.Settlement.Settle.{respond_with_tx, receipt_unavailable}
use facilitator.Settlement.Settle.Outcome.{
  Backed, respond_with_tx-Backed, respond_with_tx-on_network,
}
use facilitator.Store.Schema.{Status}
use facilitator.Tests.Data.{settling, signer, signature}

-- A network that takes what it is given and answers with its hash.
abbrev pub network : Network
network = record {
  transfer_data = λ a. some (codes "e3ee160e");
  call = λ s c. passes;
  latest_base_fee = some (some (pos 10));
  sign_transaction = λ t. some (record { raw = codes "02f8"; sighash = codes "cc" });
  keccak256 = λ t. codes "aa";
  send_raw_transaction = λ t. some (codes "0xAA");
}

abbrev pub config : Config
config = record {
  expiry_margin = 10;
  gas_limit = 60000;
  max_priority_fee_gas = some (pos 2);
  max_fee_per_gas = some (pos 100);
}

abbrev pub work : Work
work = record {
  payment_id = 1;
  payment_identity = codes "one";
  state = State.broadcasting;
  authorization = record {
    from = codes "payer";
    to = codes "recipient";
    value = codes "1000";
    valid_after = 0;
    valid_before = 5000;
    nonce = codes "nonce";
    signature = signature;
  };
  transaction_id = 11;
  transaction_status = Status.intent;
  nonce = 3;
  tx_hash = [];
  raw_hash = [];
  sighash = [];
  signer_address = signer;
  gas_limit = 0;
  max_fee_per_gas = none;
  max_priority_fee_per_gas = none;
  broadcast_attempted_at = none;
  transaction_updated_at = 1;
  ambiguous_attempts = 0;
  db_now = 100;
}

abbrev try : BroadcastAttempt
try = record { config = config; network = network; now = 100; work = work; actor = codes "worker" }

abbrev pub world : World
world = record { db = settling State.broadcasting Status.intent; sent = [] }

sent_at_most_once_example : times_sent 11 (attempts (try ∷ try ∷ []) world) ≤ 1
unfolding count_rows facilitator.Store.Broadcast.unsigned_at
sent_at_most_once_example = sent_at_most_once 11 (try ∷ try ∷ []) world refl (omega arith)

abbrev sent_world : World
sent_world = record {
  db = settling State.broadcasting Status.broadcasting;
  sent = (11, codes "02f8") ∷ [];
}

signed_not_sent_by_attempts_example : times_sent 11 (attempts (try ∷ []) sent_world) ≤ 1
unfolding count_rows facilitator.Store.Broadcast.unsigned_at
signed_not_sent_by_attempts_example = signed_not_sent_by_attempts 11 (try ∷ []) sent_world refl

abbrev receipt : Receipt
receipt = record {
  status = 1;
  block_number = 90;
  block_hash = codes "0xb";
  gas_used = 50000;
  effective_gas_price = 20;
}

abbrev pub chain : Chain
chain = record {
  transaction_receipt = λ h. some (some receipt);
  block_by_number = λ n. some (codes "0xB");
  block_number = some 101;
}

confirm_work-Agrees_example :
    Agrees
      (observe_settlement 12 chain [])
      1
      work
      (codes "worker")
      (settling State.broadcast Status.broadcast)
      (confirm_work 12 chain 1 work (codes "worker") (settling State.broadcast Status.broadcast))
confirm_work-Agrees_example =
    confirm_work-Agrees 12 chain 1 work (codes "worker") (settling State.broadcast Status.broadcast)

abbrev broadcast_world : World
broadcast_world = record { db = settling State.broadcast Status.broadcast; sent = [] }

abbrev confirmed_world : World
confirmed_world = record { db = settling State.confirmed Status.confirmed; sent = [] }

respond_with_tx-Backed_example :
    Backed 1 11
      (codes "0xaa")
      (respond_with_tx (observation_confirmed receipt) 1 11 (codes "0xaa") confirmed_world).1
      (respond_with_tx (observation_confirmed receipt) 1 11 (codes "0xaa") confirmed_world).0.db
respond_with_tx-Backed_example =
    respond_with_tx-Backed (observation_confirmed receipt) 1 11 (codes "0xaa") confirmed_world

respond_with_tx-on_network_example :
    respond_with_tx (observation_confirmed receipt) 1 11 (codes "0xaa") broadcast_world
    ≡ (broadcast_world, receipt_unavailable)
unfolding count_rows facilitator.Store.Statements.transaction_at
respond_with_tx-on_network_example =
    respond_with_tx-on_network (observation_confirmed receipt) 1 11 (codes "0xaa") broadcast_world
      refl
