-- ===== src/Tests/Client.antt =====
-- The theorems on pkg/clientapi at concrete inputs.
use mathlib.Core.List.{Memᴰ}
use eth_cl_state_analyzer.Common.{
  ℕ, ◌+◌, ◌≤◌, ◌<◌, ◌≡◌, refl, false, List, [], ◌∷◌, none, some, ltb, ◌==◌, if◌then◌else◌, arith,
}
use eth_cl_state_analyzer.Common.Go.{ok}
use eth_cl_state_analyzer.Client.{SignedBlock, BeaconCommittee, ProposerDuty, phase0}
use eth_cl_state_analyzer.Utils.Book.{check_page_active}
use eth_cl_state_analyzer.Spec.Block.{empty_block}
use eth_cl_state_analyzer.Spec.Duties.{EpochDuties}
use eth_cl_state_analyzer.Spec.Forks.{
  base_block, root_of, new_phase0_block, get_custom_block, CompressionMetrics,
}
use eth_cl_state_analyzer.ClientApi.EpochData.{new_epoch_data}
use eth_cl_state_analyzer.ClientApi.LastDuty.{new_epoch_data_lem}
use eth_cl_state_analyzer.ClientApi.Requests.{
  Answer, found, not_found, failed, Nodes, ApiClient, request_beacon_block,
}
use eth_cl_state_analyzer.ClientApi.Attempts.{
  request_beacon_block-missing, request_beacon_block-found,
}
use eth_cl_state_analyzer.Tests.Root.{math}

abbrev committee : ℕ → List ℕ → BeaconCommittee
committee slot validators = record { slot = slot; committee = 0; validators = validators }

abbrev duty : ℕ → ℕ → ProposerDuty
duty slot validator_index = record { slot = slot; validator_index = validator_index }

-- Validator 6 is listed for slot 64 and for slot 65.
abbrev committees : List BeaconCommittee
committees = committee 64 (5 ∷ 6 ∷ []) ∷ committee 65 (6 ∷ 7 ∷ []) ∷ committee 66 (8 ∷ []) ∷ []

abbrev duties : List ProposerDuty
duties = duty 64 5 ∷ duty 65 7 ∷ duty 66 8 ∷ []

new_epoch_data_example :
    (e : EpochDuties) × (new_epoch_data (λ _. some committees) (λ _. some duties) 64 ≡ ok e)
    × (e.beacon_committees ≡ committees)
    × (e.proposer_duties ≡ duties)
    × (e.validator_att_slot 6 ≡ 65)
new_epoch_data_example =
    new_epoch_data_lem (λ _. some committees) (λ _. some duties) 64 6
      (committee 64 (5 ∷ 6 ∷ []) ∷ []) (committee 65 (6 ∷ 7 ∷ [])) (committee 66 (8 ∷ []) ∷ [])
      duties refl refl (Memᴰ.head refl) ((λ m. not_8 m), tt)
  where
    not_8 : ¬ Memᴰ {A = ℕ} 6 (8 ∷ [])
    not_8 (Memᴰ.head e) = omega (arith, e)
    not_8 (Memᴰ.tail m) = elim m [ ]

abbrev signed_block : SignedBlock
signed_block = record {
  version = phase0;
  root = some 3;
  slot = 64;
  parent_root = 2;
  proposer_index = 5;
  graffiti = 0;
  attestations = [];
  deposits = [];
  proposer_slashings = [];
  attester_slashings = [];
  voluntary_exits = 9 ∷ [];
  sync_bits_count = 0;
  fee_recipient = 0;
  gas_limit = 0;
  gas_used = 0;
  timestamp = 0;
  base_fee_bytes = [];
  base_fee = 0;
  block_hash = 0;
  transactions = [];
  block_number = 0;
  withdrawals = [];
  bls_to_execution_changes = [];
}

abbrev sizes : CompressionMetrics
sizes = record { ssz_size = 400; snappy_size = 300; compression_time = 1; decompression_time = 1 }

-- The first two attempts fail. There is a block in slot 64 alone.
abbrev ask : ℕ → ℕ → Answer SignedBlock
ask slot attempt =
    if ltb attempt 2 then failed else if slot == 64 then found signed_block else not_found

abbrev nodes : Nodes
nodes = record {
  signed_beacon_block = ask;
  beacon_state = λ slot attempt. none;
  beacon_state_root = λ slot. some (slot + 1000);
  beacon_block_root = λ slot. failed;
  beacon_committees = λ slot. some committees;
  proposer_duties = λ epoch. some duties;
  finality = some 1;
  beacon_block_header = some 90;
  block_rewards = λ slot. none;
  block_by_hash = none;
  compress = λ b. sizes;
  math = math;
}

abbrev client : ApiClient
client = record {
  max_retries = 3;
  states_book = record { pages = []; free = 1; size = 1 };
  blocks_book = record { pages = []; free = 1; size = 1 };
  tx_book = record { pages = []; free = 3; size = 3 };
  api_rewards = false;
}

two_fail : (slot j : ℕ) → 0 ≤ j → j < 2 → ask slot j ≡ failed
two_fail slot j p q = ground arith

request_beacon_block-missing_example :
    request_beacon_block nodes 65 client
    ≡ ok (client, some (record empty_block { slot = 65; state_root = 1065; proposer_index = 7 }))
unfolding check_page_active
request_beacon_block-missing_example =
    request_beacon_block-missing nodes 65 client 2 (duty 64 5 ∷ []) (duty 65 7) (duty 66 8 ∷ [])
      (omega arith) (two_fail 65) refl refl refl refl ((λ e. omega (arith, e)), tt) refl

request_beacon_block-found_example :
    request_beacon_block nodes 64 client
    ≡ ok (client, some (record (base_block sizes signed_block 3) { state_root = 1064 }))
unfolding check_page_active get_custom_block new_phase0_block root_of
request_beacon_block-found_example =
    request_beacon_block-found nodes 64 client 2 {b = base_block sizes signed_block 3} (omega arith)
      (two_fail 64) refl refl refl refl refl refl

-- A client that gives up after two attempts.
abbrev impatient : ApiClient
impatient = record client { max_retries = 2 }
