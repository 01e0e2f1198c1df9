-- ===== src/ClientApi/Requests.antt =====
-- pkg/clientapi/block.go, state.go and api_requester.go: the requests, with their retries. An answer may
-- depend on the attempt. The time that passes between two attempts is not modelled.
use eth_cl_state_analyzer.Common.{
  ℕ, zero, suc, ◌+◌, ◌/◌, ◌%◌, ◌^◌, Bool, true, false, List, [], ◌∷◌, Option, none, some, ◌==◌,
  if◌then◌else◌, mul64, sub64,
}
use eth_cl_state_analyzer.Common.Go.{Go, ok, panic, fatal, ◌>>=◌}
use eth_cl_state_analyzer.Client.{
  SignedBlock, BeaconState, BeaconCommittee, ProposerDuty, MathPackage,
}
use eth_cl_state_analyzer.Utils.Book.{RoutineBook, acquire_or_time_out, free_page, active_pages}
use eth_cl_state_analyzer.Spec.Constants.{slots_per_epoch}
use eth_cl_state_analyzer.Spec.Block.{AgnosticBlock, empty_block}
use eth_cl_state_analyzer.Spec.Forks.{CompressionMetrics, get_custom_block}
use eth_cl_state_analyzer.Spec.State.{AgnosticState}
use eth_cl_state_analyzer.Spec.State.Setup.{get_custom_state}
use eth_cl_state_analyzer.ClientApi.EpochData.{new_epoch_data}

-- A response, an error whose text has "404", or another error.
pub data Answer (A : Type 0) : Type 0 where
  found : A → Answer A
  not_found : Answer A
  failed : Answer A

-- What the nodes answer while a request runs; `none` is an error.
pub record Nodes : Type 0 where
  pub signed_beacon_block : ℕ → ℕ → Answer SignedBlock  -- of a slot, at an attempt
  pub beacon_state : ℕ → ℕ → Option BeaconState
  pub beacon_state_root : ℕ → Option ℕ
  pub beacon_block_root : ℕ → Answer (Option ℕ)  -- `none` in it is a nil response
  pub beacon_committees : ℕ → Option (List BeaconCommittee)
  pub proposer_duties : ℕ → Option (List ProposerDuty)
  pub finality : Option ℕ  -- the finalized epoch
  pub beacon_block_header : Option ℕ  -- the slot of the head
  pub block_rewards : ℕ → Option ℕ
  pub block_by_hash : Option (ℕ → Option ℕ)  -- `none` without an execution client; a size
  pub compress : SignedBlock → CompressionMetrics
  pub math : MathPackage

-- `APIClient`. A page's key is the number in it, since each book has keys of one kind.
pub record ApiClient : Type 0 where
  pub max_retries : ℕ
  pub states_book : RoutineBook
  pub blocks_book : RoutineBook
  pub tx_book : RoutineBook
  pub api_rewards : Bool  -- `Metrics.APIRewards`

-- `ActiveReqNum`
unfoldable pub active_req_num : ApiClient → ℕ
unfolding active_pages
active_req_num s = active_pages s.blocks_book + active_pages s.states_book + active_pages s.tx_book

-- The retry loop of a block, with the attempts that are left.
unfoldable pub first_answer : {A : Type 0} → (ℕ → Answer A) → ℕ → ℕ → Answer A
first_answer ask attempt zero = failed
first_answer ask attempt (suc n) = elim (ask attempt) [
  | found a ↦ found a
  | not_found ↦ not_found
  | failed ↦ first_answer ask (attempt + 1) n
]

-- The retry loop of a state, which takes every error alike.
unfoldable pub first_some : {A : Type 0} → (ℕ → Option A) → ℕ → ℕ → Option A
first_some ask attempt zero = none
first_some ask attempt (suc n) = elim (ask attempt) [
  | some a ↦ some a
  | none ↦ first_some ask (attempt + 1) n
]

-- The loop of `CreateMissingBlock` over the duties.
unfoldable pub proposer_in : List ProposerDuty → ℕ → ℕ → ℕ
proposer_in [] slot v = v
proposer_in (d ∷ ds) slot v = proposer_in ds slot (if d.slot == slot then d.validator_index else v)

-- `PayloadSize = uint32(block.Size())`, where there is a block.
abbrev pub with_size : Option ℕ → AgnosticBlock → AgnosticBlock
with_size none b = b
with_size (some size) b = record b {
  execution_payload = record b.execution_payload { payload_size = size % 2 ^ 32 };
}

module _ (n : Nodes) where
  -- `RequestStateRoot`
  unfoldable pub request_state_root : ℕ → Go ℕ
  request_state_root slot = elim (n.beacon_state_root slot) [ none ↦ panic | some r ↦ ok r ]

  -- `RequestBlockRoot`
  unfoldable pub request_block_root : ℕ → Go ℕ
  request_block_root slot = elim (n.beacon_block_root slot) [
    | failed ↦ panic
    | not_found ↦ ok 0
    | found r ↦ elim r [ none ↦ ok 0 | some root ↦ ok root ]
  ]

  -- `RequestCurrentHead`
  unfoldable pub request_current_head : Go ℕ
  request_current_head = elim n.beacon_block_header [ none ↦ panic | some slot ↦ ok slot ]

  -- `GetFinalizedEndSlotStateRoot`
  unfoldable pub get_finalized_end_slot_state_root : Go (ℕ × ℕ)
  unfolding request_state_root
  get_finalized_end_slot_state_root = elim n.finality [
    | none ↦ panic
    | some epoch ↦
        let slot = sub64 (mul64 epoch slots_per_epoch) 1 in
        request_state_root slot >>= λ root. ok (slot, root)
  ]

  -- `CreateMissingBlock`
  unfoldable pub create_missing_block : ℕ → Go AgnosticBlock
  unfolding request_state_root proposer_in
  create_missing_block slot = request_state_root slot >>= λ root. ok (record empty_block {
    slot = slot;
    state_root = root;
    proposer_index = elim (n.proposer_duties (slot / 32)) [
      | none ↦ 0
      | some ds ↦ proposer_in ds slot 0
    ];
  })

  -- `RequestExecutionBlockByHash`; it returns the size of the block, and `none` for nil.
  unfoldable pub request_execution_block_by_hash : ℕ → ApiClient → ApiClient × Option ℕ
  unfolding acquire_or_time_out free_page
  request_execution_block_by_hash hash s = elim n.block_by_hash [
    | none ↦ (s, none)
    | some ask ↦ elim (hash == 0) [
      | true ↦ (s, none)
      | false ↦
          (record s { tx_book = free_page (acquire_or_time_out s.tx_book hash) hash }, ask hash)
    ]
  ]

  -- `RequestBlockRewards` (rewards.go), whose errors end the process.
  unfoldable pub request_block_rewards : ℕ → Go ℕ
  request_block_rewards slot = elim (n.block_rewards slot) [ none ↦ fatal | some r ↦ ok r ]

  -- The reward of a block, where the metrics ask for it.
  unfoldable pub add_reward : ℕ → ApiClient → AgnosticBlock → Go (ApiClient × AgnosticBlock)
  unfolding request_block_rewards
  add_reward slot s b = elim s.api_rewards [
    | false ↦ ok (s, b)
    | true ↦ request_block_rewards slot >>= λ r. ok (s, record b { api_reward = r })
  ]

  -- What `RequestBeaconBlock` adds to a block that it got.
  unfoldable pub complete_block : ℕ → AgnosticBlock → ApiClient → Go (ApiClient × AgnosticBlock)
  unfolding request_execution_block_by_hash request_state_root add_reward
  complete_block slot b s =
      let asked = request_execution_block_by_hash b.execution_payload.block_hash s in
      request_state_root slot >>= λ root.
      add_reward slot asked.0 (record (with_size asked.1 b) { state_root = root })

  -- What `RequestBeaconBlock` does after its loop.
  unfoldable pub finish_block :
      ℕ → ApiClient → Answer SignedBlock → Go (ApiClient × Option AgnosticBlock)
  unfolding create_missing_block get_custom_block complete_block
  finish_block slot s failed = ok (s, none)
  finish_block slot s not_found = create_missing_block slot >>= λ b. ok (s, some b)
  finish_block slot s (found raw) = get_custom_block n.compress raw >>= λ c. elim c [
    | none ↦ ok (s, none)
    | some b ↦ complete_block slot b s >>= λ r. ok (r.0, some r.1)
  ]

  -- `RequestBeaconBlock`: `none` is its error, and then the block is `AgnosticBlock{}`.
  unfoldable pub request_beacon_block : ℕ → ApiClient → Go (ApiClient × Option AgnosticBlock)
  unfolding acquire_or_time_out free_page first_answer finish_block
  request_beacon_block slot s =
      finish_block slot (record s { blocks_book = acquire_or_time_out s.blocks_book slot })
        (first_answer (n.signed_beacon_block slot) 0 s.max_retries)
      >>= λ r. ok (record r.0 { blocks_book = free_page r.0.blocks_book slot }, r.1)

  -- `RequestFinalizedBeaconBlock`: it drops the error, and then reads a nil response.
  unfoldable pub request_finalized_beacon_block : ApiClient → Go (ApiClient × Option AgnosticBlock)
  unfolding request_beacon_block
  request_finalized_beacon_block s = elim n.finality [
    | none ↦ panic
    | some epoch ↦ request_beacon_block (mul64 epoch slots_per_epoch) s
  ]

  -- What `RequestBeaconState` does after its loop.
  unfoldable pub finish_state : ℕ → Option BeaconState → Go (Option AgnosticState)
  unfolding new_epoch_data get_custom_state request_state_root
  finish_state slot none = ok none
  finish_state slot (some raw) =
      new_epoch_data n.beacon_committees n.proposer_duties slot >>= λ duties.
      get_custom_state n.math raw duties >>= λ c. elim c [
        | none ↦ ok none
        | some state ↦
            request_state_root slot >>= λ root. ok (some (record state { state_root = root }))
      ]

  -- `RequestBeaconState`: `none` is its error, with a nil state.
  unfoldable pub request_beacon_state : ℕ → ApiClient → Go (ApiClient × Option AgnosticState)
  unfolding acquire_or_time_out free_page first_some finish_state
  request_beacon_state slot s =
      finish_state slot (first_some (n.beacon_state slot) 0 s.max_retries) >>= λ r.
      ok (record s { states_book = free_page (acquire_or_time_out s.states_book slot) slot }, r)
