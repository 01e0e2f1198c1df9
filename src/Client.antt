-- ===== src/Client.antt =====
-- What the program reads of the values that it gets from the beacon node's client library
-- (attestantio/go-eth2-client, not part of this repository): one record for each of its types,
-- with the fields, and the results of the methods, that the program uses. Slots, epochs, indices
-- and amounts are uint64. A 32-byte root, a public key and an address are only compared with one
-- another and with the zero value, so each is the number that its bytes spell.
use eth_cl_state_analyzer.Common.{ℕ, ◌*◌, ◌+◌, ◌^◌, ◌≤◌, ◌<◌, ◌≡◌, Bool, List, Option}

pub record Validator : Type 0 where
  pub public_key : ℕ
  pub effective_balance : ℕ
  pub slashed : Bool
  pub activation_epoch : ℕ
  pub exit_epoch : ℕ
  pub withdrawable_epoch : ℕ

pub record Checkpoint : Type 0 where
  pub epoch : ℕ
  pub root : ℕ

pub record AttestationData : Type 0 where
  pub slot : ℕ
  pub committee : ℕ  -- `Index`
  pub beacon_block_root : ℕ
  pub source : Checkpoint
  pub target : Checkpoint

-- `bit_indices` is what `AggregationBits.BitIndices()` returns.
pub record Attestation : Type 0 where
  pub att : AttestationData
  pub bit_indices : List ℕ

pub record PendingAttestation : Type 0 where
  pub att : AttestationData
  pub bit_indices : List ℕ
  pub inclusion_delay : ℕ

pub record Deposit : Type 0 where
  pub public_key : ℕ
  pub withdrawal_credentials : ℕ
  pub amount : ℕ
  pub signature : ℕ

-- `SignedBLSToExecutionChange.Message`
pub record BlsChange : Type 0 where
  pub validator_index : ℕ
  pub from_bls_pubkey : ℕ
  pub to_execution_address : ℕ

pub record Withdrawal : Type 0 where
  pub withdrawal_index : ℕ
  pub validator_index : ℕ
  pub address : ℕ
  pub amount : ℕ

-- The proposer of the first of the two signed headers.
pub record ProposerSlashing : Type 0 where
  pub proposer_index : ℕ

-- The attesting indices of the two attestations.
pub record AttesterSlashing : Type 0 where
  pub indices_1 : List ℕ
  pub indices_2 : List ℕ

pub record BeaconCommittee : Type 0 where
  pub slot : ℕ
  pub committee : ℕ  -- `Index`
  pub validators : List ℕ

pub record ProposerDuty : Type 0 where
  pub slot : ℕ
  pub validator_index : ℕ

-- `spec.DataVersion`, with all versions that the program does not know as one.
pub data DataVersion : Type 0 where
  phase0 altair bellatrix capella deneb unknown : DataVersion

-- The versions of a beacon state in one: phase 0 alone has pending attestations, and the later
-- versions alone have participation flags and a sync committee. `none` is a nil validator list.
pub record BeaconState : Type 0 where
  pub version : DataVersion
  pub genesis_time : ℕ
  pub slot : ℕ
  pub balances : List ℕ
  pub validators : Option (List Validator)
  pub block_roots : List ℕ
  pub previous_epoch_attestations : List PendingAttestation
  pub previous_epoch_participation : List ℕ
  pub current_sync_committee : List ℕ
  pub current_justified_checkpoint : Checkpoint
  pub latest_block_slot : ℕ

-- `spec.VersionedSignedBeaconBlock`: the versions of a signed block in one. `root` is what `Root()`
-- returns, and `none` its error. `base_fee_bytes` are the 32 bytes of `BaseFeePerGas` of Bellatrix and
-- Capella, and `base_fee` is what `Uint64()` returns of that of Deneb.
pub record SignedBlock : Type 0 where
  pub version : DataVersion
  pub root : Option ℕ
  pub slot : ℕ
  pub parent_root : ℕ
  pub proposer_index : ℕ
  pub graffiti : ℕ
  pub attestations : List Attestation
  pub deposits : List Deposit
  pub proposer_slashings : List ProposerSlashing
  pub attester_slashings : List AttesterSlashing
  pub voluntary_exits : List ℕ
  pub sync_bits_count : ℕ
  pub fee_recipient : ℕ
  pub gas_limit : ℕ
  pub gas_used : ℕ
  pub timestamp : ℕ
  pub base_fee_bytes : List ℕ
  pub base_fee : ℕ
  pub block_hash : ℕ
  pub transactions : List ℕ
  pub block_number : ℕ
  pub withdrawals : List Withdrawal
  pub bls_to_execution_changes : List BlsChange

-- A log entry of go-ethereum. `log_data` stands for the bytes of `Data`, and `log_index` is `Index`.
pub record Log : Type 0 where
  pub address : ℕ
  pub log_block_hash : ℕ
  pub log_index : ℕ
  pub log_data : List ℕ

-- `types.Receipt` of go-ethereum. Its prices are the low 64 bits that `Uint64()` returns.
pub record Receipt : Type 0 where
  pub tx_hash : ℕ
  pub gas_used : ℕ
  pub effective_gas_price : ℕ
  pub contract_address : ℕ
  pub blob_gas_used : ℕ
  pub blob_gas_price : ℕ
  pub logs : List Log

-- `types.Transaction` of go-ethereum: what its methods return. `sender` is what `types.Sender` finds,
-- and `none` its error.
pub record EthTransaction : Type 0 where
  pub tx_type : ℕ
  pub hash : ℕ
  pub sender : Option ℕ
  pub to : Option ℕ
  pub chain_id : ℕ  -- its low 8 bits
  pub input_data : List ℕ
  pub gas_tip_cap : ℕ
  pub gas_fee_cap : ℕ
  pub value : ℕ
  pub size : ℕ
  pub nonce : ℕ
  pub blob_gas : ℕ
  pub blob_gas_fee_cap : ℕ
  pub blob_hashes : List ℕ

-- `v1.BidTrace` of the relay client (attestantio/go-relay-client). `value` is its low 64 bits.
pub record BidTrace : Type 0 where
  pub slot : ℕ
  pub block_hash : ℕ
  pub builder_pubkey : ℕ
  pub value : ℕ

-- `v1.HeadEvent`, with the time at which it arrived.
pub record HeadEvent : Type 0 where
  pub slot : ℕ
  pub block : ℕ
  pub state : ℕ
  pub epoch_transition : Bool
  pub current_duty_dependent_root : ℕ
  pub previous_duty_dependent_root : ℕ
  pub arrival_timestamp : ℕ

-- `v1.FinalizedCheckpointEvent`
pub record FinalizedEvent : Type 0 where
  pub block : ℕ
  pub state : ℕ
  pub epoch : ℕ

-- `v1.ChainReorgEvent`
pub record ReorgEvent : Type 0 where
  pub slot : ℕ
  pub depth : ℕ
  pub old_head_block : ℕ
  pub new_head_block : ℕ
  pub old_head_state : ℕ
  pub new_head_state : ℕ

-- `v1.BlobSidecarEvent`, with the time at which it arrived, in milliseconds.
pub record BlobSidecarEvent : Type 0 where
  pub timestamp : ℕ
  pub versioned_hash : ℕ
  pub slot : ℕ
  pub block_root : ℕ
  pub blob_index : ℕ
  pub kzg_commitment : ℕ

-- What the program takes from Go's `math` package, as it converts the results.
pub record MathPackage : Type 0 where
  pub pow2 : ℕ → ℕ  -- `altair.ParticipationFlags(math.Pow(2, float64(n)))`
  pub sqrt : ℕ → ℕ  -- `uint64(math.Sqrt(float64(n)))`
  pub four_sqrt : ℕ → ℕ  -- `phase0.Gwei(4 * math.Sqrt(float64(n)))`

-- What the documentation of `math` and of IEEE 754 says of these on the numbers that are used.
pub record MathLaws (m : MathPackage) : Type 0 where
  pub pow2_exact : (n : ℕ) → n < 8 → m.pow2 n ≡ 2 ^ n
  pub sqrt_low : (n : ℕ) → n < 2 ^ 52 → m.sqrt n * m.sqrt n ≤ n
  pub sqrt_high : (n : ℕ) → n < 2 ^ 52 → n < (m.sqrt n + 1) * (m.sqrt n + 1)
