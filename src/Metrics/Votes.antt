-- ===== src/Metrics/Votes.antt =====
-- pkg/spec/metrics/state_altair.go: which flags an attestation earns, and the rewards of the
-- proposers that include attestations.
use eth_cl_state_analyzer.Common.{
  ℕ, ◌-◌, ◌*◌, ◌/◌, Bool, true, false, not, ◌&&◌, ◌||◌, List, ◌++◌, Option, none, some,
  if◌then◌else◌, add64, sub64, mul64, length, ◌==◌, ltb, leb, replicate, take, drop,
}
use eth_cl_state_analyzer.Common.Go.{Go, ok, fatal, ◌>>=◌, index, update, for_each, for_each_mut}
use eth_cl_state_analyzer.Common.Int.{int_leb}
use eth_cl_state_analyzer.Client.{Attestation, MathPackage}
use eth_cl_state_analyzer.Spec.Constants.{
  slots_per_epoch, min_inclusion_delay, timely_source_weight, timely_target_weight,
  timely_head_weight, weight_denominator, proposer_weight,
}
use eth_cl_state_analyzer.Spec.Block.{AgnosticBlock}
use eth_cl_state_analyzer.Spec.State.Missed.{get_block_root, get_block_root_at_slot}
use eth_cl_state_analyzer.Metrics.Base.{
  Amounts, add_amount, StateMetricsBase, first_slot, slot_in_epoch,
  get_validator_from_committee_index, get_justified_root_from_slot,
}
use eth_cl_state_analyzer.Metrics.Rewards.{get_base_reward}

-- An array `[3]bool` over the flags.
pub record FlagSet : Type 0 where
  pub source : Bool
  pub target : Bool
  pub head : Bool

-- `GetInclusionDelay`, as the bit pattern of its int.
unfoldable pub get_inclusion_delay : Attestation → AgnosticBlock → ℕ
get_inclusion_delay attestation block = sub64 block.slot attestation.att.slot

-- `matchingSource`, `matchingTarget` and `matchingHead`, against three roots.
unfoldable pub match_roots : Attestation → ℕ → ℕ → ℕ → FlagSet
match_roots attestation justified_checkpoint target_root head_root =
    let source = attestation.att.source.root == justified_checkpoint in
    let target = source && target_root == attestation.att.target.root in
    record {
      source = source;
      target = target;
      head = target && attestation.att.beacon_block_root == head_root;
    }

-- The roots come from the states; a slot of no epoch ends the process.
unfoldable pub matching : StateMetricsBase → Attestation → Go FlagSet
matching p attestation = elim (get_justified_root_from_slot p attestation.att.slot) [
  | none ↦ fatal
  | some justified_checkpoint ↦
      get_block_root p.next_state attestation.att.target.epoch >>= λ target_root.
      get_block_root_at_slot p.next_state attestation.att.slot >>= λ head_root.
      ok (match_roots attestation justified_checkpoint target_root head_root)
]

-- What the loop over the blocks changes, the blocks themselves apart. The rows of the two
-- participation tables are nil until a vote of the validator is seen.
pub record VotePass : Type 0 where
  pub attestation_included : List Bool
  pub current_participation : List (Option FlagSet)
  pub next_participation : List (Option FlagSet)
  pub max_block_rewards : Amounts

abbrev pub flags_or_none : Option FlagSet → FlagSet
flags_or_none none = record { source = false; target = false; head = false }
flags_or_none (some f) = f

-- `if participationFlags[k] && !epochParticipation[valIdx][k] { attReward += … }`
abbrev pub earn : Bool → Bool → ℕ → ℕ → ℕ
earn flag seen amount reward = if flag && not seen then add64 reward amount else reward

-- The three flags of one vote: the row after it, the reward after it, and whether any is new.
unfoldable pub score_vote : ℕ → FlagSet → FlagSet → ℕ → FlagSet × ℕ × Bool
score_vote base_reward flags row att_reward = (
  record {
    source = flags.source || row.source;
    target = flags.target || row.target;
    head = flags.head || row.head;
  },
  earn flags.head row.head (mul64 base_reward timely_head_weight) (
      earn flags.target row.target (mul64 base_reward timely_target_weight)
        (earn flags.source row.source (mul64 base_reward timely_source_weight) att_reward)),
  (flags.source && not row.source)
      || (flags.target && not row.target)
      || (flags.head && not row.head),
)

module _ (math : MathPackage) (p : StateMetricsBase) where
  -- `getParticipationFlags`
  unfoldable pub get_participation_flags : Attestation → AgnosticBlock → Go FlagSet
  unfolding matching get_inclusion_delay
  get_participation_flags attestation block = do
    m ← matching p attestation
    let delay = get_inclusion_delay attestation block
    ok (record {
      source = m.source && int_leb delay (math.sqrt slots_per_epoch);
      target = m.target && int_leb delay slots_per_epoch;
      head = m.head && int_leb delay min_inclusion_delay;
    })

  -- One index of an attestation: the block, its reward so far, and the pass.
  unfoldable pub count_vote :
      Attestation → FlagSet → ℕ → AgnosticBlock × ℕ × VotePass → Go (AgnosticBlock × ℕ × VotePass)
  unfolding score_vote
  count_vote attestation flags idx (block, att_reward, s) =
      get_validator_from_committee_index p attestation.att.slot attestation.att.committee idx
      >>= λ found. elim found [
        | none ↦ fatal
        | some val_idx ↦ do
          let in_current = slot_in_epoch attestation.att.slot p.current_state.epoch
          let table = if in_current then s.current_participation else s.next_participation
          entry ← index table val_idx
          included ←
              (if in_current
                then update s.attestation_included val_idx (λ _. true)
                else ok s.attestation_included)
          validator ← index p.next_state.validators val_idx
          base_reward ←
              get_base_reward math validator.effective_balance p.next_state.total_active_balance
          let (row, reward, new) = score_vote base_reward flags (flags_or_none entry) att_reward
          table' ← update table val_idx (λ _. some row)
          let votes = add64 block.votes_included 1
          let new_votes = if new then add64 block.new_votes_included 1 else block.new_votes_included
          ok (
            record block { votes_included = votes; new_votes_included = new_votes },
            reward,
            record s {
              attestation_included = included;
              current_participation = (if in_current then table' else s.current_participation);
              next_participation = (if in_current then s.next_participation else table');
            },
          )
      ]

  -- The end of the loop over the attestations: only blocks of the next state are rewarded.
  unfoldable pub pay_block : AgnosticBlock × ℕ × VotePass → AgnosticBlock × VotePass
  pay_block (block, att_reward, s) =
      let reward =
        att_reward
        / ((weight_denominator - proposer_weight) * weight_denominator / proposer_weight) in
      if leb (first_slot p.next_state.epoch) block.slot
      then (
        record block { manual_reward = add64 block.manual_reward reward },
        record s { max_block_rewards = add_amount s.max_block_rewards block.proposer_index reward },
      )
      else (block, s)

  -- The rest is the same for Altair and Deneb, but for the flags that an attestation earns.
  module _ (flags_of : Attestation → AgnosticBlock → Go FlagSet) where
    unfoldable pub count_attestation :
        Attestation → AgnosticBlock × VotePass → Go (AgnosticBlock × VotePass)
    unfolding count_vote pay_block
    count_attestation attestation (block, s) =
        if ltb attestation.att.slot (first_slot p.current_state.epoch)
        then ok (block, s)
        else (flags_of attestation block >>= λ flags.
            for_each (count_vote attestation flags) attestation.bit_indices (block, 0, s) >>= λ r.
            ok (pay_block r))

    -- An empty list of blocks stands for nil: `AddNewState` gives a state 32 blocks or none.
    unfoldable pub count_votes : Go StateMetricsBase
    unfolding count_attestation
    count_votes =
        let current = p.current_state in
        let next = p.next_state in
        if length current.blocks == 0
        then ok p
        else (for_each_mut (λ block s. for_each count_attestation block.attestations (block, s))
              (current.blocks ++ next.blocks)
              (record {
                attestation_included = current.validator_attestation_included;
                current_participation = replicate (length current.validators) none;
                next_participation = replicate (length next.validators) none;
                max_block_rewards = p.max_block_rewards;
              })
            >>= λ r. ok (record p {
              current_state = record current {
                blocks = take (length current.blocks) r.0;
                validator_attestation_included = r.1.attestation_included;
              };
              next_state = record next { blocks = drop (length current.blocks) r.0 };
              max_block_rewards = r.1.max_block_rewards;
            }))

  -- `AltairMetrics.ProcessAttestations`
  unfoldable pub process_attestations : Go StateMetricsBase
  unfolding count_votes get_participation_flags
  process_attestations = count_votes get_participation_flags
