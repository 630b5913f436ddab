-- ===== src/Pipe/Consensus.antt =====
-- erisdb/pipe/consensus.go, and `FromRoundState` of erisdb/pipe/types.go. The states of the peers are
-- collected, but not returned.
use eris_db.Base.{ℕ, ◌%◌, ◌^◌, Bytes, str, List, [], ◌∷◌, ◌++◌, Result, ok}
use eris_db.Base.Int.{ℤ}

-- What tendermint gives: a state of a round, the validators, and for each peer its key and the text
-- of its state.
pub record RoundState (V P : Type 0) : Type 0 where
  pub commit_time : Bytes
  pub height : ℤ
  pub proposal : P
  pub round : ℤ
  pub start_time : Bytes
  pub step : ℕ
  pub validators : List V

pub record ConsensusNode (V P : Type 0) : Type 0 where
  pub round_state : RoundState V P
  pub peer_states : List (Bytes × Bytes)
  pub last_block_height : ℤ
  pub bonded_validators : List V
  pub unbonding_validators : List V

pub record ConsensusState (V P : Type 0) : Type 0 where
  pub height : ℤ
  pub round : ℤ
  pub step : ℕ
  pub start_time : Bytes
  pub commit_time : Bytes
  pub validators : List V
  pub proposal : P

pub record ValidatorList (V : Type 0) : Type 0 where
  pub block_height : ℤ
  pub bonded_validators : List V
  pub unbonding_validators : List V

append_states : List Bytes → List (Bytes × Bytes) → List Bytes
append_states out [] = out
append_states out ((key, text) ∷ peers) = append_states (out ++ (key ++ str ":" ++ text) ∷ []) peers

-- The callback of `Iterate`.
append_validators : {V : Type 0} → List V → List V → List V
append_validators out [] = out
append_validators out (v ∷ vs) = append_validators (out ++ v ∷ []) vs

module _ {V P : Type 0} where
  from_round_state : RoundState V P → ConsensusState V P
  from_round_state rs = record {
    height = rs.height;
    round = rs.round;
    step = rs.step % 2 ^ 8;
    start_time = rs.start_time;
    commit_time = rs.commit_time;
    validators = rs.validators;
    proposal = rs.proposal;
  }

  unfoldable state : ConsensusNode V P → Result (ConsensusState V P)
  unfolding from_round_state append_states
  state node =
      let peer_round_states = append_states [] node.peer_states in
      ok (from_round_state node.round_state)

  unfoldable validators : ConsensusNode V P → Result (ValidatorList V)
  unfolding append_validators
  validators node = ok (record {
    block_height = node.last_block_height;
    bonded_validators = append_validators [] node.bonded_validators;
    unbonding_validators = append_validators [] node.unbonding_validators;
  })
