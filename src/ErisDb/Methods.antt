-- ===== src/ErisDb/Methods.antt =====
-- erisdb/methods.go: the handlers of the RPC methods, and the interfaces of erisdb/pipe/pipe.go that
-- they call. `S` is the state behind the pipe.
use eris_db.Base.{Bytes, str, Bool, List, Option, Result, ok, err, panic, Error}
use eris_db.Base.Int.{ℤ, pos}
use eris_db.Pipe.Values.{Account, EventDataCall, NameRegEntry}
use eris_db.Pipe.Filters.{FilterData}
use eris_db.Pipe.Accounts.{AccountList, Storage, StorageItem}
use eris_db.Pipe.NameReg.{ResultListNames}
use eris_db.Pipe.Blockchain.{BlockchainInfo, Blocks}
use eris_db.ErisDb.Rpc.{RpcRequest, Outcome, invalid_params, internal_error}
use eris_db.ErisDb.Params.{NodeTypes, ParamCodec, SignTxParam}
pub mod Handlers

pub record NetworkInfo (T : NodeTypes) : Type 0 where
  pub client_version : Bytes
  pub moniker : Bytes
  pub listening : Bool
  pub listeners : List Bytes
  pub peers : List T.Peer

pub record Call : Type 0 where
  pub return : Bytes
  pub gas_used : ℤ

pub record Receipt : Type 0 where
  pub tx_hash : Bytes
  pub creates_contract : ℤ
  pub contract_addr : Bytes

-- A call of the pipe.
abbrev pub Io : Type 0 → Type 0 → Type 0
Io S A = S → Result A × S

pub record AccountsPipe (T : NodeTypes) (S : Type 0) : Type 0 where
  pub gen_priv_account : Io S T.PrivAccount
  pub gen_priv_account_from_key : Bytes → Io S T.PrivAccount
  pub accounts : List FilterData → Io S AccountList
  pub account : Bytes → Io S Account
  pub storage : Bytes → Io S Storage
  pub storage_at : Bytes → Bytes → Io S StorageItem

pub record BlockchainPipe (T : NodeTypes) (S : Type 0) : Type 0 where
  pub info : Io S BlockchainInfo
  pub genesis_hash : Io S Bytes
  pub chain_id : Io S Bytes
  pub latest_block_height : Io S ℤ
  pub latest_block : Io S T.Block
  pub blocks : List FilterData → Io S Blocks
  pub block : ℤ → Io S T.Block

pub record ConsensusPipe (T : NodeTypes) (S : Type 0) : Type 0 where
  pub state : Io S T.ConsensusState
  pub validators : Io S T.ValidatorList

pub record NameRegPipe (S : Type 0) : Type 0 where
  pub entry : Bytes → Io S NameRegEntry
  pub entries : List FilterData → Io S ResultListNames

pub record NetPipe (T : NodeTypes) (S : Type 0) : Type 0 where
  pub info : Io S (NetworkInfo T)
  pub client_version : Io S Bytes
  pub moniker : Io S Bytes
  pub listening : Io S Bool
  pub listeners : Io S (List Bytes)
  pub peers : Io S (List T.Peer)
  pub peer : Bytes → Io S T.Peer

pub record TransactorPipe (T : NodeTypes) (S : Type 0) : Type 0 where
  pub call : Bytes → Bytes → Bytes → Io S Call
  pub call_code : Bytes → Bytes → Bytes → Io S Call
  pub broadcast_tx : T.Tx → Io S Receipt
  pub send : Bytes → Bytes → ℤ → Io S Receipt
  pub send_and_hold : Bytes → Bytes → ℤ → Io S (Option Receipt)
  pub transact : Bytes → Bytes → Bytes → ℤ → ℤ → Io S Receipt
  pub transact_and_hold : Bytes → Bytes → Bytes → ℤ → ℤ → Io S EventDataCall
  pub transact_name_reg : Bytes → Bytes → Bytes → ℤ → ℤ → Io S Receipt
  pub unconfirmed_txs : Io S (List T.Tx)
  pub sign_tx : T.CallTx → List T.PrivAccount → Io S T.Tx

pub record Pipe (T : NodeTypes) (S : Type 0) : Type 0 where
  pub accounts : AccountsPipe T S
  pub blockchain : BlockchainPipe T S
  pub consensus : ConsensusPipe T S
  pub name_reg : NameRegPipe S
  pub net : NetPipe T S
  pub transactor : TransactorPipe T S
  pub subscribe : Bytes → Bytes → Io S Bool
  pub unsubscribe : Bytes → Io S Bool

-- What stands in the `interface{}` that a handler returns.
pub data Reply (T : NodeTypes) : Type 0 where
  priv_account : T.PrivAccount → Reply T
  account_list : AccountList → Reply T
  account : Account → Reply T
  storage : Storage → Reply T
  storage_item : StorageItem → Reply T
  blockchain_info : BlockchainInfo → Reply T
  genesis_hash chain_id : Bytes → Reply T
  latest_block_height : ℤ → Reply T
  block : T.Block → Reply T
  blocks : Blocks → Reply T
  consensus_state : T.ConsensusState → Reply T
  validator_list : T.ValidatorList → Reply T
  network_info : NetworkInfo T → Reply T
  client_version moniker : Bytes → Reply T
  listening : Bool → Reply T
  listeners : List Bytes → Reply T
  peers : List T.Peer → Reply T
  peer : T.Peer → Reply T
  call : Call → Reply T
  receipt : Receipt → Reply T
  held_receipt : Option Receipt → Reply T
  event_data_call : EventDataCall → Reply T
  unconfirmed_txs : List T.Tx → Reply T
  tx : T.Tx → Reply T
  name_reg_entry : NameRegEntry → Reply T
  name_reg_entries : ResultListNames → Reply T
  event_sub : Bytes → Reply T
  event_unsub : Bool → Reply T
  poll_response : List T.EventData → Reply T
  event_data : T.EventData → Reply T

abbrev pub Handler : NodeTypes → Type 0 → Type 0
Handler T S = RpcRequest → S → Outcome (Reply T) × S

-- `if errC != nil { return nil, rpc.INTERNAL_ERROR, errC }; return value, 0, nil`
unfoldable pub finish :
    {S A : Type 0} {T : NodeTypes} → (A → Reply T) → Result A × S → Outcome (Reply T) × S
finish reply (ok a, s) = (Outcome.success (reply a), s)
finish reply (err e, s) = (Outcome.failure internal_error e, s)
finish reply (panic, s) = (Outcome.crash, s)

-- `if err != nil { return nil, rpc.INVALID_PARAMS, err }`, and the rest of the handler.
unfoldable pub with_params :
    {S P : Type 0} {T : NodeTypes}
    → Result P
    → (P → S → Outcome (Reply T) × S)
    → S
    → Outcome (Reply T) × S
with_params (ok param) rest s = rest param s
with_params (err e) rest s = (Outcome.failure invalid_params e, s)
with_params panic rest s = (Outcome.crash, s)
