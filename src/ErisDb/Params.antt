-- ===== src/ErisDb/Params.antt =====
-- erisdb/params.go, and the types that a node of tendermint gives the services.
use eris_db.Base.{Bytes, List, Result}
use eris_db.Base.Int.{ℤ}
use eris_db.Pipe.Filters.{FilterData}

-- The types of tendermint that the services pass on and never look into.
pub record NodeTypes : Type 1 where
  pub Block : Type 0
  pub Tx : Type 0
  pub CallTx : Type 0
  pub PrivAccount : Type 0
  pub Peer : Type 0
  pub ConsensusState : Type 0
  pub ValidatorList : Type 0
  pub EventData : Type 0

pub record AddressParam : Type 0 where
  pub address : Bytes

pub record AccountsParam : Type 0 where
  pub filters : List FilterData

pub record FilterListParam : Type 0 where
  pub filters : List FilterData

pub record PrivKeyParam : Type 0 where
  pub priv_key : Bytes

pub record StorageAtParam : Type 0 where
  pub address : Bytes
  pub key : Bytes

pub record HeightParam : Type 0 where
  pub height : ℤ

pub record BlocksParam : Type 0 where
  pub filters : List FilterData

pub record EventIdParam : Type 0 where
  pub event_id : Bytes

pub record SubIdParam : Type 0 where
  pub sub_id : Bytes

pub record PeerParam : Type 0 where
  pub address : Bytes

pub record CallParam : Type 0 where
  pub address : Bytes
  pub from : Bytes
  pub data_bytes : Bytes

pub record CallCodeParam : Type 0 where
  pub from : Bytes
  pub code : Bytes
  pub data_bytes : Bytes

pub record SignTxParam (T : NodeTypes) : Type 0 where
  pub tx : T.CallTx
  pub priv_accounts : List T.PrivAccount

pub record TransactParam : Type 0 where
  pub priv_key : Bytes
  pub data_bytes : Bytes
  pub address : Bytes
  pub fee : ℤ
  pub gas_limit : ℤ

pub record SendParam : Type 0 where
  pub priv_key : Bytes
  pub to_address : Bytes
  pub amount : ℤ

pub record NameRegEntryParam : Type 0 where
  pub name : Bytes

pub record TransactNameRegParam : Type 0 where
  pub priv_key : Bytes
  pub name : Bytes
  pub data_text : Bytes
  pub fee : ℤ
  pub amount : ℤ

-- `codec.DecodeBytes` into each type of parameters; `wire.ReadJSONPtr` for `tx`. Tendermint's codec
-- is not the program's own code.
pub record ParamCodec (T : NodeTypes) : Type 0 where
  pub address_param : Bytes → Result AddressParam
  pub accounts_param : Bytes → Result AccountsParam
  pub filter_list_param : Bytes → Result FilterListParam
  pub priv_key_param : Bytes → Result PrivKeyParam
  pub storage_at_param : Bytes → Result StorageAtParam
  pub height_param : Bytes → Result HeightParam
  pub blocks_param : Bytes → Result BlocksParam
  pub event_id_param : Bytes → Result EventIdParam
  pub sub_id_param : Bytes → Result SubIdParam
  pub peer_param : Bytes → Result PeerParam
  pub call_param : Bytes → Result CallParam
  pub call_code_param : Bytes → Result CallCodeParam
  pub tx : Bytes → Result T.Tx
  pub sign_tx_param : Bytes → Result (SignTxParam T)
  pub transact_param : Bytes → Result TransactParam
  pub send_param : Bytes → Result SendParam
  pub name_reg_entry_param : Bytes → Result NameRegEntryParam
  pub transact_name_reg_param : Bytes → Result TransactNameRegParam
