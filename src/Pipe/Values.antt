-- ===== src/Pipe/Values.antt =====
-- The values that a filter is matched against, with the fields of tendermint's types that erisdb/pipe
-- and erisdb/event_filters.go read.
use eris_db.Base.{Bytes, Option}
use eris_db.Base.Int.{ℤ}

pub record Account : Type 0 where
  pub address : Bytes
  pub pub_key : Option Bytes
  pub sequence : ℤ
  pub balance : ℤ
  pub code : Bytes
  pub storage_root : Bytes

pub record NameRegEntry : Type 0 where
  pub name : Bytes
  pub owner : Bytes
  pub content : Bytes
  pub expires : ℤ

pub record BlockMeta : Type 0 where
  pub hash : Bytes
  pub height : ℤ

pub record EventDataCall : Type 0 where
  pub tx_id : Bytes
  pub exception : Bytes

-- `interface{}`; `other` is a value of any type that no filter asks for.
pub data Value : Type 0 where
  account : Account → Value
  name_reg_entry : NameRegEntry → Value
  block_meta : BlockMeta → Value
  event_data_call : EventDataCall → Value
  other : Value
