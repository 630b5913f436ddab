-- ===== src/Pipe/Node.antt =====
-- The parts of a tendermint node that erisdb/pipe reads. They are not the program's own code, so they
-- are fields that a node fills in.
use eris_db.Base.{Bytes, Option, List}
use eris_db.Base.Int.{ℤ}
use eris_db.Pipe.Values.{Account, NameRegEntry}

-- A storage tree: its entries in the order of `Iterate`, and its `Get`.
pub record StorageTree : Type 0 where
  pub items : List (Bytes × Bytes)
  pub get : Bytes → Option Bytes

-- `ConsensusState.GetState()`.
pub record State : Type 0 where
  pub last_block_height : ℤ
  pub accounts : List Account
  pub get_account : Bytes → Option Account
  pub load_storage : Bytes → StorageTree
  pub names : List NameRegEntry
  pub get_name_reg_entry : Bytes → Option NameRegEntry

pub record PrivAccount : Type 0 where
  pub address : Bytes
  pub pub_key : Bytes
  pub priv_key : Option Bytes
