-- ===== src/Pipe/Transactor/Calls.antt =====
-- erisdb/pipe/transactor.go: running code without a transaction. The virtual machine and its caches
-- are tendermint's; the state is a copy, so nothing is kept.
use eris_db.Base.{Bytes, str, Bool, true, false, Option, none, some, Result, ok, err, Error, ◌>>=◌}
use eris_db.Base.Int.{ℤ, pos}
use eris_db.Go.Hex.{encode}
use eris_db.Pipe.Values.{Account}

pub record VmAccount : Type 0 where
  pub address : Bytes
  pub balance : ℤ
  pub code : Bytes
  pub nonce : ℤ
  pub other : Option Bytes

-- What a run of the machine depends on.
pub record VmCall : Type 0 where
  pub gas_limit : ℤ
  pub fires_events : Bool
  pub caller : VmAccount
  pub callee : VmAccount
  pub code : Bytes
  pub input : Bytes
  pub value : ℤ
  pub gas : ℤ

-- `block_account` looks into the state of the last block; `run_block` runs on a cache of that state,
-- `run_mempool` on the mempool's.
pub record Vm (S : Type 0) : Type 0 where
  pub left_pad_word256 : Bytes → Bytes
  pub block_account : S → Bytes → Option Account
  pub run_block : S → VmCall → Result Bytes
  pub run_mempool : S → VmCall → Result Bytes

pub record Call : Type 0 where
  pub return : Bytes
  pub gas_used : ℤ

-- `&Call{Return: hex.EncodeToString(ret)}`
called : Bytes → Call
called ret = record { return = encode ret; gas_used = pos 0 }

module _ {S : Type 0} (vm : Vm S) where
  to_vm_account : Account → VmAccount
  to_vm_account acc = record {
    address = vm.left_pad_word256 acc.address;
    balance = acc.balance;
    code = acc.code;
    nonce = acc.sequence;
    other = acc.pub_key;
  }

  -- An account of which only the address is set.
  bare_account : Bytes → VmAccount
  bare_account address = record {
    address = vm.left_pad_word256 address;
    balance = pos 0;
    code = str "";
    nonce = pos 0;
    other = none;
  }

  call_account : Bytes → Bytes → Bytes → S → Option Account → Result Call
  call_account from_address to_address input s none = err (Error.account_not_found to_address)
  call_account from_address to_address input s (some out_acc) =
      let callee = to_vm_account out_acc in
      vm.run_block s (record {
        gas_limit = pos 10000000;
        fires_events = true;
        caller = bare_account from_address;
        callee = callee;
        code = callee.code;
        input = input;
        value = pos 0;
        gas = pos 1000000000;
      })
      >>= λ ret. ok (called ret)

  unfoldable call : Bytes → Bytes → Bytes → S → Result Call
  unfolding call_account to_vm_account bare_account called
  call from_address to_address input s =
      call_account from_address to_address input s (vm.block_account s to_address)

  unfoldable call_code : Bytes → Bytes → Bytes → S → Result Call
  unfolding bare_account called
  call_code from_address code input s =
      vm.run_mempool s (record {
        gas_limit = pos 10000000;
        fires_events = false;
        caller = bare_account from_address;
        callee = bare_account from_address;
        code = code;
        input = input;
        value = pos 0;
        gas = pos 1000000000;
      })
      >>= λ ret. ok (called ret)
