-- ===== src/ErisDb/Rest/Examples.antt =====
-- Requests to a node that answers little.
use eris_db.Base.{str, some, [], ◌≡◌, panic, Error}
use eris_db.Base.Int.{pos}
use eris_db.ErisDb.SmallNode.{small_types, small_pipe, small_subs}
use eris_db.ErisDb.Rest.{RestCodec}
use eris_db.ErisDb.Rest.Routes.{Verb, RawParams, dispatch, routes}
use eris_db.ErisDb.Rest.Dispatch.{dispatch-panic}

abbrev small_rest : RestCodec small_types
small_rest = record {
  event_id = λ _. (record { event_id = [] }, some (Error.other_error []));
  tx = λ _. (0, some (Error.other_error []));
  call = λ _. (record { address = []; from = []; data_bytes = [] }, some (Error.other_error []));
  call_code = λ _. (record { from = []; code = []; data_bytes = [] }, some (Error.other_error []));
  transact = λ _. (
    record { priv_key = []; data_bytes = []; address = []; fee = pos 0; gas_limit = pos 0 },
    some (Error.other_error []),
  );
  transact_name_reg = λ _. (
    record { priv_key = []; name = []; data_text = []; fee = pos 0; amount = pos 0 },
    some (Error.other_error []),
  );
  sign_tx = λ _. (record { tx = 0; priv_accounts = [] }, some (Error.other_error []));
}

abbrev texts : RawParams
texts = record {
  address = str "00";
  key = str "zz";
  height = str "7";
  hold = str "true";
  q = [];
  bytes_left = [];
  height_left = pos 0;
}

dispatch-panic_example :
    let all = routes small_rest small_pipe small_subs in
    (dispatch all Verb.get [] (str "/event_subs/:id") texts [] 3 ≡ (panic, 3))
    × (dispatch all Verb.delete [] (str "/event_subs/:id") texts [] 3 ≡ (panic, 3))
dispatch-panic_example = dispatch-panic small_rest small_pipe small_subs [] texts [] 3
