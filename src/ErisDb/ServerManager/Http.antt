-- ===== src/ErisDb/ServerManager/Http.antt =====
-- erisdb/erisdbss/http.go: a server that starts other servers on request. JSON is read and written
-- by other packages.
use eris_db.Base.{
  ℕ, Bool, true, false, Bytes, str, ◌++◌, [], ◌∷◌, Result, ok, err, panic, Error, length, ◌==◌,
  if◌then◌else◌,
}
use eris_db.ErisDb.ServerManager.{
  Machine, RequestData, ResponseData, ServerManager, new_server_manager, add, kill_all,
}

abbrev line : Bytes → Bytes
line text = text ++ 10 ∷ []

abbrev pub tendermint_config_default : Bytes
tendermint_config_default =
    line (str "# This is a TOML config file.")
    ++ line (str "# For more information, see https://github.com/toml-lang/toml")
    ++ line []
    ++ line (str "moniker = \"__MONIKER__\"")
    ++ line (str "seeds = \"\"")
    ++ line (str "fast_sync = false")
    ++ line (str "db_backend = \"leveldb\"")
    ++ line (str "log_level = \"debug\"")
    ++ line (str "node_laddr = \"\"")
    ++ line (str "rpc_laddr = \"\"")

pub record ServerServer (P : Type 0) : Type 0 where
  pub running : Bool
  pub server_manager : ServerManager P

-- What the client gets. The body of an error is the text of `http.Error`.
pub data Answer : Type 0 where
  encoded : ResponseData → Answer
  http_error : ℕ → Bytes → Answer
  internal_error : Error → Answer

module _ {W F P J : Type 0} (m : Machine W F P J) where
  unfoldable new_server_server : Bytes → W → ServerServer P × W
  new_server_server base_dir w =
      let (_, w2) = m.ensure_dir base_dir (m.remove_all base_dir w) in
      (record { running = false; server_manager = new_server_manager 100 base_dir }, w2)

  unfoldable start : ServerServer P → ServerServer P
  start ss = record ss { running = true }

  unfoldable shut_down : ServerServer P → W → ServerServer P × W
  shut_down ss w =
      let (sm, w2) = kill_all m ss.server_manager w in
      (record ss { running = false; server_manager = sm }, w2)

  added :
      ServerServer P
      → Result ResponseData × ServerManager P × W
      → Result Answer × ServerServer P × W
  added ss (ok resp, sm, w) = (ok (encoded resp), record ss { server_manager = sm }, w)
  added ss (err e, sm, w) = (ok (internal_error e), record ss { server_manager = sm }, w)
  added ss (panic, sm, w) = (panic, record ss { server_manager = sm }, w)

  decoded : ℕ → ServerServer P → W → Result (RequestData J) → Result Answer × ServerServer P × W
  decoded now ss w (ok req_data) =
      added ss (add m tendermint_config_default req_data now ss.server_manager w)
  decoded now ss w (err e) = (ok (http_error 400 (str "Failed to decode json.")), ss, w)
  decoded now ss w panic = (panic, ss, w)

  read_body :
      (Bytes → Result (RequestData J))
      → ℕ
      → ServerServer P
      → W
      → Result Bytes
      → Result Answer × ServerServer P × W
  read_body read_json now ss w (ok bts) =
      if length bts == 0
      then (ok (http_error 400 (str "Bad request.")), ss, w)
      else decoded now ss w (read_json bts)
  read_body read_json now ss w (err e) = (ok (http_error 400 (str "Bad request.")), ss, w)
  read_body read_json now ss w panic = (panic, ss, w)

  -- `body` is what reading the body returns, `read_json` is wire.ReadJSON.
  unfoldable handle_func :
      (Bytes → Result (RequestData J))
      → Result Bytes
      → ℕ
      → ServerServer P
      → W
      → Result Answer × ServerServer P × W
  unfolding read_body decoded added
  handle_func read_json body now ss w = read_body read_json now ss w body
