-- ===== src/ErisDb/PathParams/Examples.antt =====
-- A good address, a negative height and a short id.
use eris_db.Base.{str, Bytes, none, some, [], ◌≡◌, ◌⊎◌, refl, ok, length}
use eris_db.Base.Int.{ℤ, pos, ◌≤ℤ◌, ◌<ℤ◌}
use eris_db.Go.Strconv.{parse_int}
use eris_db.Go.Hex.{decode}
use eris_db.Util.Decoding.{Decodes}
use eris_db.ErisDb.PathParams.{Context, bad_request, address_param, height_param}
use eris_db.ErisDb.PathParams.Checked.{address_param-Decodes, height_param-pos}

abbrev fresh : Context
fresh = record {
  aborted = none;
  addr_bts = none;
  name = none;
  key_bts = none;
  height = none;
  id = none;
  address = none;
  hold = none;
  filters = none;
}

abbrev some_address : Bytes
some_address = str "0123456789abcdefABCDEF0123456789abcdef01"

address_param-Decodes_example :
    (((address_param [] some_address fresh).aborted ≡ none)
      × (bts : Bytes) × (decode some_address ≡ ok bts)
      × (length bts ≡ 20)
      × ((address_param [] some_address fresh).addr_bts ≡ some bts))
    ⊎ (((address_param [] some_address fresh).aborted ≡ some bad_request)
        × ¬ Decodes 20 some_address)
address_param-Decodes_example = address_param-Decodes [] some_address fresh refl

height_param-pos_example :
    (((height_param (pos 0) (str "-3") fresh).aborted ≡ none)
      × (h : ℤ) × (parse_int (str "-3") ≡ ok h)
      × (pos 0 ≤ℤ h)
      × ((height_param (pos 0) (str "-3") fresh).height ≡ some h))
    ⊎ (((height_param (pos 0) (str "-3") fresh).aborted ≡ some bad_request)
        × ((h : ℤ) → parse_int (str "-3") ≡ ok h → h <ℤ pos 0))
height_param-pos_example = height_param-pos (pos 0) (str "-3") fresh refl
