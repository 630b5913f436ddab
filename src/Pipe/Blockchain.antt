-- ===== src/Pipe/Blockchain.antt =====
-- erisdb/pipe/blockchain.go. `int` has 64 bits.
pub mod Heights
pub mod Fetch
mod Examples
use eris_db.Base.{
  ℕ, zero, suc, Bytes, bytes_eq, str, Bool, true, false, not, ◌&&◌, ◌||◌, Option, none, some, List,
  [], ◌∷◌, ◌++◌, Result, ok, err, panic, Error, ◌>>=◌, if◌then◌else◌, wrap_err, ◌^◌, ◌-◌,
}
use eris_db.Base.Int.{ℤ, pos, eqb_ℤ, leb_ℤ, ltb_ℤ, ◌+ℤ◌, ◌-ℤ◌, wrap64}
use eris_db.Go.Strings.{equal_fold}
use eris_db.Go.Strconv.{parse_int}
use eris_db.Pipe.Values.{BlockMeta, Value}
use eris_db.Pipe.Filters.{
  FilterData, Filter, ConfigurableFilter, FilterFactory, new_filter_factory, register_filter_pool,
  new_filter, call_test,
}

abbrev pub block_max : ℤ
block_max = pos 50

-- Tendermint's block store, with blocks of any type.
pub record BlockStore (Block : Type 0) : Type 0 where
  pub height : ℤ
  pub load_block_meta : ℤ → BlockMeta
  pub load_block : ℤ → Block

pub record BlockHeightFilter : Type 0 where
  pub op : Bytes
  pub value : ℤ
  pub test : Option (ℤ → ℤ → Bool)

unfoldable pub height_number : Bytes → Result ℤ
height_number value =
    if bytes_eq value (str "min")
    then ok (pos 0)
    else if bytes_eq value (str "max")
    then ok (pos (2 ^ 31 - 1))
    else wrap_err (λ _. Error.wrong_value_type) (parse_int value)

-- The message of an unsupported operator quotes `this.op`, the operator that was set before.
unfoldable pub height_test : Bytes → FilterData → Result (ℤ → ℤ → Bool)
height_test this_op fd =
    if bytes_eq fd.op (str "==")
    then ok (λ a b. eqb_ℤ a b)
    else if bytes_eq fd.op (str "!=")
    then ok (λ a b. not (eqb_ℤ a b))
    else if bytes_eq fd.op (str "<=")
    then ok (λ a b. leb_ℤ a b)
    else if bytes_eq fd.op (str ">=")
    then ok (λ a b. leb_ℤ b a)
    else if bytes_eq fd.op (str "<")
    then ok (λ a b. ltb_ℤ a b)
    else if bytes_eq fd.op (str ">")
    then ok (λ a b. ltb_ℤ b a)
    else err (Error.op_not_supported this_op (str "height"))

unfoldable pub configure_height : BlockHeightFilter → FilterData → Result BlockHeightFilter
configure_height this fd = do
  val ← height_number fd.value
  test ← height_test this.op fd
  ok (record { op = fd.op; value = val; test = some test })

unfoldable pub match_height : BlockHeightFilter → Value → Result Bool
match_height this (Value.block_meta bl) = call_test this.test bl.height this.value
match_height this _ = ok false

unfoldable pub block_filter : ConfigurableFilter BlockHeightFilter
block_filter = record { configure = configure_height; matches = match_height }

-- The filter factory that `newBlockchain` sets up.
unfoldable pub block_filters : FilterFactory BlockHeightFilter
unfolding new_filter_factory register_filter_pool
block_filters =
    register_filter_pool new_filter_factory (str "height")
      (record { op = []; value = pos 0; test = none })

pub record BlockchainInfo : Type 0 where
  pub chain_id : Bytes
  pub genesis_hash : Bytes
  pub latest_block_height : ℤ
  pub latest_block : Option BlockMeta

-- The chain id comes from tendermint's configuration, the hash from its genesis state.
unfoldable pub info : {B : Type 0} → BlockStore B → Bytes → Bytes → BlockchainInfo
info store chain_id genesis_hash = record {
  chain_id = chain_id;
  genesis_hash = genesis_hash;
  latest_block_height = store.height;
  latest_block =
      if eqb_ℤ store.height (pos 0) then none else some (store.load_block_meta store.height);
}

unfoldable pub block : {B : Type 0} → BlockStore B → ℤ → Result B
block store height =
    if eqb_ℤ height (pos 0)
    then err Error.height_not_positive
    else if ltb_ℤ store.height height
    then err Error.height_too_large
    else ok (store.load_block height)

unfoldable pub latest_block : {B : Type 0} → BlockStore B → Result B
unfolding block
latest_block store = block store store.height

-- `fda[0], fda = fda[len(fda)-1], fda[:len(fda)-1]` on a list that is not empty.
abbrev pub last_of {ℓ} : {A : Type ℓ} → A → List A → A
last_of x [] = x
last_of x (y ∷ fds) = last_of y fds

abbrev pub but_last {ℓ} : {A : Type ℓ} → A → List A → List A
but_last x [] = []
but_last x (y ∷ fds) = x ∷ but_last y fds

unfoldable pub drop_first {ℓ} : {A : Type ℓ} → List A → List A
drop_first [] = []
drop_first (x ∷ []) = []
drop_first (x ∷ y ∷ fds) = last_of y fds ∷ but_last y fds

-- The value of a height filter, where "max" is the height of the chain.
unfoldable pub height_value : ℤ → Bytes → Result ℤ
height_value height value =
    if bytes_eq value (str "min")
    then ok (pos 0)
    else if bytes_eq value (str "max")
    then ok height
    else wrap_err (λ _. Error.wrong_value_type) (parse_int value)

-- The `switch` of `getHeightMinMax`: the new `min` and `max`.
unfoldable pub narrow : ℤ → ℤ → ℤ → Bytes → ℤ → Result (ℤ × ℤ)
narrow height min max op val =
    if bytes_eq op (str "==")
    then if ltb_ℤ height val || ltb_ℤ val (pos 0) then err Error.no_such_block else ok (val, val)
    else if bytes_eq op (str "<")
    then (let mx = wrap64 (val -ℤ pos 1) in
        ok (min, if ltb_ℤ min mx && ltb_ℤ mx max then mx else max))
    else if bytes_eq op (str "<=")
    then ok (min, if ltb_ℤ min val && ltb_ℤ val max then val else max)
    else if bytes_eq op (str ">")
    then (let mn = wrap64 (val +ℤ pos 1) in
        ok (if ltb_ℤ mn max && ltb_ℤ min mn then mn else min, max))
    else if bytes_eq op (str ">=")
    then ok (if ltb_ℤ val max && ltb_ℤ min val then val else min, max)
    else err Error.operator_not_supported

-- One height filter of the list.
unfoldable pub narrow_by : ℤ → ℤ → ℤ → FilterData → Result (ℤ × ℤ)
narrow_by height min max fd = do val ← height_value height fd.value; narrow height min max fd.op val

-- The loop of `getHeightMinMax`, on fuel: `none` means that it still runs.
pub height_loop : ℕ → ℤ → ℤ → ℤ → List FilterData → Option (Result (ℤ × ℤ × List FilterData))
height_loop zero height min max fda = none
height_loop (suc fuel) height min max [] = some (ok (min, if ltb_ℤ max min then min else max, []))
height_loop (suc fuel) height min max (fd ∷ fds) = elim (equal_fold fd.field (str "height")) [
  | true ↦ elim (narrow_by height min max fd) [
    | ok (mn, mx) ↦ height_loop fuel height mn mx (drop_first (fd ∷ fds))
    | err e ↦ some (err e)
    | panic ↦ some panic
  ]
  | false ↦ height_loop fuel height min max (fd ∷ fds)
]

unfoldable pub get_height_min_max :
    ℕ → List FilterData → ℤ → Option (Result (ℤ × ℤ × List FilterData))
get_height_min_max fuel fda height = height_loop fuel height (pos 0) height fda

-- The fields of the result are filled by position.
pub record Blocks : Type 0 where
  pub min_height : ℤ
  pub max_height : ℤ
  pub block_metas : List BlockMeta

-- The loop of `Blocks`, on fuel; `metas` is what the rounds before have appended.
pub block_loop :
    ℕ → (ℤ → BlockMeta) → Filter → ℤ → ℤ → ℤ → List BlockMeta → Option (Result (List BlockMeta))
block_loop zero load filter min max h metas = none
block_loop (suc fuel) load filter min max h metas =
    elim (leb_ℤ min h && ltb_ℤ block_max (wrap64 (max -ℤ h))) [
      | false ↦ some (ok metas)
      | true ↦ elim (filter (Value.block_meta (load h))) [
        | ok true ↦ block_loop fuel load filter min max (wrap64 (h -ℤ pos 1)) (metas ++ load h ∷ [])
        | ok false ↦ block_loop fuel load filter min max (wrap64 (h -ℤ pos 1)) metas
        | err e ↦ some (err e)
        | panic ↦ some panic
      ]
    ]

-- `Blocks` once the heights are known.
fetch : {B : Type 0} → ℕ → BlockStore B → ℤ → ℤ → List FilterData → Option (Result Blocks)
fetch fuel store min max fda = elim (new_filter block_filter block_filters fda) [
  | err e ↦ some (err (Error.in_request e))
  | panic ↦ some panic
  | ok filter ↦ elim (block_loop fuel store.load_block_meta filter min max max []) [
    | none ↦ none
    | some (ok metas) ↦
        some (ok (record { min_height = max; max_height = min; block_metas = metas }))
    | some (err e) ↦ some (err e)
    | some panic ↦ some panic
  ]
]

fetch_range :
    {B : Type 0}
    → ℕ
    → BlockStore B
    → Option (Result (ℤ × ℤ × List FilterData))
    → Option (Result Blocks)
fetch_range fuel store none = none
fetch_range fuel store (some (ok (min, max, rest))) = fetch fuel store min max rest
fetch_range fuel store (some (err e)) = some (err (Error.in_query e))
fetch_range fuel store (some panic) = some panic

-- `Blocks` on a chain that is not empty.
ranged : {B : Type 0} → ℕ → BlockStore B → List FilterData → Option (Result Blocks)
ranged fuel store [] = fetch fuel store (pos 0) store.height []
ranged fuel store (fd ∷ fds) =
    fetch_range fuel store (get_height_min_max fuel (fd ∷ fds) store.height)

-- `fuel` bounds the rounds of each of the two loops; `none` means that one of them still runs.
unfoldable pub blocks : {B : Type 0} → ℕ → BlockStore B → List FilterData → Option (Result Blocks)
unfolding fetch fetch_range ranged
blocks fuel store fda =
    if eqb_ℤ store.height (pos 0)
    then some (ok (record { min_height = pos 0; max_height = pos 0; block_metas = [] }))
    else ranged fuel store fda
