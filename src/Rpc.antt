-- ===== src/Rpc.antt =====
-- rpc.go, the client of a Dogecoin node, and `ParseBlockHeaderFromRPC` of headers.go.
-- HTTP and JSON are Go's libraries: a node is a function from a method and its parameters to what
-- comes back over HTTP, and `unmarshal` reads the body of an answer. A JSON number is a float64, a type
-- with its conversions to integers. An object is its entries, one for a key. What `fmt.Errorf`
-- says is left out.
pub mod Header
pub mod Forms
pub mod Bits
use doge_lucky_mining.Common.{
  ℕ, ◌+◌, ◌-◌, ◌*◌, ◌^◌, Bool, true, false, not, ◌||◌, Option, none, some, List, [], ◌∷◌, ◌++◌,
  Result, ok, err, length, take, drop, replicate, ltb, leb, ◌==◌, if◌then◌else◌, bytes_equal,
}
use doge_lucky_mining.Common.Int.{ℤ, pos}
use doge_lucky_mining.Bytes.{Bytes, get_le}
use doge_lucky_mining.Hex
use doge_lucky_mining.Hex.{Text, codes, hex_value}
use doge_lucky_mining.HashCompare.{hex_to_32_bytes, reverse_bytes}
use doge_lucky_mining.Block.{BlockHeader}
use doge_lucky_mining.Template.{BlockTemplate}

-- Go's float64 and its conversions to int64 of a value that is not negative, and to int32 and uint32 as bit patterns.
pub record Float64 : Type 1 where
  pub Value : Type 0
  pub to_int64 : Value → ℕ
  pub to_int32 : Value → ℕ
  pub to_uint32 : Value → ℕ

module _ (F : Float64) where
  mutual
    pub data Json : Type 0 where
      null : Json
      boolean : Bool → Json
      number : F.Value → Json
      string : Text → Json
      array : Items → Json
      object : Fields → Json

    pub data Items : Type 0 where
      no_items : Items
      item : Json → Items → Items

    pub data Fields : Type 0 where
      no_fields : Fields
      field : Text → Json → Fields → Fields

module _ {F : Float64} where
  -- `m[key]` of a `map[string]interface{}`
  unfoldable pub get_field : Text → Fields F → Option (Json F)
  get_field key no_fields = none
  get_field key (field k v fields) = if bytes_equal k key then some v else get_field key fields

  -- The type assertions `.(string)`, `.(float64)` and `.(map[string]interface{})`; nil has none of these.
  unfoldable pub as_string : Option (Json F) → Option Text
  as_string (some (string t)) = some t
  as_string _ = none

  unfoldable pub as_number : Option (Json F) → Option F.Value
  as_number (some (number x)) = some x
  as_number _ = none

  unfoldable pub as_object : Option (Json F) → Option (Fields F)
  as_object (some (object m)) = some m
  as_object _ = none

pub record RpcError : Type 0 where
  pub code : ℤ
  pub message : Text

pub record RpcResponse (F : Float64) : Type 0 where
  pub result : Json F
  pub error : Option RpcError

-- What comes back over HTTP: nothing, or a status and a body, unless reading the body fails.
pub data Exchange : Type 0 where
  not_sent : Exchange
  answered : ℕ → Option Bytes → Exchange

pub data CallError : Type 0 where
  no_answer bad_body bad_json unexpected_type : CallError
  bad_status : ℕ → CallError
  rpc_error : RpcError → CallError
  rejected : Text → CallError
  bad_header_hex header_too_short : CallError

-- A parameter of a request; `template_request` is the object that `GetBlockTemplate` sends.
pub data Param : Type 0 where
  int : ℕ → Param
  str : Text → Param
  flag : Bool → Param
  template_request : Param

-- A node, and `json.Unmarshal` into an `RPCResponse` and into a `BlockTemplate`.
pub record Node (F : Float64) : Type 0 where
  pub exchange : Text → List Param → Exchange
  pub unmarshal : Bytes → Option (RpcResponse F)
  pub unmarshal_template : Json F → Option BlockTemplate

-- A result that is a text with a character is a rejection.
unfoldable pub rejection : Option Text → Option CallError
rejection none = none
rejection (some []) = none
rejection (some (c ∷ cs)) = some (rejected (c ∷ cs))

module _ {F : Float64} where
  -- The part of `Call` after the body was parsed.
  unfoldable pub result_of : Option (RpcResponse F) → Result CallError (Json F)
  result_of none = err bad_json
  result_of (some r) = elim r.error [ none ↦ ok r.result | some e ↦ err (rpc_error e) ]

  unfoldable pub read_answer : Node F → Exchange → Result CallError (Json F)
  read_answer node not_sent = err no_answer
  read_answer node (answered status body) =
      if not (status == 200)
      then err (bad_status status)
      else elim body [ none ↦ err bad_body | some b ↦ result_of (node.unmarshal b) ]

  -- `Call`
  unfoldable pub call : Node F → Text → List Param → Result CallError (Json F)
  call node method params = read_answer node (node.exchange method params)

  unfoldable pub test_connection : Node F → Option CallError
  test_connection node = elim (call node (codes "getblockcount") []) [
    | ok result ↦ none
    | err e ↦ some e
  ]

  unfoldable pub get_block_count : Node F → Result CallError ℕ
  get_block_count node = elim (call node (codes "getblockcount") []) [
    | err e ↦ err e
    | ok result ↦ elim (as_number (some result)) [
      | none ↦ err unexpected_type
      | some count ↦ ok (F.to_int64 count)
    ]
  ]

  unfoldable pub get_block_hash : Node F → ℕ → Result CallError Text
  get_block_hash node height = elim (call node (codes "getblockhash") (int height ∷ [])) [
    | err e ↦ err e
    | ok result ↦ elim (as_string (some result)) [
      | none ↦ err unexpected_type
      | some hash ↦ ok hash
    ]
  ]

  unfoldable pub get_difficulty : Node F → Result CallError F.Value
  get_difficulty node = elim (call node (codes "getdifficulty") []) [
    | err e ↦ err e
    | ok result ↦ elim (as_number (some result)) [
      | none ↦ err unexpected_type
      | some difficulty ↦ ok difficulty
    ]
  ]

  unfoldable pub submit_block : Node F → Text → Option CallError
  submit_block node block_hex = elim (call node (codes "submitblock") (str block_hex ∷ [])) [
    | err e ↦ some e
    | ok result ↦ rejection (as_string (some result))
  ]
