-- ===== src/Httpsrv/Handlers.antt =====
-- The handlers of internal/httpsrv/handlers.go that answer themselves. What the cluster returns is
-- a parameter; texts are lists of bytes.
pub mod Answers
pub mod Blocks
pub mod Waits
use algo_vnode.Prelude.{
  ◌>>=◌, bytes_eq, codes, ℕ, ◌+◌, ◌-◌, ◌*◌, ◌^◌, Bool, true, false, ◌&&◌, ◌||◌, not, List, [], ◌∷◌,
  Option, none, some, String, GoError, ltb, leb, ◌==◌, if◌then◌else◌, map, is_none,
}
use algo_vnode.Algod.State.{Status}
use algo_vnode.BlockFetcher.Wrap.{BlockWrap}
use algo_vnode.Httpsrv.Auth.{lower}

-- `BlockFormat`.
pub data BlockFormat : Type 0 where
  msg_pack node_json idx_json : BlockFormat

-- The body of a response.
pub data Body : Type 0 where
  json_error : String → Body
  go_error : GoError → Body
  blob : List ℕ → Body
  json : String → Body
  json_status : Status → Body
  empty : Body

pub record Response : Type 0 where
  pub status : ℕ
  pub body : Body

-- The digits of `strconv.ParseInt(s, 10, 64)`, after those that make up `n`.
unfoldable pub parse_digits : ℕ → List ℕ → Option ℕ
parse_digits n [] = some n
parse_digits n (c ∷ s) =
    let rest = parse_digits (n * 10 + (c - b'0')) s in
    if leb b'0' c && leb c b'9' then rest else none

-- A magnitude, if there is a digit at all.
unfoldable pub parse_magnitude : List ℕ → Option ℕ
unfolding parse_digits
parse_magnitude [] = none
parse_magnitude (c ∷ s) = parse_digits 0 (c ∷ s)

-- `strconv.ParseInt(s, 10, 64)`, as far as the handlers use it: the value if there is no error and
-- it is not negative, after an optional sign. `-0` is 0.
unfoldable pub parse_int : List ℕ → Option ℕ
unfolding parse_magnitude
parse_int [] = none
parse_int (c ∷ s) = elim (parse_magnitude (if c == b'-' || c == b'+' then s else c ∷ s)) [
  | none ↦ none
  | some n ↦
      if c == b'-'
      then (if n == 0 then some 0 else none)
      else (if ltb n (2 ^ 63) then some n else none)
]

abbrev pub invalid_round : Response
invalid_round = record { status = 400; body = json_error "Invalid round value" }

abbrev pub timeout_response : Response
timeout_response = record { status = 503; body = json_error "timeout" }

-- What a block is answered with.
unfoldable pub block_body : {C : Type 0} → BlockFormat → BlockWrap C → Body
block_body msg_pack w = blob w.block_msg_pack
block_body node_json w = json w.block_json_node
block_body idx_json w = json w.block_json_idx

-- `blocksHandler` after the cluster has returned a block and an error, and the context has ended
-- with its deadline or not.
unfoldable pub block_response :
    {C : Type 0} → BlockFormat → Bool → Option (BlockWrap C) → Option GoError → Response
unfolding block_body
block_response format true block err = timeout_response
block_response format false block (some e) = record { status = 500; body = go_error e }
block_response format false (some w) none = record { status = 200; body = block_body format w }
block_response format false none none = record { status = 204; body = empty }

abbrev pub is_msgp : BlockFormat → Bool
is_msgp msg_pack = true
is_msgp _ = false

-- The format of the parameter `format`, which is `json` if it is absent.
unfoldable pub format_of : List ℕ → Option BlockFormat
unfolding lower bytes_eq
format_of text =
    let t = map lower text in
    if bytes_eq t (codes "json")
    then some node_json
    else (if bytes_eq t (codes "msgpack") || bytes_eq t (codes "msgp")
        then some msg_pack
        else (if bytes_eq t (codes "idx") || bytes_eq t (codes "indexer")
            then some idx_json
            else none))

-- `GetBlock` of the cluster: for a round and whether the format is msgpack, it returns whether the
-- deadline has passed, the block and the error.
module _ {C : Type 0} (get_block : ℕ → Bool → Bool × Option (BlockWrap C) × Option GoError) where
  -- `blocksHandler`.
  unfoldable pub blocks_handler : List ℕ → BlockFormat → Response
  unfolding parse_int block_response
  blocks_handler round format = elim (parse_int round) [
    | none ↦ invalid_round
    | some n ↦ let r = get_block n (is_msgp format) in block_response format r.0 r.1 r.2
  ]

  -- `blockHandlerWrap`, for a query that binds.
  unfoldable pub block_handler_wrap : List ℕ → Option (List ℕ) → Response
  unfolding blocks_handler format_of
  block_handler_wrap round format =
      elim (format_of (elim format [ none ↦ codes "json" | some t ↦ t ])) [
        | none ↦ record { status = 400; body = json_error "Invalid format" }
        | some f ↦ blocks_handler round f
      ]

  -- `blockIdxHandlerWrap`.
  unfoldable pub block_idx_handler_wrap : List ℕ → Response
  unfolding blocks_handler
  block_idx_handler_wrap round = blocks_handler round idx_json

-- `waitHandler` after the cluster has returned a status or nil.
unfoldable pub wait_response : Bool → Option Status → Response
wait_response true st = timeout_response
wait_response false none = record { status = 500; body = json_error "Error waiting for round" }
wait_response false (some st) = record { status = 200; body = json_status st }

-- `waitHandler`; `wait` says whether the deadline has passed, and what the cluster returned. Where
-- the wait of the cluster panics, so does the handler, with `none`.
unfoldable pub wait_handler : (ℕ → Bool × Option (Option Status)) → List ℕ → Option Response
unfolding parse_int wait_response
wait_handler wait round = elim (parse_int round) [
  | none ↦ some invalid_round
  | some n ↦ let r = wait n in r.1 >>= λ st. some (wait_response r.0 st)
]
