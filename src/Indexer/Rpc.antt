-- ===== src/Indexer/Rpc.antt =====
-- The calls to the node over HTTP (ord_canister/src/rpc.rs). What the management canister answers in
-- a round is a function of the request, its cycles and the attempt; JSON, hashes and the decoding of
-- blocks are other crates' and the parameter `s`. The fields of a request that are always the same
-- (the method, the transform and its context) and the logs are left out.
pub mod Calls
use Prim.Native.String.{String}
use ord_indexer.Base.Texts.{
  codes, to_ascii_lowercase, same_bytes, split_at, trim_start_matches, parse_number, show_number,
}
use ord_indexer.Base.{
  ℕ, zero, suc, Bool, true, false, Option, none, some, List, [], ◌∷◌, ◌++◌, length, get_elem?, leb,
  ◌==◌, if◌then◌else◌, Outcome, done, panic, ◌>>=◌, unwrap, ◌⊎◌, inl, inr, add64, sub64, add128,
  mul128, ◌/◌, u64_size,
}
use ord_indexer.Bitcoin.{BlockHash}
use ord_indexer.Runes.{RpcError, OrdError, Result, ok, err}
use ord_indexer.Indexer.Blocks.{Block}
use ord_indexer.Indexer.Canister.{HttpHeader, HttpResponse}

abbrev pub max_response : ℕ
max_response = 1999000

-- The next range after the one that ends at `end`.
unfoldable pub split : ℕ → ℕ → ℕ → ℕ × ℕ
split end total limit =
    let start = add64 end 1 in
    (start, if leb total (add64 start limit) then sub64 total 1 else sub64 (add64 start limit) 1)

unfoldable pub estimate_cycles : ℕ → ℕ → ℕ → ℕ
estimate_cycles req_len rsp_len n =
    mul128
      (add128 (add128 (add128 3000000 (mul128 60000 n)) (mul128 400 req_len)) (mul128 800 rsp_len))
      n

-- The arguments that the calls pass: none, a height, or a hash and how to answer.
pub data Params : Type 0 where
  empty_list : Params
  at_height : ℕ → Params
  verbose_of raw_of : BlockHash → Params

-- A reply's error is its message.
pub record Reply (R : Type 0) : Type 0 where
  pub error : Option String
  pub result : Option R

-- JSON, SHA-256, hexadecimal and the consensus encoding: an `inl` is the text of an error.
pub record Serde : Type 0 where
  -- `serde_json::to_vec` of the payload of a method with its arguments
  pub payload : String → Params → List ℕ
  -- the first half of the body's digest in hexadecimal
  pub digest : List ℕ → List ℕ
  -- `serde_json::from_slice`
  pub text_reply : List ℕ → String ⊎ Reply String
  pub height_reply : List ℕ → String ⊎ Reply ℕ
  pub hash_from_str : String → String ⊎ BlockHash
  pub from_hex : String → String ⊎ List ℕ
  pub deserialize : List ℕ → String ⊎ Block

pub record Request : Type 0 where
  pub url : String
  pub body : List ℕ
  pub max_response_bytes : ℕ
  pub headers : List HttpHeader

-- A response, or a rejection with its message.
pub data Answer : Type 0 where
  answered : HttpResponse → Answer
  rejected : String → Answer

-- What the management canister makes of a request, its cycles and the number of the attempt.
abbrev pub Network : Type 0
Network = Request → ℕ → ℕ → Answer

-- `format!("bytes={}-{}", start, end)`
unfoldable pub range_value : ℕ × ℕ → List ℕ
range_value (start, end) = codes "bytes=" ++ (show_number start ++ (codes "-" ++ show_number end))

-- `range.1 - range.0 + 1 + 512`
abbrev pub response_size : ℕ × ℕ → ℕ
response_size (start, end) = add64 (add64 (sub64 end start) 1) 512

unfoldable pub partial_request : Serde → String → String → Params → ℕ × ℕ → Request × ℕ
unfolding estimate_cycles range_value
partial_request s url endpoint params range =
    let body = s.payload endpoint params in
    let uniq = s.digest body in
    (
      record {
        url = url;
        body = body;
        max_response_bytes = response_size range;
        headers =
            record { name = codes "Content-Type"; value = codes "application/json" }
            ∷ record { name = codes "Idempotency-Key"; value = uniq }
            ∷ record { name = codes "x-cloud-trace-context"; value = uniq }
            ∷ record { name = codes "Range"; value = range_value range }
            ∷ [];
      },
      estimate_cycles (add64 (length body) 512) (response_size range) 13,
    )

abbrev last_answer : Answer → Result HttpResponse
last_answer (answered response) = ok response
last_answer (rejected e) =
    err (OrdError.rpc (RpcError.io "make_single_request" "retry limit exceeded" e))

abbrev or_else : Answer → Result HttpResponse → Result HttpResponse
or_else (answered response) next = ok response
or_else (rejected e) next = next

-- The loop of `make_single_request`, with so many attempts after this one. Each rejection adds a
-- tenth to the cycles.
unfoldable pub attempts : Network → Request → ℕ → ℕ → ℕ → Result HttpResponse
attempts net args zero n cycles = last_answer (net args cycles n)
attempts net args (suc left) n cycles =
    or_else (net args cycles n) (attempts net args left (suc n) (add128 cycles (cycles / 10)))

unfoldable pub make_single_request : Network → Request → ℕ → Result HttpResponse
unfolding attempts
make_single_request net args estimate_cycle = attempts net args 3 0 estimate_cycle

-- The first header of that name, in any letter case.
unfoldable pub content_range : List HttpHeader → Option (List ℕ)
unfolding same_bytes
content_range [] = none
content_range (h ∷ hs) =
    let rest = content_range hs in
    if same_bytes (to_ascii_lowercase h.name) (codes "content-range") then some h.value else rest

abbrev after_end : ℕ → Option ℕ → Option (ℕ × ℕ)
after_end total none = none
after_end total (some end) = some (split end total max_response)

abbrev after_total : List (List ℕ) → Option ℕ → Outcome (Option (ℕ × ℕ))
after_total parts none = done none
after_total parts (some total) = do
  range ← unwrap (get_elem? parts 0)
  end ← unwrap (get_elem? (split_at 45 range) 1)
  done (after_end total (parse_number u64_size end))

-- The closure that reads the header. A part that is missing is an index out of bounds.
unfoldable pub new_range : List ℕ → Outcome (Option (ℕ × ℕ))
unfolding split_at trim_start_matches parse_number split
new_range value = do
  let parts = split_at 47 (trim_start_matches (codes "bytes ") value)
  total ← unwrap (get_elem? parts 1)
  after_total parts (parse_number u64_size total)

-- What a call comes to: nothing while it goes on.
abbrev pub Call : Type 0 → Type 0
Call R = Outcome (Option (Result R))

abbrev read_range : Option (List ℕ) → Outcome (Option (ℕ × ℕ))
read_range none = done none
read_range (some value) = new_range value

abbrev pub go_on : (ℕ × ℕ → List ℕ → Call (List ℕ)) → List ℕ → Option (ℕ × ℕ) → Call (List ℕ)
go_on next buf none = done (some (ok buf))
go_on next buf (some range) = if leb range.1 range.0 then done (some (ok buf)) else next range buf

-- The rest of a turn of the loop of `make_rpc`.
abbrev pub receive : (ℕ × ℕ → List ℕ → Call (List ℕ)) → List ℕ → Result HttpResponse → Call (List ℕ)
receive next buf (err e) = done (some (err e))
receive next buf (ok response) =
    if response.status == 200
    then done (some (ok (buf ++ response.body)))
    else (read_range (content_range response.headers) >>= go_on next (buf ++ response.body))

module _ (s : Serde) (net : Network) (url : String) where
  -- The loop of `make_rpc`, with at most so many turns.
  unfoldable pub fetch : String → Params → ℕ → ℕ × ℕ → List ℕ → Call (List ℕ)
  fetch endpoint params zero range buf = done none
  fetch endpoint params (suc fuel) range buf =
      let (args, cycles) = partial_request s url endpoint params range in
      receive (fetch endpoint params fuel) buf (make_single_request net args cycles)

  -- The end of `make_rpc`.
  unfoldable pub read_reply : {R : Type 0} → String → String ⊎ Reply R → Result R
  read_reply endpoint (inl e) = err (OrdError.rpc (RpcError.decode endpoint url e))
  read_reply endpoint (inr reply) = elim (reply.error) [
    | some message ↦ err (OrdError.rpc (RpcError.endpoint endpoint url message))
    | none ↦ elim (reply.result) [
      | some r ↦ ok r
      | none ↦ err (OrdError.rpc (RpcError.decode endpoint url "No result"))
    ]
  ]

  abbrev read_call :
      {R : Type 0}
      → String
      → (List ℕ → String ⊎ Reply R)
      → Option (Result (List ℕ))
      → Option (Result R)
  read_call endpoint read none = none
  read_call endpoint read (some (err e)) = some (err e)
  read_call endpoint read (some (ok buf)) = some (read_reply endpoint (read buf))

  unfoldable pub make_rpc :
      {R : Type 0} → (List ℕ → String ⊎ Reply R) → String → Params → ℕ → ℕ → Call R
  unfolding fetch read_reply
  make_rpc read endpoint params max_length fuel = do
    r ← fetch endpoint params fuel (0, max_length) []
    done (read_call endpoint read r)
