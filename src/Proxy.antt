-- ===== src/Proxy.antt =====
-- The proxy in front of the node (btc-rpc-proxy/src/main.rs and proxy.rs): it asks the node for the
-- whole answer and hands out the range that the request names. The HTTP library is left out.
pub mod Cache
pub mod Headers
pub mod Fetch
mod Tests
use Prim.Native.String.{String}
use ord_indexer.Base.Texts.{codes, split_at, trim_start_matches, parse_number, show_number}
use ord_indexer.Base.{
  ℕ, suc, Bool, true, false, Option, none, some, List, [], ◌∷◌, ◌++◌, length, get_elem?, take, drop,
  ltb, leb, if◌then◌else◌, Outcome, done, panic, ◌>>=◌, unwrap, ◌⊎◌, inl, inr, ◌-◌, u64_size,
}
use ord_indexer.Indexer.Canister.{HttpHeader, HttpResponse}

-- Of the texts of a range, both numbers, the second above the first. A `usize` has 64 bits here.
abbrev above : ℕ → Option ℕ → Option (ℕ × ℕ)
above start none = none
above start (some end) = if ltb start end then some (start, end) else none

abbrev read_end : List (List ℕ) → Option ℕ → Outcome (Option (ℕ × ℕ))
read_end parts none = done none
read_end parts (some start) = do
  text ← unwrap (get_elem? parts 1)
  done (above start (parse_number u64_size text))

-- `try_match_range_header`, with the value of the header, if it is there as a text
unfoldable pub try_match_range_header : Option (List ℕ) → Outcome (Option (ℕ × ℕ))
unfolding split_at trim_start_matches parse_number
try_match_range_header none = done none
try_match_range_header (some value) = do
  let parts = split_at 45 (trim_start_matches (codes "bytes=") value)
  text ← unwrap (get_elem? parts 0)
  read_end parts (parse_number u64_size text)

-- `format!("bytes {}-{}/{}", start, end, body.len())`
unfoldable pub content_range_value : ℕ → ℕ → ℕ → List ℕ
content_range_value start end total =
    codes "bytes "
    ++ (show_number start ++ (codes "-" ++ (show_number end ++ (codes "/" ++ show_number total))))

-- `body[start..]`, which panics when the start is past the end of the body.
abbrev pub slice_from : ℕ → List ℕ → Outcome (List ℕ)
slice_from start body = if leb start (length body) then done (drop start body) else panic

-- `body[start..=end]`, for an end in the body and a start below it
abbrev pub slice_to : ℕ → ℕ → List ℕ → List ℕ
slice_to start end body = take (suc end - start) (drop start body)

-- The part of `forward` for a request with a range.
unfoldable pub partial_content : ℕ → ℕ → List ℕ → Outcome HttpResponse
unfolding content_range_value
partial_content start end body =
    if leb (length body) (end - start)
    then done (record { status = 200; headers = []; body = body })
    else (do
      partial ←
          (if leb (length body) end then slice_from start body else done (slice_to start end body))
      done (record {
        status = 206;
        headers =
            record {
              name = codes "Content-Range";
              value = content_range_value start end (length body);
            }
            ∷ [];
        body = partial;
      }))

-- `forward`, with the answer of `proxy::call`
unfoldable pub forward : Option (List ℕ) → Option HttpResponse → Outcome HttpResponse
unfolding try_match_range_header partial_content
forward range called = do
  if_range ← try_match_range_header range
  elim called [
    | none ↦ done (record { status = 500; headers = []; body = codes "Internal Server Error" })
    | some response ↦ elim if_range [
      | none ↦ done response
      | some (start, end) ↦ partial_content start end response.body
    ]
  ]
