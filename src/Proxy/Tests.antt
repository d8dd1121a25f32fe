-- ===== src/Proxy/Tests.antt =====
-- Calls through the proxy of answers of six and of four bytes, with a first range of three.
use ord_indexer.Base.Texts.{codes}
use ord_indexer.Base.{
  ℕ, ◌≡◌, refl, Option, none, some, List, [], ◌∷◌, done, panic, inl, arith, Outcome,
}
use ord_indexer.Runes.{ok}
use ord_indexer.Indexer.Canister.{HttpHeader, HttpResponse, rpc_transform}
use ord_indexer.Indexer.Rpc.{
  Serde, Answer, answered, rejected, Network, empty_list, partial_request, fetch,
}
use ord_indexer.Proxy.{forward}
use ord_indexer.Proxy.Fetch.{whole, IsProxied, fetch-forward, fetch_short}

abbrev serde : Serde
serde = record {
  payload = λ endpoint params. codes endpoint;
  digest = λ body. body;
  text_reply = λ bytes. inl "";
  height_reply = λ bytes. inl "";
  hash_from_str = λ text. inl "";
  from_hex = λ text. inl "";
  deserialize = λ bytes. inl "";
}

-- The value of the fourth header, where the range stands.
abbrev fourth : List HttpHeader → Option (List ℕ)
fourth (a ∷ b ∷ c ∷ d ∷ hs) = some d.value
fourth _ = none

abbrev answer_of : Outcome HttpResponse → Answer
answer_of panic = rejected "closed"
answer_of (done r) = answered (rpc_transform r)

abbrev proxied : List ℕ → Network
proxied body args cycles n = answer_of (forward (fourth args.headers) (some (whole body)))

proxied-IsProxied :
    (body : List ℕ) → IsProxied serde "http://proxy" "getblock" empty_list body (proxied body)
unfolding partial_request
proxied-IsProxied body range cycles n r e = rw e refl

abbrev six_bytes : List ℕ
six_bytes = 1 ∷ 2 ∷ 3 ∷ 4 ∷ 5 ∷ 6 ∷ []

abbrev four_bytes : List ℕ
four_bytes = 1 ∷ 2 ∷ 3 ∷ 4 ∷ []

fetch-forward_example :
    fetch serde (proxied six_bytes) "http://proxy" "getblock" empty_list 7 (0, 2) []
    ≡ done (some (ok six_bytes))
fetch-forward_example =
    fetch-forward serde "http://proxy" "getblock" empty_list six_bytes (proxied six_bytes) 2 7
      (proxied-IsProxied six_bytes) (omega arith) (omega arith) (omega arith) (omega arith)
      (omega arith)

fetch_short_example :
    fetch serde (proxied four_bytes) "http://proxy" "getblock" empty_list 5 (0, 2) []
    ≡ done (some (ok (1 ∷ 2 ∷ 3 ∷ [])))
fetch_short_example =
    fetch_short serde "http://proxy" "getblock" empty_list four_bytes (proxied four_bytes) 2 5
      (proxied-IsProxied four_bytes) (omega arith) (omega arith) (omega arith) (omega arith)
      (omega arith)
