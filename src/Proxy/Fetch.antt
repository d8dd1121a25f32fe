-- ===== src/Proxy/Fetch.antt =====
-- The indexer's calls through the proxy: the loop of `make_rpc` puts the node's answer together
-- from the ranges that `forward` hands out.
use Prim.Native.String.{String}
use ord_indexer.Base.Texts.{codes, same_bytes}
use ord_indexer.Base.{
  ℕ, zero, suc, ◌+◌, ◌-◌, ◌%◌, ◌^◌, ◌≤◌, ◌<◌, ◌≡◌, ◌≢◌, ◌∙◌, refl, ap, sym, true, false, some, List,
  [], ◌∷◌, ◌++◌, length, take, leb, ◌==◌, if◌then◌else◌, done, arith, Bool-cases, inl, inr,
}
use ord_indexer.Base.Slices.{take_all, append_slice}
use ord_indexer.Runes.{ok}
use ord_indexer.Indexer.Canister.{HttpResponse, should_keep, rpc_transform}
use ord_indexer.Indexer.Rpc.{
  max_response, split, Params, Serde, Network, answered, partial_request, range_value, receive,
  go_on, Call, attempts, make_single_request, content_range, fetch,
}
use ord_indexer.Proxy.{slice_to, partial_content, content_range_value, forward}
use ord_indexer.Proxy.Headers.{try_match_range_header-range_value, new_range-content_range_value}

-- The answer of the node.
abbrev pub whole : List ℕ → HttpResponse
whole body = record { status = 200; headers = []; body = body }

-- The network answers each request for a range with what the proxy makes of the node's answer.
abbrev pub IsProxied : Serde → String → String → Params → List ℕ → Network → Type 0
IsProxied s url endpoint params body net =
    (range : ℕ × ℕ) (cycles n : ℕ) (r : HttpResponse)
    → forward (some (range_value range)) (some (whole body)) ≡ done r
    → net (partial_request s url endpoint params range).0 cycles n ≡ answered (rpc_transform r)

-- The response for a range inside the answer.
abbrev part : ℕ → ℕ → List ℕ → HttpResponse
part start end body = record {
  status = 206;
  headers =
      record { name = codes "Content-Range"; value = content_range_value start end (length body) }
      ∷ [];
  body = slice_to start end body;
}

forward_inside :
    (start end : ℕ) (body : List ℕ)
    → start < end
    → end < length body
    → length body < 2 ^ 63
    → forward (some (range_value (start, end))) (some (whole body)) ≡ done (part start end body)
unfolding forward
forward_inside start end body lt inside small =
    rw (try_match_range_header-range_value start end lt (omega arith)) cut
  where
    cut : partial_content start end body ≡ done (part start end body)
    cut = unfold partial_content in ground arith

-- What the indexer makes of such a response.
receive-part :
    (start end : ℕ) (body buf : List ℕ) (next : ℕ × ℕ → List ℕ → Call (List ℕ))
    → start < 2 ^ 63
    → end < 2 ^ 63
    → length body < 2 ^ 63
    → receive next buf (ok (rpc_transform (part start end body)))
      ≡ go_on next (buf ++ slice_to start end body) (some (split end (length body) max_response))
unfolding rpc_transform should_keep same_bytes content_range
receive-part start end body buf next hs he hb =
    rw
      (new_range-content_range_value start end (length body) (omega arith) (omega arith)
        (omega arith))
      refl

-- How much of an answer of `n` bytes is read after a range that ends at `end`: all of it, but for a
-- last range of one byte.
abbrev pub kept : ℕ → ℕ → ℕ
kept end n = if (n - suc end) % max_response == 1 then n - 1 else n

split_inside :
    (end n : ℕ)
    → end < n
    → n < 2 ^ 63
    → split end n max_response
      ≡ (suc end, if leb n (suc end + max_response) then n - 1 else end + max_response)
unfolding split
split_inside end n lt small = ground arith

-- The three ways on after a range.
kept_end : (end n : ℕ) → end < n → n - 1 ≤ suc end → kept end n ≡ suc end
kept_end end n lt near = ground arith

kept_last : (end n : ℕ) → suc end < n - 1 → n ≤ suc end + max_response → kept end n ≡ kept (n - 1) n
kept_last end n lt near = ground arith

kept_next : (end n : ℕ) → suc end + max_response < n → kept end n ≡ kept (end + max_response) n
kept_next end n lt = ground arith

module _ (s : Serde) (url endpoint : String) (params : Params) (body : List ℕ) (net : Network) where
  answered_first :
      (range : ℕ × ℕ) (r : HttpResponse)
      → IsProxied s url endpoint params body net
      → forward (some (range_value range)) (some (whole body)) ≡ done r
      → make_single_request net
          (partial_request s url endpoint params range).0
          (partial_request s url endpoint params range).1
        ≡ ok (rpc_transform r)
  unfolding make_single_request attempts
  answered_first range r proxied e =
      rw (proxied range (partial_request s url endpoint params range).1 0 r e) refl

  -- One turn, at a range inside the answer.
  fetch_inside :
      (fuel start end : ℕ)
      → IsProxied s url endpoint params body net
      → start < end
      → end < length body
      → length body < 2 ^ 63
      → fetch s net url endpoint params (suc fuel) (start, end) (take start body)
        ≡ go_on
            (fetch s net url endpoint params fuel)
            (take (suc end) body)
            (some (split end (length body) max_response))
  unfolding fetch
  fetch_inside fuel start end proxied lt inside small =
      rw
        (answered_first (start, end) (part start end body) proxied
          (forward_inside start end body lt inside small))
        (receive-part start end body (take start body) (fetch s net url endpoint params fuel)
            (omega arith) (omega arith) small
          ∙ ap
              (λ (l : List ℕ).
                go_on (fetch s net url endpoint params fuel) l
                  (some (split end (length body) max_response)))
              (append_slice start (suc end) body (omega arith)))

  fetch_rest :
      (fuel start end : ℕ)
      → IsProxied s url endpoint params body net
      → start < end
      → end < length body
      → length body < 2 ^ 63
      → length body - start ≤ fuel
      → fetch s net url endpoint params fuel (start, end) (take start body)
        ≡ done (some (ok (take (kept end (length body)) body)))
  fetch_rest zero start end proxied lt inside small enough = absurd (omega arith)
  fetch_rest (suc fuel) start end proxied lt inside small enough =
      fetch_inside fuel start end proxied lt inside small
      ∙ ap
          (λ (r : ℕ × ℕ).
            go_on (fetch s net url endpoint params fuel) (take (suc end) body) (some r))
          (split_inside end n inside small)
      ∙ elim (Bool-cases (leb n (suc end + max_response))) [
        | inl last ↦ elim (Bool-cases (leb (n - 1) (suc end))) [
          | inl over ↦ rw (last, over) (ap found (sym (kept_end end n inside (ground arith))))
          | inr more ↦
              rw (last, more)
                (fetch_rest fuel (suc end) (n - 1) proxied (ground arith) (omega arith) small
                    (omega arith)
                  ∙ ap found (sym (kept_last end n (ground arith) (ground arith))))
        ]
        | inr far ↦
            let lt' : suc end + max_response < n = ground arith in
            let on : leb (end + max_response) (suc end) ≡ false = ground arith in
            rw (far, on)
              (fetch_rest fuel (suc end) (end + max_response) proxied (omega arith) (omega arith)
                  small (omega arith)
                ∙ ap found (sym (kept_next end n lt')))
      ]
    where
      n : ℕ
      n = length body

      found : ℕ → Call (List ℕ)
      found k = done (some (ok (take k body)))

  fetch_whole :
      (fuel max : ℕ)
      → IsProxied s url endpoint params body net
      → 0 < max
      → max < 2 ^ 63
      → length body ≤ max
      → fetch s net url endpoint params (suc fuel) (0, max) [] ≡ done (some (ok body))
  unfolding fetch forward rpc_transform partial_content
  fetch_whole fuel max proxied pos small le =
      let fits : leb (length body) (max - 0) ≡ true = ground arith in
      rw
        (answered_first (0, max) (whole body) proxied
          (rw (try_match_range_header-range_value 0 max pos (omega arith), fits) refl))
        refl

  -- An answer of less than 2^63 bytes, asked for through the proxy with enough turns, is what the
  -- loop ends with: all of it when it is not one byte longer than the first range and some further
  -- ranges of the largest size.
  pub fetch-forward :
      (max fuel : ℕ)
      → IsProxied s url endpoint params body net
      → 0 < max
      → max < 2 ^ 63
      → length body < 2 ^ 63
      → length body < fuel
      → (length body - suc max) % max_response ≢ 1
      → fetch s net url endpoint params fuel (0, max) [] ≡ done (some (ok body))
  fetch-forward max zero proxied pos small fits enough good = absurd (omega arith)
  fetch-forward max (suc fuel) proxied pos small fits enough good =
      elim (Bool-cases (leb (length body) max)) [
        | inl le ↦ fetch_whole fuel max proxied pos small (ground arith)
        | inr gt ↦
            fetch_rest (suc fuel) 0 max proxied pos (ground arith) fits (omega arith)
            ∙ ap (λ (l : List ℕ). done (some (ok l)))
                (take_all (kept max (length body)) body (ground arith))
      ]

  -- Of an answer that is one byte longer than that, the loop ends without the last byte.
  pub fetch_short :
      (max fuel : ℕ)
      → IsProxied s url endpoint params body net
      → 0 < max
      → max < 2 ^ 63
      → length body < 2 ^ 63
      → length body < fuel
      → (length body - suc max) % max_response ≡ 1
      → fetch s net url endpoint params fuel (0, max) []
        ≡ done (some (ok (take (length body - 1) body)))
  fetch_short max fuel proxied pos small fits enough bad =
      fetch_rest fuel 0 max proxied pos (omega arith) fits (omega arith)
      ∙ ap (λ (k : ℕ). done (some (ok (take k body)))) (ground arith)
