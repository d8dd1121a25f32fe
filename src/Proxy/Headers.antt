-- ===== src/Proxy/Headers.antt =====
-- The range headers between the indexer (`partial_request` and the closure in `make_rpc` of
-- ord_canister/src/rpc.rs) and the proxy (`try_match_range_header` and `forward` of main.rs).
use ord_indexer.Base.Texts.{codes, split_at, show_number}
use ord_indexer.Base.Texts.Numbers.{
  split_at-digits, split_at-last, trim_start_matches-digits, parse_number-show_number,
  show_number-AreDigits, split_at-free, AreDigits-free, All-append,
}
use mathlib.Core.List.{append_assoc}
use ord_indexer.Base.{
  ℕ, ◌<◌, ◌≡◌, refl, some, List, [], ◌∷◌, ◌++◌, ltb, true, done, arith, ap, sym, ◌∙◌, ◌^◌,
}
use ord_indexer.Indexer.Rpc.{range_value, max_response, split, new_range}
use ord_indexer.Proxy.{try_match_range_header, content_range_value}

two_parts :
    (sep m n : ℕ)
    → sep < 48
    → m < 2 ^ 64
    → n < 2 ^ 64
    → split_at sep (show_number m ++ (sep ∷ show_number n)) ≡ show_number m ∷ show_number n ∷ []
two_parts sep m n lt hm hn =
    split_at-digits sep (show_number m) (show_number n) lt (show_number-AreDigits m hm)
    ∙ rw (split_at-last sep (show_number n) lt (show_number-AreDigits n hn)) refl

-- The proxy reads the range that the indexer writes.
pub try_match_range_header-range_value :
    (start end : ℕ)
    → start < end
    → end < 2 ^ 64
    → try_match_range_header (some (range_value (start, end))) ≡ done (some (start, end))
unfolding try_match_range_header range_value
try_match_range_header-range_value start end lt small =
    let m : start < 2 ^ 64 = omega arith in
    let up : ltb start end ≡ true = ground arith in
    rw
      (
        trim_start_matches-digits 98 (codes "ytes=") (show_number start)
            (codes "-" ++ show_number end) (omega arith) (show_number-AreDigits start m),
        two_parts 45 start end (omega arith) m small,
        parse_number-show_number start m,
        parse_number-show_number end small,
        up,
      )
      refl

-- The indexer reads the header that the proxy writes, and takes the range after it.
pub new_range-content_range_value :
    (start end total : ℕ)
    → start < 2 ^ 64
    → end < 2 ^ 64
    → total < 2 ^ 64
    → new_range (content_range_value start end total) ≡ done (some (split end total max_response))
unfolding new_range content_range_value
new_range-content_range_value start end total hs he ht =
    let S = show_number start in
    let E = show_number end in
    let T = show_number total in
    let ds = show_number-AreDigits start hs in
    let de = show_number-AreDigits end he in
    let parts : split_at 47 (S ++ (45 ∷ (E ++ (47 ∷ T)))) ≡ (S ++ (45 ∷ E)) ∷ T ∷ [] =
      ap (split_at 47) (sym (append_assoc S (45 ∷ E) (47 ∷ T)))
      ∙ split_at-free 47 (S ++ (45 ∷ E)) T (
          All-append _ S (45 ∷ E) (AreDigits-free 47 S (omega arith) ds)
            (ground arith, AreDigits-free 47 E (omega arith) de))
      ∙ ap (λ (l : List (List ℕ)). (S ++ (45 ∷ E)) ∷ l)
          (split_at-last 47 T (omega arith) (show_number-AreDigits total ht)) in
    rw
      (
        trim_start_matches-digits 98 (codes "ytes ") S (codes "-" ++ (E ++ (codes "/" ++ T)))
            (omega arith) ds,
        parts,
        parse_number-show_number total ht,
        two_parts 45 start end (omega arith) hs he,
        parse_number-show_number end he,
      )
      refl
