-- ===== src/Wallet/Signer/Der.antt =====
-- The DER form of a signature, read back by the rules of DER for a sequence of two integers.
use ord_indexer.Base.{
  ℕ, zero, suc, ◌+◌, ◌*◌, ◌≤◌, ◌<◌, ◌%◌, ◌≡◌, refl, ap, ◌∙◌, Bool, true, false, not, ltb, done,
  ◌&&◌, Option, none, some, List, [], ◌∷◌, ◌++◌, length, take, drop, get_elem?, get_elem?_total,
  length-append, ◌==◌, leb, if◌then◌else◌, Returns, arith, Bool-cases, inl, inr,
}
use ord_indexer.Wallet.Signer.{der_integer, sec1_to_der}

-- The number that bytes stand for, the highest byte first.
unfoldable pub number_of : ℕ → List ℕ → ℕ
number_of n [] = n
number_of n (b ∷ l) = number_of (n * 256 + b) l

-- An integer of DER is not negative if its first byte has no high bit.
unfoldable pub IsPositive : List ℕ → Type 0
IsPositive [] = ⊥
IsPositive (b ∷ l) = b < 128

-- A leading zero byte that the value does not need: the next byte has no high bit.
abbrev pub is_padded : List ℕ → Bool
is_padded [] = false
is_padded (b ∷ []) = false
is_padded (b ∷ c ∷ l) = b == 0 && ltb c 128

-- A leading byte of ones that the value does not need: the next byte has a high bit.
abbrev is_extended : List ℕ → Bool
is_extended [] = false
is_extended (b ∷ []) = false
is_extended (b ∷ c ∷ l) = b == 255 && leb 128 c

-- An integer of DER has at least one byte, and no byte in front that the value does not need.
abbrev is_shortest : List ℕ → Bool
is_shortest [] = false
is_shortest (b ∷ l) = not (is_padded (b ∷ l)) && not (is_extended (b ∷ l))

-- The integer at the front, with what follows it.
abbrev read_integer : List ℕ → Option (List ℕ × List ℕ)
read_integer [] = none
read_integer (t ∷ []) = none
read_integer (t ∷ k ∷ rest) =
    if t == 0x02 && leb k (length rest) && is_shortest (take k rest)
    then some (take k rest, drop k rest)
    else none

abbrev read_second : List ℕ → List ℕ × List ℕ → Option (List ℕ × List ℕ)
read_second r (s, end) = if length end == 0 then some (r, s) else none

abbrev after : {A B : Type 0} → Option A → (A → Option B) → Option B
after none f = none
after (some a) f = f a

abbrev read_both : List ℕ → Option (List ℕ × List ℕ)
read_both body = after (read_integer body) (λ (r, rest). after (read_integer rest) (read_second r))

-- The two integers of a sequence, whose length is the one that stands before it.
unfoldable pub read_sequence : List ℕ → Option (List ℕ × List ℕ)
read_sequence [] = none
read_sequence (t ∷ []) = none
read_sequence (t ∷ n ∷ body) = if t == 0x30 && n == length body then read_both body else none

take-append : (xs ys : List ℕ) → take (length xs) (xs ++ ys) ≡ xs
take-append [] ys = refl
take-append (x ∷ xs) ys = ap (λ l. x ∷ l) (take-append xs ys)

drop-append : (xs ys : List ℕ) → drop (length xs) (xs ++ ys) ≡ ys
drop-append [] ys = refl
drop-append (x ∷ xs) ys = drop-append xs ys

get_elem?-drop : (n : ℕ) (l : List ℕ) → get_elem? (drop n l) 0 ≡ get_elem? l n
get_elem?-drop zero l = refl
get_elem?-drop (suc n) [] = refl
get_elem?-drop (suc n) (x ∷ l) = get_elem?-drop n l

length-take : (n : ℕ) (l : List ℕ) → n ≤ length l → length (take n l) ≡ n
length-take zero l h = refl
length-take (suc n) [] h = absurd (omega arith)
length-take (suc n) (x ∷ l) h = ap suc (length-take n l (omega arith))

length-drop : (n : ℕ) (l : List ℕ) → n ≤ length l → length (drop n l) + n ≡ length l
length-drop zero l h = omega arith
length-drop (suc n) [] h = absurd (omega arith)
length-drop (suc n) (x ∷ l) h = omega (arith, length-drop n l (omega arith))

der_integer-number_of : (b : ℕ) (l : List ℕ) → number_of 0 (der_integer b l) ≡ number_of 0 l
unfolding number_of
der_integer-number_of b l = elim (Bool-cases (leb 128 b)) [
  | inl high ↦ rw high refl
  | inr low ↦ rw low refl
]

der_integer-IsPositive :
    (b : ℕ) (l : List ℕ) → get_elem? l 0 ≡ some b → IsPositive (der_integer b l)
unfolding IsPositive
der_integer-IsPositive b [] h = cc
der_integer-IsPositive b (x ∷ l) h = elim (Bool-cases (leb 128 b)) [
  | inl high ↦ rw high (omega arith)
  | inr low ↦ let same : x ≡ b = cc in rw low (ground (arith, same))
]

der_integer-is_shortest :
    (b : ℕ) (l : List ℕ)
    → get_elem? l 0 ≡ some b
    → is_padded l ≡ false
    → is_shortest (der_integer b l) ≡ true
der_integer-is_shortest b [] h plain = cc
der_integer-is_shortest b (x ∷ []) h plain =
    let same : x ≡ b = cc in
    elim (Bool-cases (leb 128 b)) [
      | inl high ↦ rw (same, high) (ground arith)
      | inr low ↦ rw (same, low) refl
    ]
der_integer-is_shortest b (x ∷ y ∷ l) h plain =
    let same : x ≡ b = cc in
    elim (Bool-cases (leb 128 b)) [
      | inl high ↦ rw (same, high) (ground arith)
      | inr low ↦
          let small : (b == 255) ≡ false = ground arith in
          let plain' : (b == 0 && ltb y 128) ≡ false = rw (← same) plain in
          rw (same, low, plain', small) refl
    ]

der_integer-length :
    (b : ℕ) (l : List ℕ)
    → (length l ≤ length (der_integer b l)) × (length (der_integer b l) ≤ length l + 1)
der_integer-length b l = (ground arith, ground arith)

read_integer-append :
    (x rest : List ℕ)
    → length x < 256
    → read_integer (0x02 ∷ length x % 256 ∷ (x ++ rest))
      ≡ (if is_shortest x then some (x, rest) else none)
read_integer-append x rest h =
    let short : length x % 256 ≡ length x = omega arith in
    let fits : leb (length x) (length (x ++ rest)) ≡ true = ground (arith, length-append x rest) in
    rw (short, fits, take-append x rest, drop-append x rest) refl

take-whole : (xs : List ℕ) → take (length xs) xs ≡ xs
take-whole [] = refl
take-whole (x ∷ xs) = ap (λ l. x ∷ l) (take-whole xs)

drop-whole : (xs : List ℕ) → drop (length xs) xs ≡ []
drop-whole [] = refl
drop-whole (x ∷ xs) = drop-whole xs

read_integer-whole :
    (x : List ℕ)
    → length x < 256
    → read_integer (0x02 ∷ length x % 256 ∷ x) ≡ (if is_shortest x then some (x, []) else none)
read_integer-whole x h =
    let short : length x % 256 ≡ length x = omega arith in
    let fits : leb (length x) (length x) ≡ true = ground arith in
    rw (short, fits, take-whole x, drop-whole x) refl

read_sequence-header :
    (n : ℕ) (body : List ℕ) → n ≡ length body → read_sequence (0x30 ∷ n ∷ body) ≡ read_both body
unfolding read_sequence
read_sequence-header n body e = let same : (n == length body) ≡ true = ground arith in rw same refl

-- Two short integers after the header of a sequence are read back.
read_sequence-append :
    (r s : List ℕ)
    → length r + length s < 200
    → is_shortest r ≡ true
    → is_shortest s ≡ true
    → read_sequence (
        0x30
        ∷ (4 + length r + length s) % 256
        ∷ 0x02
        ∷ length r % 256
        ∷ (r ++ (0x02 ∷ length s % 256 ∷ s)))
      ≡ some (r, s)
read_sequence-append r s h shortest_r shortest_s =
    let second = 0x02 ∷ length s % 256 ∷ s in
    let body = 0x02 ∷ length r % 256 ∷ (r ++ second) in
    read_sequence-header ((4 + length r + length s) % 256) body
      (omega (arith, length-append r second))
    ∙ rw
        (
          read_integer-append r second (omega arith),
          shortest_r,
          read_integer-whole s (omega arith),
          shortest_s,
        )
        refl

-- A first integer with a byte too many is refused.
read_sequence-padded :
    (r s : List ℕ)
    → length r + length s < 200
    → is_shortest r ≡ false
    → read_sequence (
        0x30
        ∷ (4 + length r + length s) % 256
        ∷ 0x02
        ∷ length r % 256
        ∷ (r ++ (0x02 ∷ length s % 256 ∷ s)))
      ≡ none
read_sequence-padded r s h long =
    let second = 0x02 ∷ length s % 256 ∷ s in
    let body = 0x02 ∷ length r % 256 ∷ (r ++ second) in
    read_sequence-header ((4 + length r + length s) % 256) body
      (omega (arith, length-append r second))
    ∙ rw (read_integer-append r second (omega arith), long) refl

first_of : (l : List ℕ) (b : ℕ) → get_elem? l 0 ≡ some b → get_elem? (take 32 l) 0 ≡ some b
first_of [] b h = h
first_of (x ∷ l) b h = h

-- The DER form of a signature of 64 bytes, neither half of which begins with a zero byte before one
-- without a high bit, is read back by the rules of DER as two integers that are not negative and
-- stand for the same numbers as the two halves of the signature.
pub read_sequence-sec1_to_der :
    (sig : List ℕ)
    → length sig ≡ 64
    → is_padded (take 32 sig) ≡ false
    → is_padded (drop 32 sig) ≡ false
    → Returns (sec1_to_der sig) (λ der.
      (r s : List ℕ) × (read_sequence der ≡ some (r, s))
      × IsPositive r
      × IsPositive s
      × (number_of 0 r ≡ number_of 0 (take 32 sig))
      × (number_of 0 s ≡ number_of 0 (drop 32 sig)))
unfolding sec1_to_der
read_sequence-sec1_to_der sig long plain_left plain_right =
    let (first, at0) = get_elem?_total sig 0 (omega arith) in
    let (second, at32) = get_elem?_total sig 32 (omega arith) in
    let left = take 32 sig in
    let right = drop 32 sig in
    let left_long = length-take 32 sig (omega arith) in
    let right_long = length-drop 32 sig (omega arith) in
    let r = der_integer first left in
    let s = der_integer second right in
    let r_long = der_integer-length first left in
    let s_long = der_integer-length second right in
    rw (at0, at32)
      (
        r,
        s,
        read_sequence-append r s (omega arith)
            (der_integer-is_shortest first left (first_of sig first at0) plain_left)
            (der_integer-is_shortest second right (get_elem?-drop 32 sig ∙ at32) plain_right),
        der_integer-IsPositive first left (first_of sig first at0),
        der_integer-IsPositive second right (get_elem?-drop 32 sig ∙ at32),
        der_integer-number_of first left,
        der_integer-number_of second right,
      )

der_integer-padded :
    (b : ℕ) (l : List ℕ)
    → get_elem? l 0 ≡ some b
    → is_padded l ≡ true
    → is_shortest (der_integer b l) ≡ false
der_integer-padded b [] h padded = cc
der_integer-padded b (x ∷ []) h padded = cc
der_integer-padded b (x ∷ y ∷ l) h padded =
    let same : x ≡ b = cc in let low : leb 128 b ≡ false = ground arith in rw (low, padded) refl

-- The DER form of a signature of 64 bytes, whose first half begins with a zero byte before one without
-- a high bit, is refused by the rules of DER.
pub read_sequence-sec1_to_der_padded :
    (sig : List ℕ)
    → length sig ≡ 64
    → is_padded (take 32 sig) ≡ true
    → Returns (sec1_to_der sig) (λ der. read_sequence der ≡ none)
unfolding sec1_to_der
read_sequence-sec1_to_der_padded sig long padded =
    let (first, at0) = get_elem?_total sig 0 (omega arith) in
    let (second, at32) = get_elem?_total sig 32 (omega arith) in
    let left_long = length-take 32 sig (omega arith) in
    let right_long = length-drop 32 sig (omega arith) in
    let r_long = der_integer-length first (take 32 sig) in
    let s_long = der_integer-length second (drop 32 sig) in
    rw (at0, at32)
      (read_sequence-padded (der_integer first (take 32 sig)) (der_integer second (drop 32 sig))
        (omega arith) (der_integer-padded first (take 32 sig) (first_of sig first at0) padded))

-- The DER form is at most 72 bytes long.
pub sec1_to_der-short :
    (sig : List ℕ)
    → length sig ≡ 64
    → (der : List ℕ) × (sec1_to_der sig ≡ done der) × (length der ≤ 72)
unfolding sec1_to_der
sec1_to_der-short sig long =
    let (first, at0) = get_elem?_total sig 0 (omega arith) in
    let (second, at32) = get_elem?_total sig 32 (omega arith) in
    let left_long = length-take 32 sig (omega arith) in
    let right_long = length-drop 32 sig (omega arith) in
    let r = der_integer first (take 32 sig) in
    let s = der_integer second (drop 32 sig) in
    let r_long = der_integer-length first (take 32 sig) in
    let s_long = der_integer-length second (drop 32 sig) in
    rw (at0, at32) (_, refl, omega (arith, length-append r (0x02 ∷ length s % 256 ∷ s)))
