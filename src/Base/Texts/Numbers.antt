-- ===== src/Base/Texts/Numbers.antt =====
-- A number that is printed is read back, also as a part of a longer text.
use Prim.Native.Nat.{ℕ, zero, suc, ◌+◌, ◌/◌, ◌%◌, ◌^◌, ◌<◌, ◌≤◌}
use mathlib.Core.Path.{◌≡◌, refl, ◌∙◌}
use mathlib.Core.Option.{Option, none, some}
use mathlib.Core.List.{List, [], ◌∷◌, ◌++◌}
use native.Mathlib.Omega.{arith}
use ord_indexer.Base.Lists.{All}
use mathlib.Core.Logic.{◌≢◌}
use ord_indexer.Base.Texts.{
  split_at, strip_prefix, trim_times, trim_start_matches, byte_length, next_digit, and_then,
  parse_digits, parse_number, digits, show_number,
}

and_then_assoc :
    (o : Option ℕ) (f g h : ℕ → Option ℕ)
    → ((n : ℕ) → g n ≡ and_then (f n) h)
    → and_then o g ≡ and_then (and_then o f) h
and_then_assoc none f g h e = refl
and_then_assoc (some n) f g h e = e n

parse_digits-append :
    (size : ℕ) (xs ys : List ℕ) (n : ℕ)
    → parse_digits size (xs ++ ys) n ≡ and_then (parse_digits size xs n) (parse_digits size ys)
unfolding parse_digits
parse_digits-append size [] ys n = refl
parse_digits-append size (b ∷ xs) ys n =
    and_then_assoc (next_digit size n b) (parse_digits size xs) (parse_digits size (xs ++ ys))
      (parse_digits size ys) (parse_digits-append size xs ys)

next_digit-shown : (size m n : ℕ) → m ≡ n / 10 → n < size → next_digit size m (48 + n % 10) ≡ some n
next_digit-shown size m n e h = ground arith

parse_digits-digits :
    (size k n : ℕ) → n < size → n < 10 ^ suc k → parse_digits size (digits (suc k) n) 0 ≡ some n
unfolding digits parse_digits
parse_digits-digits size zero n h fits = ground (arith, next_digit-shown size 0 n)
parse_digits-digits size (suc k) n h fits = ground (
  arith,
  next_digit-shown size 0 n,
  next_digit-shown size (n / 10) n,
  parse_digits-append size (digits (suc k) (n / 10)) ((48 + n % 10) ∷ []) 0,
  parse_digits-digits size k (n / 10),
)

abbrev IsDigit : ℕ → Type 0
IsDigit b = (48 ≤ b) × (b < 58)

-- Digits, and at least one.
abbrev pub AreDigits : List ℕ → Type 0
AreDigits [] = ⊥
AreDigits (b ∷ []) = IsDigit b
AreDigits (b ∷ c ∷ bs) = IsDigit b × AreDigits (c ∷ bs)

AreDigits-snoc : (xs : List ℕ) (d : ℕ) → AreDigits xs → IsDigit d → AreDigits (xs ++ (d ∷ []))
AreDigits-snoc [] d h k = absurd h
AreDigits-snoc (b ∷ []) d h k = (h, k)
AreDigits-snoc (b ∷ c ∷ bs) d h k = (h.0, AreDigits-snoc (c ∷ bs) d h.1 k)

digits-AreDigits : (k n : ℕ) → n < 10 ^ suc k → AreDigits (digits (suc k) n)
unfolding digits
digits-AreDigits zero n h = ground arith
digits-AreDigits (suc k) n h =
    ground
      (arith, AreDigits-snoc (digits (suc k) (n / 10)) (48 + n % 10), digits-AreDigits k (n / 10))

parse_number-digits :
    (size : ℕ) (bs : List ℕ) → AreDigits bs → parse_number size bs ≡ parse_digits size bs 0
unfolding parse_number
parse_number-digits size [] h = absurd h
parse_number-digits size (b ∷ []) h = ground arith
parse_number-digits size (b ∷ c ∷ bs) h = ground (arith, h.0)

-- A number that is printed is read back.
pub parse_number-show_number : (n : ℕ) → n < 2 ^ 64 → parse_number (2 ^ 64) (show_number n) ≡ some n
unfolding show_number
parse_number-show_number n h =
    parse_number-digits (2 ^ 64) (digits 20 n) (digits-AreDigits 19 n (omega arith))
    ∙ parse_digits-digits (2 ^ 64) 19 n h (omega arith)

pub show_number-AreDigits : (n : ℕ) → n < 2 ^ 64 → AreDigits (show_number n)
unfolding show_number
show_number-AreDigits n h = digits-AreDigits 19 n (omega arith)

-- A separator below the digits ends the part.
pub split_at-digits :
    (sep : ℕ) (xs ys : List ℕ)
    → sep < 48
    → AreDigits xs
    → split_at sep (xs ++ (sep ∷ ys)) ≡ xs ∷ split_at sep ys
unfolding split_at
split_at-digits sep [] ys lt h = absurd h
split_at-digits sep (b ∷ []) ys lt h = ground arith
split_at-digits sep (b ∷ c ∷ bs) ys lt h =
    ground (arith, h.0, split_at-digits sep (c ∷ bs) ys lt h.1)

pub split_at-last : (sep : ℕ) (xs : List ℕ) → sep < 48 → AreDigits xs → split_at sep xs ≡ xs ∷ []
unfolding split_at
split_at-last sep [] lt h = absurd h
split_at-last sep (b ∷ []) lt h = ground arith
split_at-last sep (b ∷ c ∷ bs) lt h = ground (arith, h.0, split_at-last sep (c ∷ bs) lt h.1)

strip_prefix-append : (p bs : List ℕ) → strip_prefix p (p ++ bs) ≡ some bs
unfolding strip_prefix
strip_prefix-append [] bs = refl
strip_prefix-append (c ∷ p) bs = ground (arith, strip_prefix-append p bs)

trim_times-none : (n : ℕ) (p bs : List ℕ) → strip_prefix p bs ≡ none → trim_times n p bs ≡ bs
unfolding trim_times
trim_times-none zero p bs h = refl
trim_times-none (suc n) p bs h = rw h refl

strip_prefix-digit :
    (c : ℕ) (p : List ℕ) (b : ℕ) (zs : List ℕ)
    → 57 < c
    → IsDigit b
    → strip_prefix (c ∷ p) (b ∷ zs) ≡ none
unfolding strip_prefix
strip_prefix-digit c p b zs lt digit = ground arith

AreDigits-append :
    (xs ys : List ℕ) → AreDigits xs → (b : ℕ) × (zs : List ℕ) × (xs ++ ys ≡ b ∷ zs) × IsDigit b
AreDigits-append [] ys h = absurd h
AreDigits-append (b ∷ []) ys h = (b, ys, refl, h)
AreDigits-append (b ∷ c ∷ bs) ys h = (b, (c ∷ bs) ++ ys, refl, h.0)

-- A prefix that starts with a letter, in front of a number, is taken away once.
pub trim_start_matches-digits :
    (c : ℕ) (p xs ys : List ℕ)
    → 57 < c
    → AreDigits xs
    → trim_start_matches (c ∷ p) ((c ∷ p) ++ (xs ++ ys)) ≡ xs ++ ys
unfolding trim_start_matches trim_times
trim_start_matches-digits c p xs ys lt h =
    let (b, zs, e, digit) = AreDigits-append xs ys h in
    let stop : strip_prefix (c ∷ p) (xs ++ ys) ≡ none =
      rw e (strip_prefix-digit c p b zs lt digit) in
    rw (strip_prefix-append (c ∷ p) (xs ++ ys))
      (trim_times-none (byte_length (p ++ (xs ++ ys))) (c ∷ p) (xs ++ ys) stop)

-- A text without the separator is one part.
pub split_at-free :
    (sep : ℕ) (xs ys : List ℕ)
    → All (λ b. b ≢ sep) xs
    → split_at sep (xs ++ (sep ∷ ys)) ≡ xs ∷ split_at sep ys
unfolding split_at
split_at-free sep [] ys h = ground arith
split_at-free sep (b ∷ bs) ys h = ground (arith, h.0, split_at-free sep bs ys h.1)

pub AreDigits-free : (sep : ℕ) (xs : List ℕ) → sep < 48 → AreDigits xs → All (λ b. b ≢ sep) xs
AreDigits-free sep [] lt h = absurd h
AreDigits-free sep (b ∷ []) lt h = (ground arith, tt)
AreDigits-free sep (b ∷ c ∷ bs) lt h = (ground (arith, h.0), AreDigits-free sep (c ∷ bs) lt h.1)

pub All-append : (P : ℕ → Type 0) (xs ys : List ℕ) → All P xs → All P ys → All P (xs ++ ys)
All-append P [] ys h k = k
All-append P (x ∷ xs) ys h k = (h.0, All-append P xs ys h.1 k)
