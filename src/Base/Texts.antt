-- ===== src/Base/Texts.antt =====
-- Texts as the lists of their bytes: literals, letter case, splitting, and unsigned numbers printed
-- (`format!("{}")`) and read (`str::parse`).
pub mod Numbers
use Prim.Native.Nat.{ℕ, zero, suc, ◌+◌, ◌-◌, ◌*◌, ◌/◌, ◌%◌, ◌^◌, ◌<◌, ◌≤◌}
use Prim.Native.Char.{code}
use Prim.Native.String.{String}
use mathlib.Core.Path.{◌≡◌, refl, ap, ◌∙◌}
use mathlib.Core.Bool.{Bool, true, false, ◌&&◌}
use mathlib.Core.Option.{Option, none, some}
use mathlib.Core.List.{List, [], ◌∷◌, ◌++◌, map}
use native.Mathlib.Omega.{arith}
use ord_indexer.Base.Lists.{All}
use mathlib.Core.Logic.{◌≢◌}
use ord_indexer.Base.Tests.{ltb, leb, ◌==◌, if◌then◌else◌}

-- The bytes of an ASCII literal.
abbrev pub codes : String → List ℕ
codes String.[] = []
codes (String.◌∷◌ c s) = code c ∷ codes s

-- `str::to_ascii_lowercase`
abbrev pub to_ascii_lowercase : List ℕ → List ℕ
to_ascii_lowercase = map (λ b. if leb 65 b && leb b 90 then b + 32 else b)

unfoldable pub same_bytes : List ℕ → List ℕ → Bool
same_bytes [] [] = true
same_bytes [] (b ∷ bs) = false
same_bytes (a ∷ cs) [] = false
same_bytes (a ∷ cs) (b ∷ bs) = let rest = same_bytes cs bs in if a == b then rest else false

-- `str::split` at one character: always at least one part.
abbrev put_head : ℕ → List (List ℕ) → List (List ℕ)
put_head b [] = (b ∷ []) ∷ []
put_head b (part ∷ parts) = (b ∷ part) ∷ parts

unfoldable pub split_at : ℕ → List ℕ → List (List ℕ)
split_at sep [] = [] ∷ []
split_at sep (b ∷ bs) =
    let rest = split_at sep bs in if b == sep then [] ∷ rest else put_head b rest

-- The bytes after a prefix, if it is one.
unfoldable pub strip_prefix : List ℕ → List ℕ → Option (List ℕ)
strip_prefix [] bs = some bs
strip_prefix (p ∷ ps) [] = none
strip_prefix (p ∷ ps) (b ∷ bs) = let rest = strip_prefix ps bs in if p == b then rest else none

-- `str::trim_start_matches`, which takes the prefix away as often as it stands there. Each time the
-- text gets shorter, so its length bounds the number of times.
abbrev again : (List ℕ → List ℕ) → List ℕ → Option (List ℕ) → List ℕ
again go bs none = bs
again go bs (some rest) = go rest

unfoldable pub trim_times : ℕ → List ℕ → List ℕ → List ℕ
unfolding strip_prefix
trim_times zero p bs = bs
trim_times (suc n) p bs = again (trim_times n p) bs (strip_prefix p bs)

abbrev pub byte_length : List ℕ → ℕ
byte_length [] = 0
byte_length (b ∷ bs) = suc (byte_length bs)

unfoldable pub trim_start_matches : List ℕ → List ℕ → List ℕ
unfolding trim_times
trim_start_matches p bs = trim_times (byte_length bs) p bs

abbrev is_digit : ℕ → Bool
is_digit b = leb 48 b && leb b 57

-- A digit that does not fit is an error, like any other byte.
abbrev pub next_digit : ℕ → ℕ → ℕ → Option ℕ
next_digit size n b =
    if is_digit b && ltb (n * 10 + (b - 48)) size then some (n * 10 + (b - 48)) else none

abbrev pub and_then : Option ℕ → (ℕ → Option ℕ) → Option ℕ
and_then none f = none
and_then (some n) f = f n

unfoldable pub parse_digits : ℕ → List ℕ → ℕ → Option ℕ
parse_digits size [] n = some n
parse_digits size (b ∷ bs) n = and_then (next_digit size n b) (parse_digits size bs)

-- A number below `size`; one sign `+` may stand in front.
unfoldable pub parse_number : ℕ → List ℕ → Option ℕ
unfolding parse_digits
parse_number size [] = none
parse_number size (b ∷ []) = if b == 43 then none else parse_digits size (b ∷ []) 0
parse_number size (b ∷ c ∷ bs) =
    if b == 43 then parse_digits size (c ∷ bs) 0 else parse_digits size (b ∷ c ∷ bs) 0

-- The decimal digits of a number with at most so many.
unfoldable pub digits : ℕ → ℕ → List ℕ
digits zero n = []
digits (suc k) n =
    let front = digits k (n / 10) in
    if ltb n 10 then (48 + n) ∷ [] else front ++ ((48 + n % 10) ∷ [])

-- Twenty digits are enough for a `u64`.
unfoldable pub show_number : ℕ → List ℕ
unfolding digits
show_number = digits 20
