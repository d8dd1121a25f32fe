-- ===== src/Wallet/Signer/Tests.antt =====
-- A signature in its DER form, read back.
use ord_indexer.Base.{
  ℕ, ◌≡◌, refl, none, some, List, ◌∷◌, ◌++◌, replicate, take, drop, done, Returns,
}
use ord_indexer.Wallet.Signer.{sec1_to_der}
use ord_indexer.Wallet.Signer.Der.{
  number_of, IsPositive, read_sequence, read_sequence-sec1_to_der, read_sequence-sec1_to_der_padded,
}

-- The first half has a high bit, the second has none.
abbrev signature : List ℕ
signature = replicate 32 200 ++ replicate 32 5

sec1_to_der_run :
    sec1_to_der signature
    ≡ done (0x30 ∷ 69 ∷ 0x02 ∷ 33 ∷ 0 ∷ (replicate 32 200 ++ (0x02 ∷ 32 ∷ replicate 32 5)))
unfolding sec1_to_der
sec1_to_der_run = refl

read_sequence-sec1_to_der_example : Returns (sec1_to_der signature) (λ der.
    (r s : List ℕ) × (read_sequence der ≡ some (r, s))
    × IsPositive r
    × IsPositive s
    × (number_of 0 r ≡ number_of 0 (take 32 signature))
    × (number_of 0 s ≡ number_of 0 (drop 32 signature)))
read_sequence-sec1_to_der_example = read_sequence-sec1_to_der signature refl refl refl

-- A first half that begins with a zero byte.
abbrev short_signature : List ℕ
short_signature = 0 ∷ (replicate 31 7 ++ replicate 32 5)

read_sequence-sec1_to_der_padded_example :
    Returns (sec1_to_der short_signature) (λ der. read_sequence der ≡ none)
read_sequence-sec1_to_der_padded_example =
    read_sequence-sec1_to_der_padded short_signature refl refl
