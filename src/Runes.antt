-- ===== src/Runes.antt =====
-- The data of the crates `ordinals` and `rune_indexer_interface`, and what the indexer asks of
-- `ordinals`: that crate's code is not part of the repository, so its functions are a parameter.
use ord_indexer.Base.{ℕ, ◌≤◌, ◌<◌, Bool, Option, none, some, List, ℕ_discrete, All}
use ord_indexer.Bitcoin.{Transaction, ScriptBuf}
use Prim.Native.String.{String}

pub record RuneId : Type 0 where
  pub block : ℕ
  pub tx : ℕ

unfoldable pub RuneId-discrete : Discrete RuneId
unfolding ℕ_discrete
RuneId-discrete = hlevel ℕ_discrete

-- `RuneId::default()`
abbrev pub default_id : RuneId
default_id = record { block = 0; tx = 0 }

pub record SpacedRune : Type 0 where
  pub rune : ℕ
  pub spacers : ℕ

pub record Terms : Type 0 where
  pub cap : Option ℕ
  pub height : Option ℕ × Option ℕ
  pub amount : Option ℕ
  pub offset : Option ℕ × Option ℕ

pub record Etching : Type 0 where
  pub divisibility : Option ℕ
  pub premine : Option ℕ
  pub rune : Option ℕ
  pub spacers : Option ℕ
  pub symbol : Option ℕ
  pub terms : Option Terms
  pub turbo : Bool

pub record Edict : Type 0 where
  pub id : RuneId
  pub amount : ℕ
  pub output : ℕ

pub record Runestone : Type 0 where
  pub edicts : List Edict
  pub etching : Option Etching
  pub mint : Option RuneId
  pub pointer : Option ℕ

pub record Cenotaph : Type 0 where
  pub etching : Option ℕ
  pub mint : Option RuneId

pub data Artifact : Type 0 where
  runestone : Runestone → Artifact
  cenotaph : Cenotaph → Artifact

pub record RuneBalance : Type 0 where
  pub id : RuneId
  pub balance : ℕ

pub data MintError : Type 0 where
  cap end start : ℕ → MintError
  unmintable : MintError

pub data RpcError : Type 0 where
  io decode endpoint : String → String → String → RpcError

pub data OrdError : Type 0 where
  params : String → OrdError
  overflow : OrdError
  block_verification : ℕ → OrdError
  index : MintError → OrdError
  rpc : RpcError → OrdError

-- `Result<T, OrdError>`
pub data Result {ℓ} (A : Type ℓ) : Type ℓ where
  ok : A → Result A
  err : OrdError → Result A

-- The functions of `ordinals` and `bitcoin` that the rune updater calls.
pub record Ordinals : Type 0 where
  -- `Runestone::decipher`
  pub decipher : Transaction → Option Artifact
  -- `Artifact::mint`
  pub artifact_mint : Artifact → Option RuneId
  -- `Script::is_op_return`
  pub is_op_return : ScriptBuf → Bool
  -- `Rune::minimum_at_height` on the main network
  pub minimum_at_height : ℕ → ℕ
  -- `Rune::is_reserved`
  pub is_reserved : ℕ → Bool
  -- `Rune::reserved`
  pub reserved : ℕ → ℕ → ℕ

abbrev pub IsWithin : ℕ → Option ℕ → Type 0
IsWithin n none = Unit
IsWithin n (some p) = p < n

-- What the parser promises of a runestone in a transaction with that many outputs: an edict names
-- an output or one past the last, and the pointer names an output. Others become cenotaphs.
abbrev pub IsParsed : ℕ → Option Artifact → Type 0
IsParsed n none = Unit
IsParsed n (some (Artifact.cenotaph c)) = Unit
IsParsed n (some (Artifact.runestone r)) =
    All (λ (e : Edict). e.output ≤ n) r.edicts × IsWithin n r.pointer
