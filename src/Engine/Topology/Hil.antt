-- ===== src/Engine/Topology/Hil.antt =====
-- Which card outputs the HIL signal may use (crates/iem-engine/src/topology.rs, `hil_outputs`).
use iemmixer.Base.{ℕ, ◌≡◌, ◌≢◌, false, none, List, [], ◌∷◌, ◌++◌, All, member}
use iemmixer.Engine.Topology.{Topology, mix_on_tx}

-- Every channel once.
pub Distinct : List ℕ → Type 0
Distinct [] = Unit
Distinct (x ∷ xs) = (member x xs ≡ false) × Distinct xs

-- A card channel that no mix is sent on and no input is read from.
pub record Spare (t : Topology) (ch : ℕ) : Type 0 where
  pub channel : ch ≢ 0
  pub no_mix : mix_on_tx t ch ≡ none
  pub no_input : member ch t.rx ≡ false

abbrev Unlisted : List ℕ → List ℕ → Type 0
Unlisted acc chs = All (λ ch. member ch acc ≡ false) chs

-- What the loop has checked when it goes through.
record Checked (t : Topology) (acc chs outs : List ℕ) : Type 0 where
  listed : outs ≡ acc ++ chs
  spare : All (Spare t) chs
  distinct : Distinct chs
  unlisted : Unlisted acc chs
