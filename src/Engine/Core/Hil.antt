-- ===== src/Engine/Core/Hil.antt =====
-- Where the HIL test signal goes (crates/iem-engine/src/core.rs, `hil_mask`).
use iemmixer.Base.{ℕ, ◌≡◌, ◌⊎◌, Bool, true, none, some, List, All, get_elem?, member}
use iemmixer.Engine.Topology.{Topology, mix_on_tx}

module _ (topo : Topology) (hil : List ℕ) where
  -- Output `i` of the signal is a listed card channel, one of the spare outputs, on no mix's TX.
  pub record Sent (chs : List ℕ) (i : ℕ) : Type 0 where
    pub ch : ℕ
    pub spare : get_elem? hil i ≡ some ch
    pub listed : member ch chs ≡ true
    pub no_mix : mix_on_tx topo ch ≡ none

  -- A listed channel has its bit.
  pub record Heard (mask : List Bool) (ch : ℕ) : Type 0 where
    pub slot : ℕ
    pub spare : get_elem? hil slot ≡ some ch
    pub lit : get_elem? mask slot ≡ some true

  record Masked (chs : List ℕ) (mask mask' : List Bool) : Type 0 where
    sent : (i : ℕ) → get_elem? mask' i ≡ some true → (get_elem? mask i ≡ some true) ⊎ Sent chs i
    kept : (i : ℕ) → get_elem? mask i ≡ some true → get_elem? mask' i ≡ some true
    heard : All (Heard mask') chs
