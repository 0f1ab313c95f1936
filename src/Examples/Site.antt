-- ===== src/Examples/Site.antt =====
-- A site of two inputs, one group and two mixes, the engineer's mix hearing the other, and a core
-- on it.
use iemmixer.Base.{true, false, none, some, [], ◌∷◌}
use iemmixer.Proto.State.{MixState}
use iemmixer.Engine.Topology.{Topology}
use iemmixer.Engine.Core.{Core, new, with_hil}
use iemmixer.Examples.Decimal.{Decimal, decimal_float}

abbrev pub site : Topology
site = record {
  inputs =
      record { id = "vox"; rx = (1, 1); stereo = false; talkback = false; group = some 0 }
      ∷ record { id = "keys"; rx = (2, 3); stereo = true; talkback = true; group = none }
      ∷ [];
  groups = record { id = "band"; inputs = 0 ∷ [] } ∷ [];
  mixes =
      record {
        id = "engineer";
        tx = (some 0, some 1);
        mono = false;
        mixes = 1 ∷ [];
        peers = [];
        shadow = false;
      }
      ∷ record {
        id = "drums";
        tx = (some 2, none);
        mono = true;
        mixes = [];
        peers = 0 ∷ [];
        shadow = false;
      }
      ∷ [];
  order = 1 ∷ 0 ∷ [];
  direct = 0 ∷ 1 ∷ [];
  rx = 1 ∷ 2 ∷ 3 ∷ [];
  tx = 9 ∷ 10 ∷ 11 ∷ [];
  engineer = 0;
  hash = "site";
}

abbrev pub empty_state : MixState Decimal
empty_state = record { inputs = []; mixes = [] }

abbrev pub core : Core Decimal
core =
    with_hil (new site empty_state 7 (record { test_signal = true; fault_injection = false }))
      (20 ∷ 21 ∷ [])
