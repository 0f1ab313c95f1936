-- ===== src/Engine/Site.antt =====
-- The engine's part of the site file and what is wrong with one
-- (crates/iem-engine/src/site.rs). The texts of the errors are left out.
use Prim.Native.String.{String}
use iemmixer.Base.{ℕ, Bool, List}

pub record SiteInput : Type 0 where
  pub id : String
  pub rx : List ℕ
  pub talkback : Bool

pub record SiteGroup : Type 0 where
  pub id : String
  pub inputs : List String

pub record SiteMix : Type 0 where
  pub id : String
  pub tx : List ℕ
  pub mixes : List String
  pub peers : List String

pub record Site : Type 0 where
  pub channels : ℕ
  pub engineer : String
  pub inputs : List SiteInput
  pub groups : List SiteGroup
  pub mixes : List SiteMix

-- `ChannelCount` without its text of what was expected.
pub data SiteError : Type 0 where
  toml : String → SiteError
  io : String → SiteError
  no_engine_table : SiteError
  bad_id : String → SiteError
  duplicate_id : String → SiteError
  channel_count : String → ℕ → SiteError
  channel_range : String → ℕ → SiteError
  channel_reused : ℕ → SiteError
  unknown_input : String → String → SiteError
  empty_group : String → SiteError
  second_group : String → SiteError
  heard_mix : String → String → SiteError
  peer : String → String → SiteError
  peers_on_non_set : String → SiteError
  hears_itself_back : String → String → SiteError
  second_talkback : SiteError
  engineer : String → SiteError
  hil_tx : String → SiteError
