-- ===== src/Suggestions/Table.antt =====
-- The rows of the tables of suggested topics (web/src/configs/mqtt-suggestions).
use tio.Common.{Bool, List, String}

pub record Suggestion : Type 0 where
  pub name : String
  pub code : String
  pub for_server : Bool
  pub for_thing : Bool
  pub suggested : Bool
  pub topic_resolver : String → String

pub record Group : Type 0 where
  pub group : String
  pub topics : List Suggestion
