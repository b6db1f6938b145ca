-- ===== src/Suggestions.antt =====
-- The tables of suggested topics (web/src/configs/mqtt-suggestions, gathered by configs/tool.js).
-- A topic resolver takes the thing's id. The templates of payloads stand in PubTopics, whose
-- component fills them in.
mod Table
mod Sub
mod Pub
pub use Table.*
pub use Sub.*
pub use Pub.*
use tio.Common.{Bool, true, false, List, [], ◌∷◌, ◌++◌, String, ◌+++◌}

abbrev pub pub_topics_shadow : List Suggestion
pub_topics_shadow = pub_get_shadow ∷ pub_update_shadow ∷ []

abbrev pub pub_topics_thing : List Suggestion
pub_topics_thing =
    pub_report_property ∷ pub_set_will ∷ pub_custom_presence ∷ pub_request_ntp ∷ pub_response_ntp
    ∷ pub_ota_task ∷ pub_ota_task_result ∷ pub_custom_message ∷ pub_request_direct_method
    ∷ pub_response_direct_method ∷ []

abbrev pub suggested_pub_topics : List Suggestion
suggested_pub_topics = pub_topics_shadow ++ pub_topics_thing

abbrev pub suggested_sub_topics : List Group
suggested_sub_topics = common ∷ ntp ∷ invoke_direct_method ∷ get_shadow ∷ update_shadow ∷ []
