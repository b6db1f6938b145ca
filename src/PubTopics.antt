-- ===== src/PubTopics.antt =====
-- What is proposed for publishing (web/src/components/mqtt/PublishTopicSuggestions.vue), with the
-- templates of payloads in web/src/configs/mqtt-suggestions/pub-topics-*.js. A template is the value
-- that is printed; the time is after the first two milliseconds.
pub mod Laws
mod Tests
use tio.Common.{
  ℕ, ◌-◌, Bool, true, false, List, [], ◌∷◌, filter, Option, none, some, String, ◌==◌, if◌then◌else◌,
}
use tio.Json.{Json, obj, field, end, str, num}
use tio.Json.Decimal.{decimal}
use tio.Config.{Config}
use tio.Suggestions.{
  Suggestion, pub_get_shadow, pub_update_shadow, pub_report_property, pub_set_will,
  pub_custom_presence, pub_request_ntp, pub_response_ntp, pub_ota_task, pub_ota_task_result,
  pub_custom_message, pub_request_direct_method, pub_response_direct_method,
}

-- A topic with its template, which the time and a token enter.
pub record PubTopic : Type 0 where
  pub suggestion : Suggestion
  pub payload_type : String
  pub payload_resolver : (now : ℕ) (client_token : String) → Json

abbrev empty : Json
empty = obj end

abbrev json_topic : Suggestion → (ℕ → String → Json) → PubTopic
json_topic suggestion payload_resolver = record {
  suggestion = suggestion;
  payload_type = "JSON";
  payload_resolver = payload_resolver;
}

abbrev ota_meta : Json
ota_meta = obj (
    field "version" (str "") (
      field "md5" (str "") (
        field "content-type" (str "application/octet-stream")
          (field "content-length" (num "0") end))))

abbrev get_shadow_payload : (now : ℕ) (client_token : String) → Json
get_shadow_payload now client_token = empty

abbrev update_shadow_payload : (now : ℕ) (client_token : String) → Json
update_shadow_payload now client_token = obj (
    field "state" (obj (field "reported" empty end))
      (field "clientToken" (str client_token) (field "version" (num "0") end)))

abbrev report_property_payload : (now : ℕ) (client_token : String) → Json
report_property_payload now client_token = empty

abbrev set_will_payload : (now : ℕ) (client_token : String) → Json
set_will_payload now client_token = empty

abbrev custom_presence_payload : (now : ℕ) (client_token : String) → Json
custom_presence_payload now client_token = obj (
    field "thingId" (str "") (
      field "timestamp" (num (decimal now)) (
        field "eventType" (str "connected")
          (field "disconnectReason" (str "") (field "remoteAddr" (str "<ip:port>") end)))))

abbrev request_ntp_payload : (now : ℕ) (client_token : String) → Json
request_ntp_payload now client_token = obj (field "clientSendTime" (num (decimal now)) end)

abbrev response_ntp_payload : (now : ℕ) (client_token : String) → Json
response_ntp_payload now client_token = obj (
    field "clientSendTime" (num (decimal (now - 2))) (
      field "serverRecvTime" (num (decimal (now - 1)))
        (field "serverSendTime" (num (decimal now)) end)))

abbrev ota_task_payload : (now : ℕ) (client_token : String) → Json
ota_task_payload now client_token = obj (
    field "clientToken" (num (decimal now)) (
      field "taskId" (str "")
        (field "type" (str "app") (field "meta" ota_meta (field "fileUrl" (str "http://") end)))))

abbrev ota_task_result_payload : (now : ℕ) (client_token : String) → Json
ota_task_result_payload now client_token = obj (
    field "clientToken" (str "") (
      field "taskId" (str "") (
        field "status" (str "ongoing")
          (field "progress" (num "0") (field "timestamp" (num (decimal now)) end)))))

abbrev custom_message_payload : (now : ℕ) (client_token : String) → Json
custom_message_payload now client_token = empty

abbrev request_direct_method_payload : (now : ℕ) (client_token : String) → Json
request_direct_method_payload now client_token =
    obj (field "clientToken" (str client_token) (field "data" empty end))

abbrev response_direct_method_payload : (now : ℕ) (client_token : String) → Json
response_direct_method_payload now client_token = obj (
    field "clientToken" (str "")
      (field "code" (num "200") (field "messge" (str "OK") (field "data" empty end))))

abbrev pub pub_topics : List PubTopic
pub_topics =
    json_topic pub_get_shadow get_shadow_payload
    ∷ json_topic pub_update_shadow update_shadow_payload
    ∷ json_topic pub_report_property report_property_payload
    ∷ json_topic pub_set_will set_will_payload
    ∷ json_topic pub_custom_presence custom_presence_payload
    ∷ json_topic pub_request_ntp request_ntp_payload
    ∷ json_topic pub_response_ntp response_ntp_payload
    ∷ json_topic pub_ota_task ota_task_payload
    ∷ json_topic pub_ota_task_result ota_task_result_payload
    ∷ json_topic pub_custom_message custom_message_payload
    ∷ json_topic pub_request_direct_method request_direct_method_payload
    ∷ json_topic pub_response_direct_method response_direct_method_payload
    ∷ []

-- `thingPubTopics` and `serverPubTopics` of web/src/utils/subs.js, with the templates.
abbrev pub thing_pub_topics : List PubTopic
thing_pub_topics = filter (λ t. t.suggestion.for_thing) pub_topics

abbrev pub server_pub_topics : List PubTopic
server_pub_topics = filter (λ t. t.suggestion.for_server) pub_topics

abbrev pub is_thing : Option Config → Bool
is_thing none = false
is_thing (some config) = config.userrole == "thing"

abbrev pub suggestions : Option Config → List PubTopic
suggestions conn_config = if is_thing conn_config then thing_pub_topics else server_pub_topics

-- What is emitted for a topic.
pub record Selected : Type 0 where
  pub topic : String
  pub paytype : String
  pub payload : Json

abbrev thing_id_of : Option Config → String
thing_id_of none = "+"
thing_id_of (some config) = if config.userrole == "thing" then config.username else "+"

abbrev pub handle_select : (now : ℕ) (client_token : String) → Option Config → PubTopic → Selected
handle_select now client_token conn_config t = record {
  topic = t.suggestion.topic_resolver (thing_id_of conn_config);
  paytype = t.payload_type;
  payload = t.payload_resolver now client_token;
}
