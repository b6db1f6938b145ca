-- ===== src/Suggestions/Pub.antt =====
-- The topics to publish (web/src/configs/mqtt-suggestions/pub-topics-*.js).
use tio.Common.{true, false, ◌+++◌}
use tio.Suggestions.Table.{Suggestion}

abbrev pub pub_get_shadow : Suggestion
pub_get_shadow = record {
  name = "Get Shadow";
  code = "$iothub/things/{thingId}/shadows/name/default/get";
  for_server = false;
  for_thing = true;
  suggested = false;
  topic_resolver = λ id. "$iothub/things/" +++ (id +++ "/shadows/name/default/get");
}

abbrev pub pub_update_shadow : Suggestion
pub_update_shadow = record {
  name = "Update Shadow";
  code = "$iothub/things/{thingId}/shadows/name/default/update";
  for_server = false;
  for_thing = true;
  suggested = false;
  topic_resolver = λ id. "$iothub/things/" +++ (id +++ "/shadows/name/default/update");
}

abbrev pub pub_report_property : Suggestion
pub_report_property = record {
  name = "Report Property";
  code = "$iothub/things/{thingId}/messages/property";
  for_server = false;
  for_thing = true;
  suggested = false;
  topic_resolver = λ id. "$iothub/things/" +++ (id +++ "/messages/property");
}

abbrev pub pub_set_will : Suggestion
pub_set_will = record {
  name = "Set Will";
  code = "$iothub/things/{thingId}/messages/will/#";
  for_server = false;
  for_thing = true;
  suggested = false;
  topic_resolver = λ id. "$iothub/things/" +++ (id +++ "/messages/will/#");
}

abbrev pub pub_custom_presence : Suggestion
pub_custom_presence = record {
  name = "Custom Message";
  code = "$iothub/user/things/{thingId}/presence";
  for_server = true;
  for_thing = false;
  suggested = false;
  topic_resolver = λ id. "$iothub/things/" +++ (id +++ "/presence");
}

abbrev pub pub_request_ntp : Suggestion
pub_request_ntp = record {
  name = "Request NTP";
  code = "$iothub/things/{thingId}/req";
  for_server = false;
  for_thing = true;
  suggested = false;
  topic_resolver = λ id. "$iothub/things/" +++ (id +++ "/req");
}

abbrev pub pub_response_ntp : Suggestion
pub_response_ntp = record {
  name = "Response NTP";
  code = "$iothub/things/{thingId}/resp";
  for_server = true;
  for_thing = false;
  suggested = false;
  topic_resolver = λ id. "$iothub/things/+/resp";
}

abbrev pub pub_ota_task : Suggestion
pub_ota_task = record {
  name = "OTA Task";
  code = "$iothub/things/{thingId}/ota/task";
  for_server = true;
  for_thing = false;
  suggested = false;
  topic_resolver = λ id. "$iothub/things/+/ota/task";
}

abbrev pub pub_ota_task_result : Suggestion
pub_ota_task_result = record {
  name = "OTA Task Result";
  code = "$iothub/things/{thingId}/ota/task/result";
  for_server = false;
  for_thing = true;
  suggested = false;
  topic_resolver = λ id. "$iothub/things/" +++ (id +++ "/ota/task");
}

abbrev pub pub_custom_message : Suggestion
pub_custom_message = record {
  name = "Custom Message";
  code = "$iothub/user/things/{thingId}/#";
  for_server = true;
  for_thing = true;
  suggested = false;
  topic_resolver = λ id. "$iothub/user/things/" +++ (id +++ "/#");
}

abbrev pub pub_request_direct_method : Suggestion
pub_request_direct_method = record {
  name = "Request Direct Method";
  code = "$iothub/things/{thingId}/methods/{name}/req";
  for_server = true;
  for_thing = false;
  suggested = false;
  topic_resolver = λ id. "$iothub/things/" +++ (id +++ "/methods/+/req");
}

abbrev pub pub_response_direct_method : Suggestion
pub_response_direct_method = record {
  name = "Response Direct Method";
  code = "$iothub/things/{thingId}/methods/{name}/resp";
  for_server = false;
  for_thing = true;
  suggested = false;
  topic_resolver = λ id. "$iothub/things/" +++ (id +++ "/methods/+/resp");
}
