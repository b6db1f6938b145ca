-- ===== src/Suggestions/Sub.antt =====
-- The topics to subscribe (web/src/configs/mqtt-suggestions/sub-topics-*.js).
use tio.Common.{true, false, [], ◌∷◌, ◌+++◌}
use tio.Suggestions.Table.{Group}

abbrev pub common : Group
common = record {
  group = "Common";
  topics =
      record {
        name = "Property Reported";
        code = "$iothub/things/{thingId}/property";
        for_server = true;
        for_thing = false;
        suggested = false;
        topic_resolver = λ id. "$iothub/things/" +++ (id +++ "/property");
      }
      ∷ record {
        name = "Thing's Will";
        code = "$iothub/things/{thingId}/will/#";
        for_server = true;
        for_thing = false;
        suggested = false;
        topic_resolver = λ id. "$iothub/things/" +++ (id +++ "/will/#");
      }
      ∷ record {
        name = "Presence";
        code = "$iothub/things/{thingId}/presence";
        for_server = true;
        for_thing = false;
        suggested = false;
        topic_resolver = λ id. "$iothub/things/" +++ (id +++ "/presence");
      }
      ∷ record {
        name = "Custom Topic";
        code = "$iothub/user/things/{thingId}/#";
        for_server = true;
        for_thing = false;
        suggested = false;
        topic_resolver = λ id. "$iothub/user/things/" +++ (id +++ "/#");
      }
      ∷ [];
}

abbrev pub ntp : Group
ntp = record {
  group = "NTP";
  topics =
      record {
        name = "Request NTP";
        code = "$iothub/things/{thingId}/req";
        for_server = true;
        for_thing = false;
        suggested = false;
        topic_resolver = λ id. "$iothub/things/" +++ (id +++ "/req");
      }
      ∷ record {
        name = "Response NTP";
        code = "$iothub/things/{thingId}/ntp/resp";
        for_server = false;
        for_thing = true;
        suggested = false;
        topic_resolver = λ id. "$iothub/things/" +++ (id +++ "/ntp/resp");
      }
      ∷ [];
}

abbrev pub invoke_direct_method : Group
invoke_direct_method = record {
  group = "Direct Method";
  topics =
      record {
        name = "Direct Method Request";
        code = "$iothub/things/{thingId}/methods/{name}/req";
        for_server = false;
        for_thing = true;
        suggested = true;
        topic_resolver = λ id. "$iothub/things/" +++ (id +++ "/methods/+/req");
      }
      ∷ record {
        name = "Direct Method Response";
        code = "$iothub/things/{thingId}/methods/{name}/resp";
        for_server = true;
        for_thing = false;
        suggested = false;
        topic_resolver = λ id. "$iothub/things/" +++ (id +++ "/methods/{name}/resp");
      }
      ∷ [];
}

abbrev pub get_shadow : Group
get_shadow = record {
  group = "Get Shadow";
  topics =
      record {
        name = "Get Accepted";
        code = "$iothub/things/{thingId}/shadows/name/default/get/accepted";
        for_server = false;
        for_thing = true;
        suggested = true;
        topic_resolver = λ id. "$iothub/things/" +++ (id +++ "/shadows/name/default/get/accepted");
      }
      ∷ record {
        name = "Get Rejected";
        code = "$iothub/things/{thingId}/shadows/name/default/get/rejected";
        for_server = false;
        for_thing = true;
        suggested = true;
        topic_resolver = λ id. "$iothub/things/" +++ (id +++ "/shadows/name/default/get/rejected");
      }
      ∷ [];
}

abbrev pub update_shadow : Group
update_shadow = record {
  group = "Update Shadow";
  topics =
      record {
        name = "Update Accepted";
        code = "$iothub/things/{thingId}/shadows/name/default/update/accepted";
        for_server = false;
        for_thing = true;
        suggested = true;
        topic_resolver =
            λ id. "$iothub/things/" +++ (id +++ "/shadows/name/default/update/accepted");
      }
      ∷ record {
        name = "Update Rejected";
        code = "$iothub/things/{thingId}/shadows/name/default/update/rejected";
        for_server = false;
        for_thing = true;
        suggested = true;
        topic_resolver =
            λ id. "$iothub/things/" +++ (id +++ "/shadows/name/default/update/rejected");
      }
      ∷ record {
        name = "Update Documents Notify";
        code = "$iothub/things/{thingId}/shadows/name/default/update/documents";
        for_server = true;
        for_thing = true;
        suggested = true;
        topic_resolver =
            λ id. "$iothub/things/" +++ (id +++ "/shadows/name/default/update/documents");
      }
      ∷ record {
        name = "Update Delta Notify";
        code = "$iothub/things/{thingId}/shadows/name/default/update/delta";
        for_server = false;
        for_thing = true;
        suggested = true;
        topic_resolver = λ id. "$iothub/things/" +++ (id +++ "/shadows/name/default/update/delta");
      }
      ∷ [];
}
