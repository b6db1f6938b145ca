-- ===== src/ConnForm/Done.antt =====
-- What the view of the clients makes of a configuration that the form hands on
-- (`handleCreateOrEditDone`, web/src/components/tools/MqttClients.vue).
use tio.Config.{Config}
use tio.Delegate.{connect as connect_client}
use tio.UseMqtt.{connect}
