-- ===== src/BrokerClient.antt =====
-- pkg/brokerclient/client.go: the types of its requests and responses.
pub mod Types
