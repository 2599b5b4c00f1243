-- ===== src/Kafka.antt =====
-- internal/pkg/providers: kafka.go with the client of Kafka, and kafka_oauth.go with its access token.
pub mod Settings
pub mod Client
pub mod Secured
pub mod Oauth
pub mod Token
mod Examples
