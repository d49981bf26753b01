-- ===== src/Utilities.antt =====
-- coap_core/coap_utilities: the logger, the singleton and the timer.
pub mod Logger
pub mod Singleton
pub mod Timer
