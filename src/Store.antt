-- ===== src/Store.antt =====
-- store.py and its mixins: `ConversationStore`, one module for each group of methods.
pub mod State
pub mod Registry
pub mod Deliveries
pub mod Bindings
pub mod Requests
pub mod Journal
pub mod Turns
pub mod Inbound
pub mod Load
pub mod Calls
