-- ===== src/Subscription.antt =====
-- internal/subscription: the parser of subscription bodies and the share-link rewriters.
pub mod Node
pub mod Links
pub mod Query
pub mod Endpoint
pub mod Parser
