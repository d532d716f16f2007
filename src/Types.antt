-- ===== src/Types.antt =====
-- The records of apps/web/src/shared/api/types.ts, field by field. A field that may be `null`, or
-- that may be missing, is an `Option`; in the body of an update a field that may be both is an
-- `Option` of an `Option`. The unions of text literals are texts.
pub mod Runtime
pub mod Nodes
pub mod Profiles
pub mod Hosts
pub mod Users
pub mod Squads
pub mod Subscriptions
pub mod Delivery
pub mod Plugins
pub mod Settings
