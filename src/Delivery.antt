-- ===== src/Delivery.antt =====
-- What is delivered to the clients of a subscription: templates, response rules and page
-- configurations (apps/web/src/shared/api/developmentClient.ts), each in a child.
pub mod Templates
pub mod Rules
pub mod Pages
