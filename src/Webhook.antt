-- ===== src/Webhook.antt =====
-- The delivery of Shopify webhooks: packages/backend/src/commerce/webhook-worker-queue.ts.
pub mod Queue
mod Tests
