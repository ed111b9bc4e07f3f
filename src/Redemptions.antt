-- ===== src/Redemptions.antt =====
-- RedemptionsService (src/modules/redemptions/redemptions.service.ts).
pub mod Delivery
pub mod Offers
pub mod Purchase
mod Tests
