-- ===== src/Tenants.antt =====
-- identity-backend/src/tenant-settings and tenant: the tenants and their settings.
pub mod Settings
pub mod Keycloak
pub mod Service
pub mod Access
mod Tests
