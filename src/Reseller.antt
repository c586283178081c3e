-- ===== src/Reseller.antt =====
-- app/reseller: quotas, credentials, provisioning and trials.
pub mod Quota
pub mod Credentials
pub mod Provision
pub mod Trial
