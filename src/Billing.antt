-- ===== src/Billing.antt =====
-- app/services/bill_determinants.py and app/services/bill_charges.py: from usage to charges.
pub mod Revisions
pub mod Laws
pub mod Loop
pub mod Tallies
pub mod Rows
pub mod Store
pub mod DeterminantPayloads
pub mod Determinants
pub mod Keys
pub mod Money
pub mod ChargePayloads
pub mod Charges
pub mod Kept
