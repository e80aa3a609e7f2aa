-- ===== src/Billing.antt =====
-- src-bill/classes/BillingCall.cpp and BillingCall_nnp.cpp: the price of one leg of a call.
pub mod Length
pub mod Monad
pub mod Repository
pub mod Numbers
pub mod Cost
pub mod Packages
pub mod Setup
pub mod Nnp
pub mod Calc
pub mod Loop
