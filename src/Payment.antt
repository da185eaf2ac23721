-- ===== src/Payment.antt =====
-- x402 payment terms (the types of internal/canary/payment.go and config.go).
pub mod Network
pub mod Amount
pub mod Challenge
pub mod Select
pub mod Authorize
pub mod Signer
use canary.Base.{ℕ, Text, ℤ, lit, List}
use canary.Json.{Object, get, string_value}
use canary.Report.{PaymentOptionSummary}

pub record PaymentRequirement : Type 0 where
  pub scheme : Text
  pub network : Text
  pub amount : Text
  pub asset : Text
  pub pay_to : Text
  pub max_timeout_seconds : ℤ
  pub extra : Object

pub record PaymentChallenge : Type 0 where
  pub version : ℤ
  pub resource_url : Text
  pub accepts : List PaymentRequirement
  pub extensions : Object

-- Chain ids are those of `normalizeNetwork`; the TTL is in seconds.
pub record PaymentPolicy : Type 0 where
  pub max_atomic_amount : Text
  pub allowed_networks : List (Text × ℕ)
  pub allowed_assets : List (Text × Text)
  pub authorization_ttl : ℕ

-- `transfer, _ := requirement.Extra["assetTransferMethod"].(string)`
abbrev pub transfer_method : PaymentRequirement → Text
transfer_method r = string_value (get r.extra (lit "assetTransferMethod"))

unfoldable pub summary : PaymentRequirement → PaymentOptionSummary
summary r = record {
  scheme = r.scheme;
  network = r.network;
  amount = r.amount;
  asset = r.asset;
  pay_to = r.pay_to;
  transfer_method = transfer_method r;
}
