-- ===== src/Payment.antt =====
-- The payment record and its statuses (internal/domain/payment/payment.go). A status is one of the
-- six constants or some other text; identifiers are numbers, and times are numbers of seconds.
pub mod Transitions
pub mod Request
pub mod Response
use text.Mathlib.Text.{◌==◌ as str_eq}
use pg_aggregator_back.Common.{
  ℕ, String, Bool, true, false, ◌||◌, Option, List, [], ◌∷◌, ℤ, ◌+ℤ◌, int64, if◌then◌else◌,
}

pub data Status : Type 0 where
  pending paid expired failed cancelled refunded : Status
  other_status : String → Status

-- `environment` is free text in the table; new rows hold one of the first two.
pub data Environment : Type 0 where
  sandbox production : Environment
  other_environment : String → Environment

pub record Payment : Type 0 where
  pub id : ℕ
  pub reference : String
  pub merchant_id : ℕ
  pub amount : ℤ
  pub fee_amount : ℤ
  pub merchant_net_amount : ℤ
  pub currency : String
  pub payment_method : String
  pub provider_name : String
  pub provider_reference : Option String
  pub status : Status
  pub description : String
  pub customer_name : Option String
  pub customer_email : Option String
  pub qris_data : Option String
  pub callback_url : Option String
  pub environment : Environment
  pub payment_link_id : Option ℕ
  pub expires_at : ℕ
  pub paid_at : Option ℕ
  pub created_at : ℕ
  pub updated_at : ℕ

-- `TotalAmount`: what the customer pays.
unfoldable pub total_amount : Payment → ℤ
total_amount p = int64 (p.amount +ℤ p.fee_amount)

-- `==` on two status texts.
abbrev pub status_eq : Status → Status → Bool
status_eq pending pending = true
status_eq paid paid = true
status_eq expired expired = true
status_eq failed failed = true
status_eq cancelled cancelled = true
status_eq refunded refunded = true
status_eq (other_status s) (other_status t) = str_eq s t
status_eq _ _ = false

abbrev pub is_pending : Status → Bool
is_pending s = status_eq s pending

abbrev pub is_production : Environment → Bool
is_production production = true
is_production _ = false

abbrev pub is_sandbox : Environment → Bool
is_sandbox sandbox = true
is_sandbox _ = false

-- `IsTerminalStatus`
unfoldable pub is_terminal_status : Status → Bool
is_terminal_status s =
    status_eq s paid
    || status_eq s expired
    || status_eq s failed
    || status_eq s cancelled
    || status_eq s refunded

abbrev pub contains_status : List Status → Status → Bool
contains_status [] s = false
contains_status (x ∷ xs) s = if status_eq x s then true else contains_status xs s

-- `IsValidStatus`
unfoldable pub is_valid_status : Status → Bool
is_valid_status s =
    contains_status (pending ∷ paid ∷ expired ∷ failed ∷ cancelled ∷ refunded ∷ []) s

-- `AllowedSourceStatuses`
unfoldable pub allowed_source_statuses : Status → List Status
allowed_source_statuses paid = pending ∷ expired ∷ []
allowed_source_statuses expired = pending ∷ []
allowed_source_statuses failed = pending ∷ []
allowed_source_statuses cancelled = pending ∷ []
allowed_source_statuses refunded = paid ∷ []
allowed_source_statuses _ = []

-- `CanTransitionTo`
unfoldable pub can_transition_to : Status → Status → Bool
unfolding allowed_source_statuses
can_transition_to current new = contains_status (allowed_source_statuses new) current
