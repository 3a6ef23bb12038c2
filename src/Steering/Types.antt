-- ===== src/Steering/Types.antt =====
-- The state of src/dstudio_steering.c, what a call meets, and what it answers.
use dstudio.Base.{ℕ, Bool, List, Str}

pub data Delivery : Type 0 where
  pending delivered applied : Delivery

pub record Input : Type 0 where
  pub id : Str
  pub text : Str
  pub state : Delivery

pub record Steer : Type 0 where
  pub key : Str
  pub turn : ℕ
  pub is_open : Bool
  pub inputs : List Input

pub record Host : Type 0 where
  pub active_turn_task : ℕ
  pub is_piped : Bool
  pub has_child : Bool
  pub agent_working : Bool
  pub interrupt_pending : Bool

pub record Request : Type 0 where
  pub expected_turn : Str
  pub input_id : Str
  pub text : Str

pub record Pull : Type 0 where
  pub key : Str
  pub turn : ℕ
  pub ack : ℕ
  pub finish : ℕ

pub data Shown : Type 0 where
  shown_applied shown_unconfirmed shown_delivered shown_pending : Shown

pub data Refusal : Type 0 where
  invalid_request turn_inactive id_conflict turn_closed limit_reached : Refusal
  invalid_credential inactive stale invalid_acknowledgement delivery_unconfirmed : Refusal

pub data Reply : Type 0 where
  refused : Refusal → Reply
  status : ℕ → Bool → List (Str × Shown) → Reply
  opened : ℕ → Reply
  delivery : ℕ → Str → Reply
  drained : Reply
