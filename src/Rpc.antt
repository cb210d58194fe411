-- ===== src/Rpc.antt =====
-- include/packio/internal/rpc.h, and what the two protocols share: the kinds of call, the parsed
-- requests and responses, and calls that may throw.
use Prim.Native.String.{String}
use packio.Common.{Option}

pub data CallType : Type 0 where
  request notification : CallType

-- What a parsed request holds; `id` is left unset in a notification.
pub record Request (IdType Native : Type 0) : Type 0 where
  pub type : CallType
  pub id : Option IdType
  pub method : String
  pub args : Native

pub record Response (IdType Native : Type 0) : Type 0 where
  pub id : IdType
  pub result : Native
  pub error : Native

-- A call that returns or throws.
pub data Outcome {ℓ} (A : Type ℓ) : Type ℓ where
  returns : A → Outcome A
  throws : Outcome A
