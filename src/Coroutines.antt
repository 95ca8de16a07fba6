-- ===== src/Coroutines.antt =====
-- common/coroutines/coroutines.go: SafeFunc, Retry, and the two concurrent processors as step
-- relations. What a goroutine reports by `notify.SendErrMessage` is a list of messages.
pub mod Retry
pub mod Processor
pub mod Crash
mod Examples
use go_lib.Base.{String, List, [], ◌∷◌, ◌++◌, Option, none, some}

-- How a function ends.
pub data Ending {ℓ} (A : Type ℓ) : Type ℓ where
  returns : A → Ending A
  panics : String → Ending A

-- A message that is sent: a recovered panic, an error, an error of Retry, whose retries may be
-- exceeded, or a job that took too long.
pub data Message : Type 0 where
  recovered failed retry_error retries_exceeded slow_job : String → Message

-- `SafeFunc`: what `f` sent, and the panic that it ended by.
unfoldable pub safe_func {ℓ} : {A : Type ℓ} → Ending A × List Message → List Message
safe_func (returns a, sent) = sent
safe_func (panics e, sent) = sent ++ recovered e ∷ []
