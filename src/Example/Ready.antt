-- ===== src/Example/Ready.antt =====
-- The callbacks of the example are in place before the device is opened, and `main` with its optional
-- parts does what it does without them.
use clink3_wiki.Prelude.{◌≡◌, List, [], ◌∷◌, ◌++◌, Option, none, some}
use clink3_wiki.Prelude.Int.{ℤ}
use clink3_wiki.Example.Main.{MetaInfo, Action, linkkit_open}
use clink3_wiki.Example.Startup.{EventType, Handler, MainStep, act}
use clink3_wiki.Example.Registration.{actions_of, registered, handler_of}

-- What `main` did before it opened the device, and after it
pub record Ready (info : MetaInfo) (steps : List MainStep) : Type 0 where
  pub before : List MainStep
  pub after : List MainStep
  pub split : steps ≡ before ++ act (linkkit_open info) ∷ after
  pub handlers : (t : EventType) → registered before t none ≡ some (handler_of t)
  pub nothing_yet : actions_of before ≡ []
  pub no_more : (t : EventType) (h : Option Handler) → registered after t h ≡ h

-- The result of `main` and its steps, against those of `run_main`
pub Started : MetaInfo → Option (ℤ × List Action) → ℤ × List MainStep → Type 0
Started info expected (r, steps) = Ready info steps × (some (r, actions_of steps) ≡ expected)
