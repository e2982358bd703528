-- ===== src/Stable/Cycle/System.antt =====
-- `Run`, `Reconfigure` and `UseFilterer` of internal/stable/checker.go: the worker as steps of its
-- loop and of the reloads, which may land while a cycle runs. What the ticker and the scheduler
-- choose is the sequence of events.
pub mod Invariant
use sub_preprocessor.Base.{
  ℕ, zero, suc, ◌+◌, ◌-◌, ◌*◌, ◌/◌, ◌%◌, ◌^◌, ◌≤◌, ◌<◌, max, min, ◌≡◌, refl, sym, ap, ◌∙◌, ◌≢◌, ◌↔◌,
  ◌⊎◌, inl, inr, Bool, true, false, not, ◌&&◌, ◌||◌, Option, none, some, List, [], ◌∷◌, ◌++◌, map,
  arith, ◌>>=◌, ltb, leb, ◌==◌, if◌then◌else◌, leb→le, le→leb, ltb→lt, lt→ltb, ==_iff, tests,
  Bool-cases, Option-cases, if_either, if_passed, AllSome, AllSome-bind, bind-eq-some, some-inj,
  AllSome-all, AllSome-map, Bytes, codes, beq, beq_iff, beq_refl, has_byte, cut, cut-append,
  cut_last, split, is_space, trim_left, trim_right, trim_space, starts_with, is_digit, is_upper,
  is_lower, lower_byte, lower_byte_idem, is_ascii, to_lower, length, get_elem?, take, drop,
  length-append, keep, any, every, All, All-append, All-map, Among, length-Among,
}
use sub_preprocessor.Subscription.Links.{Links}
use sub_preprocessor.Stable.Cycle.Once.{run_once}
use sub_preprocessor.Stable.Cycle.State.{Spec, Env, Worker, Outcome}

-- where `Run` stands: before its first cycle, in a cycle with the spec that it read, or in `select`
pub data Phase : Type 0 where
  starting : Phase
  cycling : Spec → Phase
  idle : Phase

pub record System : Type 0 where
  pub spec : Spec
  -- an item in the channel `reload`
  pub poke : Bool
  pub phase : Phase
  -- the period of the ticker, once there is one
  pub ticker : Option ℕ
  pub worker : Worker

pub data Event : Type 0 where
  reconfigures : Spec → ℕ → Event
  uses_filterer : ℕ → Event
  -- `RunOnce` is entered: at once from the start, by the ticker later
  begins : Event
  -- `RunOnce` returns
  finishes : Env → Event
  -- the case `<-c.reload`
  wakes : Event

-- `Reconfigure`: the policy with the processor that it was built with
unfoldable pub reconfigure : Spec → ℕ → System → System
reconfigure next f s = record s { spec = record next { filterer = f }; poke = true }

-- `UseFilterer`
unfoldable pub use_filterer : ℕ → System → System
use_filterer f s = record s { spec = record s.spec { filterer = f } }

-- the end of a round of `Run`, and what follows its first cycle
abbrev pub reread : System → System
reread s = record s { phase = idle; ticker = some s.spec.interval }

module _ (links : Links) (unicode : Bytes → Bytes) where
  abbrev pub begin_at : Phase → System → System
  begin_at starting s = record s { phase = cycling s.spec }
  begin_at idle s = record s { phase = cycling s.spec }
  begin_at (cycling c) s = s

  abbrev pub finish_at : Env → Phase → System → System
  finish_at env (cycling c) s =
      reread (record s { worker = (run_once links unicode env c s.worker).0 })
  finish_at env starting s = s
  finish_at env idle s = s

  abbrev pub wake_at : Phase → System → System
  wake_at idle s = if s.poke then reread (record s { poke = false }) else s
  wake_at starting s = s
  wake_at (cycling c) s = s

  -- An event that cannot happen in a phase leaves the system as it is.
  unfoldable pub step : Event → System → System
  unfolding reconfigure use_filterer run_once
  step (reconfigures next f) s = reconfigure next f s
  step (uses_filterer f) s = use_filterer f s
  step begins s = begin_at s.phase s
  step (finishes env) s = finish_at env s.phase s
  step wakes s = wake_at s.phase s

  unfoldable pub run_events : List Event → System → System
  unfolding step
  run_events [] s = s
  run_events (e ∷ es) s = run_events es (step e s)

-- a new checker, as `NewChecker` makes it
abbrev pub new_system : Spec → Worker → System
new_system spec w = record {
  spec = spec;
  poke = false;
  phase = starting;
  ticker = none;
  worker = w;
}
