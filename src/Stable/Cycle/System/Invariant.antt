-- ===== src/Stable/Cycle/System/Invariant.antt =====
-- internal/stable/checker.go: what holds of the worker after any events.
use sub_preprocessor.Base.{
  ◌≡◌, refl, sym, ap, ◌∙◌, ◌≢◌, ◌⊎◌, inl, inr, Bool, true, false, Option, none, some, List, [], ◌∷◌,
  arith, if_either, AllSome, Bytes, any,
}
use mathlib.Core.Path.{subst}
use sub_preprocessor.Subscription.Links.{Links}
use sub_preprocessor.Stable.Cycle.Once.{run_once}
use sub_preprocessor.Stable.Cycle.State.{Spec, Env, Worker, Outcome}
use sub_preprocessor.Stable.Cycle.Once.Ends.{IsSound, Ends, run_once-Ends}
use sub_preprocessor.Stable.Cycle.System.{
  Phase, starting, cycling, idle, System, Event, reconfigures, uses_filterer, begins, finishes,
  wakes, reconfigure, use_filterer, reread, begin_at, finish_at, wake_at, step, run_events,
  new_system,
}

-- The list held, if any, is sound; there is one as soon as a cycle was observed.
pub record IsServing (w : Worker) : Type 0 where
  pub held_sound : AllSome IsSound w.held
  pub saved_sound : AllSome IsSound w.saved
  pub serves : (w.observed ≡ []) ⊎ (w.held ≢ none)

-- The ticker, once there is one, has the period of the spec, unless a wake-up is pending.
abbrev pub IsTimed : System → Type 0
IsTimed s = (s.poke ≡ true) ⊎ ((s.ticker ≡ none) ⊎ (s.ticker ≡ some s.spec.interval))

AllSome-eq {ℓ} : {A : Type 0} (P : A → Type ℓ) (o p : Option A) → o ≡ p → AllSome P p → AllSome P o
AllSome-eq P o p e h = subst (AllSome P) (sym e) h

run_once-IsServing : (w w' : Worker) (o : Outcome) → Ends w (w', o) → IsServing w → IsServing w'
run_once-IsServing w w' o (inl (e, p)) v = record {
  held_sound = AllSome-eq IsSound w'.held (some p.snap) p.is_held p.is_sound;
  saved_sound = elim p.saved_is [
    | inl new ↦ AllSome-eq IsSound w'.saved (some p.snap) new p.is_sound
    | inr old ↦ AllSome-eq IsSound w'.saved w.saved old v.saved_sound
  ];
  serves = inr (λ h. let x : some p.snap ≡ none = sym p.is_held ∙ h in cc);
}
run_once-IsServing w w' o (inr (ne, k)) v = record {
  held_sound = AllSome-eq IsSound w'.held w.held k.same_held v.held_sound;
  saved_sound = AllSome-eq IsSound w'.saved w.saved k.same_saved v.saved_sound;
  serves = elim v.serves [
    | inl none_seen ↦ inl (k.same_observed ∙ none_seen)
    | inr held ↦ inr (λ h. held (sym k.same_held ∙ h))
  ];
}

module _ (links : Links) (unicode : Bytes → Bytes) where
  finish_at-IsServing :
      (env : Env) (p : Phase) (s : System)
      → IsServing s.worker
      → IsServing (finish_at links unicode env p s).worker
  finish_at-IsServing env (cycling c) s v =
      run_once-IsServing s.worker (run_once links unicode env c s.worker).0
        (run_once links unicode env c s.worker).1 (run_once-Ends links unicode env c s.worker) v
  finish_at-IsServing env starting s v = v
  finish_at-IsServing env idle s v = v

  begin_at_worker : (p : Phase) (s : System) → (begin_at links unicode p s).worker ≡ s.worker
  begin_at_worker starting s = refl
  begin_at_worker idle s = refl
  begin_at_worker (cycling c) s = refl

  wake_at_worker : (p : Phase) (s : System) → (wake_at links unicode p s).worker ≡ s.worker
  wake_at_worker starting s = refl
  wake_at_worker idle s = ground arith
  wake_at_worker (cycling c) s = refl

  step-IsServing :
      (e : Event) (s : System) → IsServing s.worker → IsServing (step links unicode e s).worker
  unfolding step reconfigure use_filterer
  step-IsServing (reconfigures next f) s v = v
  step-IsServing (uses_filterer f) s v = v
  step-IsServing begins s v = subst IsServing (sym (begin_at_worker s.phase s)) v
  step-IsServing (finishes env) s v = finish_at-IsServing env s.phase s v
  step-IsServing wakes s v = subst IsServing (sym (wake_at_worker s.phase s)) v

  -- If the list held and the one in the file are sound at first, then after any events, on any
  -- answers of the world and whatever reloads land in between, they are sound if there is one,
  -- and once a cycle was observed there is one that is held.
  pub run_events-IsServing :
      (es : List Event) (s : System)
      → IsServing s.worker
      → IsServing (run_events links unicode es s).worker
  unfolding run_events
  run_events-IsServing [] s v = v
  run_events-IsServing (e ∷ es) s v =
      run_events-IsServing es (step links unicode e s) (step-IsServing e s v)

  begin_at-IsTimed : (p : Phase) (s : System) → IsTimed s → IsTimed (begin_at links unicode p s)
  begin_at-IsTimed starting s v = v
  begin_at-IsTimed idle s v = v
  begin_at-IsTimed (cycling c) s v = v

  finish_at-IsTimed :
      (env : Env) (p : Phase) (s : System) → IsTimed s → IsTimed (finish_at links unicode env p s)
  finish_at-IsTimed env (cycling c) s v = inr (inr refl)
  finish_at-IsTimed env starting s v = v
  finish_at-IsTimed env idle s v = v

  wake_at-IsTimed : (p : Phase) (s : System) → IsTimed s → IsTimed (wake_at links unicode p s)
  wake_at-IsTimed idle s v =
      if_either IsTimed s.poke (reread (record s { poke = false })) s (inr (inr refl)) (λ n. v)
  wake_at-IsTimed starting s v = v
  wake_at-IsTimed (cycling c) s v = v

  step-IsTimed : (e : Event) (s : System) → IsTimed s → IsTimed (step links unicode e s)
  unfolding step reconfigure use_filterer
  step-IsTimed (reconfigures next f) s v = inl refl
  step-IsTimed (uses_filterer f) s v = v
  step-IsTimed begins s v = begin_at-IsTimed s.phase s v
  step-IsTimed (finishes env) s v = finish_at-IsTimed env s.phase s v
  step-IsTimed wakes s v = wake_at-IsTimed s.phase s v

  kept-IsTimed :
      (es : List Event) (s : System) → IsTimed s → IsTimed (run_events links unicode es s)
  unfolding run_events
  kept-IsTimed [] s v = v
  kept-IsTimed (e ∷ es) s v = kept-IsTimed es (step links unicode e s) (step-IsTimed e s v)

  -- After any events on a new worker, a wake-up is pending, or there is no ticker yet, or the
  -- ticker has the period of the specification that was published last: no reload is forgotten.
  pub run_events-IsTimed :
      (es : List Event) (spec : Spec) (w : Worker)
      → IsTimed (run_events links unicode es (new_system spec w))
  run_events-IsTimed es spec w = kept-IsTimed es (new_system spec w) (inr (inl refl))

  abbrev pub is_finish : Event → Bool
  is_finish (finishes env) = true
  is_finish (reconfigures next f) = false
  is_finish (uses_filterer f) = false
  is_finish begins = false
  is_finish wakes = false

  step_cycling :
      (e : Event) (s : System) (c : Spec)
      → is_finish e ≡ false
      → s.phase ≡ cycling c
      → ((step links unicode e s).phase ≡ cycling c) × ((step links unicode e s).worker ≡ s.worker)
  unfolding step reconfigure use_filterer
  step_cycling (reconfigures next f) s c n p = (p, refl)
  step_cycling (uses_filterer f) s c n p = (p, refl)
  step_cycling begins s c n p =
      subst
        (λ (q : Phase).
          ((begin_at links unicode q s).phase ≡ cycling c)
          × ((begin_at links unicode q s).worker ≡ s.worker))
        (sym p) (p, refl)
  step_cycling wakes s c n p =
      subst
        (λ (q : Phase).
          ((wake_at links unicode q s).phase ≡ cycling c)
          × ((wake_at links unicode q s).worker ≡ s.worker))
        (sym p) (p, refl)
  step_cycling (finishes env) s c n p = absurd (cc)

  step_finish :
      (env : Env) (s : System) (c : Spec)
      → s.phase ≡ cycling c
      → step links unicode (finishes env) s
        ≡ reread (record s { worker = (run_once links unicode env c s.worker).0 })
  unfolding step
  step_finish env s c p = ap (λ q. finish_at links unicode env q s) p

  -- Whatever reloads land while a cycle runs, the cycle ends as one that ran under the
  -- specification it read at its start, and the ticker then has the interval of the
  -- specification that stands.
  pub run_events_cycle :
      (es : List Event) (env : Env) (s : System) (c : Spec)
      → any is_finish es ≡ false
      → s.phase ≡ cycling c
      → ((step links unicode (finishes env) (run_events links unicode es s)).worker
          ≡ (run_once links unicode env c s.worker).0)
        × ((step links unicode (finishes env) (run_events links unicode es s)).ticker
            ≡ some (run_events links unicode es s).spec.interval)
        × ((step links unicode (finishes env) (run_events links unicode es s)).spec
            ≡ (run_events links unicode es s).spec)
  unfolding run_events any
  run_events_cycle [] env s c n p = rw (step_finish env s c p) (refl, refl, refl)
  run_events_cycle (e ∷ es) env s c n p =
      let both : (is_finish e ≡ false) × (any is_finish es ≡ false) = ground (arith, n) in
      let (still, same) = step_cycling e s c both.0 p in
      let (w, t, k) = run_events_cycle es env (step links unicode e s) c both.1 still in
      (w ∙ ap (λ v. (run_once links unicode env c v).0) same, t, k)
