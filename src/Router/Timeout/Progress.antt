-- ===== src/Router/Timeout/Progress.antt =====
-- No request under TimeoutMiddleware hangs once its handler is done.
use alya.Prelude.{
  ℕ, ◌+◌, ◌≤◌, ◌<◌, List, [], ◌∷◌, none, some, Bool, true, false, ◌≡◌, ◌⊎◌, refl, arith, length,
  All, Option-cases, inl, inr,
}
use alya.Router.Errors.{Registry}
use alya.Router.Timeout.Defs.{
  HandlerPc, running, recovered, keyed, valued, sending, finishing, gone, MainPc, selecting,
  expired, marking, waiting, deciding, State, Event, handler_asks, handler_returns, handler_panics,
  handler_goes_on, context_ends, takes_panic, takes_done, takes_fin, main_goes_on, start,
  handler_turn, take_panic, take_done, take_fin, main_turn, step, run,
}
use alya.Router.Timeout.Invariant.{Inv, run-Inv, run-start-Inv, is_gone}

-- The steps that are not the handler's requests of the writer, nor the end of the context.
abbrev pub is_own : Event → Bool
is_own (handler_asks op) = false
is_own (context_ends cause) = false
is_own e = true

abbrev pub handler_rest : HandlerPc → ℕ
handler_rest running = 6
handler_rest (recovered p) = 5
handler_rest (keyed p) = 4
handler_rest (valued p) = 3
handler_rest (sending p) = 2
handler_rest (finishing panic) = 1
handler_rest (gone panic) = 0

abbrev pub main_rest : MainPc → ℕ
main_rest selecting = 5
main_rest expired = 4
main_rest marking = 3
main_rest waiting = 2
main_rest deciding = 1
main_rest m = 0

abbrev pub rest : State → ℕ
rest s = handler_rest s.handler + main_rest s.main

-- Both goroutines have ended.
abbrev pub IsFinished : State → Type 0
IsFinished s = (is_gone s.handler ≡ true) × (main_rest s.main ≡ 0)

abbrev pub IsStuck : Registry → State → Type 0
IsStuck reg s = (e : Event) → is_own e ≡ true → step reg e s ≡ none

module _ (reg : Registry) where
  handler_turn-rest :
      (h : HandlerPc) (s t : State) → s.handler ≡ h → handler_turn h s ≡ some t → rest t < rest s
  unfolding handler_turn
  handler_turn-rest h s t e done = ground arith

  main_turn-rest :
      (m : MainPc) (s t : State) → s.main ≡ m → main_turn reg m s ≡ some t → rest t < rest s
  unfolding main_turn
  main_turn-rest m s t e done = ground arith

  take-rest :
      (m : MainPc) (s t : State)
      → s.main ≡ m
      → (take_panic m s ≡ some t) ⊎ (take_done m s ≡ some t) ⊎ (take_fin m s ≡ some t)
      → rest t < rest s
  unfolding take_panic take_done take_fin
  take-rest m s t e done = ground arith

  step-rest : (e : Event) (s t : State) → is_own e ≡ true → step reg e s ≡ some t → rest t < rest s
  unfolding step
  step-rest (handler_asks op) s t own done = cc
  step-rest (context_ends cause) s t own done = cc
  step-rest handler_returns s t own done = ground arith
  step-rest (handler_panics p) s t own done = ground arith
  step-rest handler_goes_on s t own done = handler_turn-rest s.handler s t refl done
  step-rest takes_panic s t own done = take-rest s.main s t refl (inl done)
  step-rest takes_done s t own done = take-rest s.main s t refl (inr (inl done))
  step-rest takes_fin s t own done = take-rest s.main s t refl (inr (inr done))
  step-rest main_goes_on s t own done = main_turn-rest s.main s t refl done

  rest_le : (s : State) → rest s ≤ 11
  rest_le s = ground arith

  own-length :
      (es : List Event) (s t : State)
      → All (λ e. is_own e ≡ true) es
      → run reg es s ≡ some t
      → length es + rest t ≤ rest s
  unfolding run
  own-length [] s t own done = ground arith
  own-length (e ∷ es) s t own done = elim (Option-cases (step reg e s)) [
    | inl stuck ↦ ground arith
    | inr (u, stepped) ↦
        let lower = step-rest e s u own.0 stepped in
        let more = own-length es u t own.1 (ground arith) in omega arith
  ]

  gone-of_IsStuck :
      (h : HandlerPc) (s : State) → s.handler ≡ h → Inv reg s → IsStuck reg s → is_gone h ≡ true
  unfolding step handler_turn
  gone-of_IsStuck running s e v stuck = ground (arith, stuck handler_returns refl)
  gone-of_IsStuck h s e v stuck = ground (arith, stuck handler_goes_on refl)

  done-of_IsStuck :
      (m : MainPc) (s : State)
      → s.main ≡ m
      → Inv reg s
      → is_gone s.handler ≡ true
      → IsStuck reg s
      → main_rest m ≡ 0
  unfolding step take_fin main_turn
  done-of_IsStuck m s e v g stuck = ground (arith, stuck takes_fin refl, stuck main_goes_on refl)

  -- From any moment of a request, whatever came before: however the two goroutines take turns, they
  -- take at most 11 steps more, not counting the handler's requests of the writer; and where they
  -- cannot take any, both have ended. No goroutine is left blocked on a channel.
  pub timeout_ends :
      (before es : List Event) (s t : State)
      → run reg before start ≡ some s
      → All (λ e. is_own e ≡ true) es
      → run reg es s ≡ some t
      → (length es ≤ 11) × (IsStuck reg t → IsFinished t)
  timeout_ends before es s t reached own done = (
    omega (arith, own-length es s t own done, rest_le s),
    λ stuck.
        let v = run-Inv reg es s done (run-start-Inv reg before reached) in
        let g = gone-of_IsStuck t.handler t refl v stuck in
        (g, done-of_IsStuck t.main t refl v g stuck),
  )
