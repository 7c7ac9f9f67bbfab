-- ===== src/Limiter/Examples.antt =====
-- The limiter at concrete inputs.
use retune.Base.{List, Text, [], arith, bytes, false, refl, true, ◌∷◌, ◌≡◌}
use retune.Limiter.{allowed, fail, failures_of, reset}
use retune.Limiter.Refines.{Agrees}
use retune.Limiter.Runs.{
  Call, InOrder, NeverCrowded, answers, answers-spec_answers, asks, fails, resets, spec_answers,
}

abbrev ann : Text
ann = bytes "ann"

abbrev bob : Text
bob = bytes "bob"

-- Two failures for one of the keys, of which the first expires.
abbrev calls : List Call
calls =
    fails 1 (λ k. 1) 2 ann bob
    ∷ fails 4 (λ k. 4) 5 ann bob
    ∷ asks 5 ann
    ∷ asks 6 bob
    ∷ asks 12 ann
    ∷ resets ann
    ∷ asks 13 ann
    ∷ []

nothing_yet : Agrees 2 10 0 [] (λ j. [])
unfolding failures_of
nothing_yet j = refl

calls-InOrder : InOrder 0 calls
calls-InOrder = (
  omega arith,
  omega arith,
  (λ k. omega arith),
  (
    omega arith,
    omega arith,
    (λ k. omega arith),
    (omega arith, (omega arith, (omega arith, (omega arith, tt)))),
  ),
)

calls-NeverCrowded : NeverCrowded 2 10 [] calls
unfolding allowed fail reset
calls-NeverCrowded = (refl, (refl, tt))

answers-spec_answers_example : answers 2 10 [] calls ≡ spec_answers 2 10 (λ j. []) calls
answers-spec_answers_example =
    answers-spec_answers 2 10 0 [] (λ j. []) calls nothing_yet calls-InOrder calls-NeverCrowded

blocked_and_free : answers 2 10 [] calls ≡ false ∷ true ∷ true ∷ true ∷ []
unfolding answers
blocked_and_free = refl
