-- ===== src/Flow/Stages.antt =====
-- A stage of a run that succeeds has succeeded itself.
use libamvp.Common.{
  ap, ◌≡◌, inl, inr, Bool, true, false, Option, some, arith, Bool-cases, if◌then◌else◌,
}
use libamvp.Result.{Result, success, unsupported_op, is_success, is_success-eq}
use libamvp.Flow.State.{Session}
use libamvp.Flow.Polling.{Outcome, ended}

-- The branch that is taken.
pub taken : {A : Type 0} (b : Bool) (x y : A) {z : A} → b ≡ true → (if b then x else y) ≡ z → x ≡ z
taken true x y e h = h
taken false x y e h = absurd (ground (arith, e))

pub passed_over :
    {A : Type 0} (b : Bool) (x y : A) {z : A} → b ≡ false → (if b then x else y) ≡ z → y ≡ z
passed_over true x y e h = absurd (ground (arith, e))
passed_over false x y e h = h

result_eq :
    {R : Type 0} (rv rv' : Result) (s s' : Session R)
    → some (ended rv s) ≡ some (ended rv' s')
    → rv ≡ rv'
result_eq rv rv' s s' h = cc

-- A stage before a success has succeeded.
pub stage :
    {R : Type 0} (rv : Result) (rest : Option (Outcome R)) (s s' : Session R)
    → (if is_success rv then rest else some (ended rv s)) ≡ some (ended success s')
    → (rv ≡ success) × (rest ≡ some (ended success s'))
stage rv rest s s' h = elim (Bool-cases (is_success rv)) [
  | inl ok ↦ (is_success-eq rv ok, taken (is_success rv) rest (some (ended rv s)) ok h)
  | inr bad ↦
      let e =
        result_eq rv success s s' (passed_over (is_success rv) rest (some (ended rv s)) bad h) in
      absurd (ground (arith, bad, e))
]

-- The same for the metadata, whose error is replaced.
pub verified :
    {R : Type 0} (rv : Result) (rest : Option (Outcome R)) (s s' : Session R)
    → (if is_success rv then rest else some (ended unsupported_op s)) ≡ some (ended success s')
    → rest ≡ some (ended success s')
verified rv rest s s' h = elim (Bool-cases (is_success rv)) [
  | inl ok ↦ taken (is_success rv) rest (some (ended unsupported_op s)) ok h
  | inr bad ↦
      let e =
        result_eq unsupported_op success s s'
          (passed_over (is_success rv) rest (some (ended unsupported_op s)) bad h) in
      absurd (ground (arith, e))
]

-- A call that goes on after a success only.
pub succeeded :
    {R : Type 0} (rv : Result) (rest : Result × Session R) (s s' : Session R)
    → (if is_success rv then rest else (rv, s)) ≡ (success, s')
    → (rv ≡ success) × (rest ≡ (success, s'))
succeeded {R = R} rv rest s s' h = elim (Bool-cases (is_success rv)) [
  | inl ok ↦ (is_success-eq rv ok, taken (is_success rv) rest (rv, s) ok h)
  | inr bad ↦
      let e =
        ap (λ (x : Result × Session R). x.0) (passed_over (is_success rv) rest (rv, s) bad h) in
      absurd (ground (arith, bad, e))
]
