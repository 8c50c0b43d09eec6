-- ===== src/Workflow/Gate/Terms.antt =====
-- The answers of the gate in terms of the roles and the reason that are given (assertTransition of
-- api/src/workflow/state-machine.ts).
use onlineaggrement.Base.{
  ◌≡◌, ◌≤◌, ◌<◌, refl, sym, ap, ◌∙◌, inl, inr, true, false, List, [], ◌∷◌, Option, none, some, ◌⊎◌,
  ◌↔◌, Bool-cases, arith, includes, any, length, trim, Text, ◌==◌,
}
use onlineaggrement.Errors.{DomainError, forbidden, invalid_transition, ok, err}
use onlineaggrement.Workflow.States.{
  AgreementState, AgreementState_eq, WorkflowAction, Role, Role_eq,
}
use onlineaggrement.Workflow.Rules.{
  TransitionOutcome, transitions, lacks_reason, permits, assert_transition,
}
use onlineaggrement.Workflow.Gate.{assert_transition-ok_iff, assert_transition-err_iff}

-- A role of the edge that the actor holds.
abbrev pub HoldsRole : WorkflowAction → List Role → Type 0
HoldsRole a rs = (r : Role) × (includes (transitions a).roles r ≡ true) × (includes rs r ≡ true)

-- A reason of ten code units, without the blanks around it.
abbrev pub GivesReason : Option Text → Type 0
GivesReason reason = (t : Text) × (reason ≡ some t) × (10 ≤ length (trim t))

any-meets :
    (rs roles : List Role)
    → any (λ r. includes rs r) roles ≡ true
    → (r : Role) × (includes roles r ≡ true) × (includes rs r ≡ true)
any-meets rs [] h = cc
any-meets rs (x ∷ roles) h = elim (Bool-cases (includes rs x)) [
  | inl t ↦ (x, ground (arith, Role_eq.beq_iff x x), t)
  | inr t ↦ let (r, k, l) = any-meets rs roles (ground (arith, t, h)) in (r, ground (arith, k), l)
]

any-misses :
    (rs roles : List Role)
    → any (λ r. includes rs r) roles ≡ false
    → (r : Role) → includes roles r ≡ true
    → includes rs r ≡ false
any-misses rs [] h r k = cc
any-misses rs (x ∷ roles) h r k =
    let first_misses : includes rs x ≡ false = ground (arith, h) in
    elim (Bool-cases (x == r)) [
      | inl same ↦ ap (includes rs) (sym ((Role_eq.beq_iff x r).0 same)) ∙ first_misses
      | inr other ↦ any-misses rs roles (ground (arith, h)) r (rw other at k)
    ]

HoldsRole-permits : (a : WorkflowAction) (rs : List Role) → HoldsRole a rs → permits a rs ≡ true
unfolding permits
HoldsRole-permits a rs (r, h, k) = elim (Bool-cases (permits a rs)) [
  | inl t ↦ t
  | inr t ↦ absurd (clash (sym k ∙ any-misses rs (transitions a).roles t r h))
]
  where
    clash : true ≡ false → ⊥
    clash e = cc

GivesReason-lacks_reason : (reason : Option Text) → GivesReason reason → lacks_reason reason ≡ false
unfolding lacks_reason
GivesReason-lacks_reason none (t, e, h) = cc
GivesReason-lacks_reason (some u) (t, e, h) = ground (arith, e, h)

permits-HoldsRole : (a : WorkflowAction) (rs : List Role) → permits a rs ≡ true → HoldsRole a rs
unfolding permits
permits-HoldsRole a rs h = any-meets rs (transitions a).roles h

lacks_reason-GivesReason : (reason : Option Text) → lacks_reason reason ≡ false → GivesReason reason
unfolding lacks_reason
lacks_reason-GivesReason none h = cc
lacks_reason-GivesReason (some t) h = (t, refl, ground arith)

-- A reason that is missing, or has fewer than ten code units without the blanks around it.
abbrev pub LacksReason : Option Text → Type 0
LacksReason reason = (reason ≡ none) ⊎ ((t : Text) × (reason ≡ some t) × (length (trim t) < 10))

lacks_reason-LacksReason : (reason : Option Text) → lacks_reason reason ≡ true → LacksReason reason
unfolding lacks_reason
lacks_reason-LacksReason none h = inl refl
lacks_reason-LacksReason (some t) h = inr (t, refl, ground arith)

LacksReason-lacks_reason : (reason : Option Text) → LacksReason reason → lacks_reason reason ≡ true
unfolding lacks_reason
LacksReason-lacks_reason none h = refl
LacksReason-lacks_reason (some t) (inl e) = cc
LacksReason-lacks_reason (some t) (inr (u, e, h)) = ground (arith, e, h)

-- The actor holds none of the roles of the edge.
abbrev pub LacksRole : WorkflowAction → List Role → Type 0
LacksRole a rs = (r : Role) → includes (transitions a).roles r ≡ true → includes rs r ≡ false

LacksRole-permits : (a : WorkflowAction) (rs : List Role) → LacksRole a rs → permits a rs ≡ false
LacksRole-permits a rs h = elim (Bool-cases (permits a rs)) [
  | inl t ↦ let (r, k, l) = permits-HoldsRole a rs t in absurd (clash (sym l ∙ h r k))
  | inr t ↦ t
]
  where
    clash : true ≡ false → ⊥
    clash e = cc

module _ (s : AgreementState) (a : WorkflowAction) (rs : List Role) (reason : Option Text) where
  -- The gate returns an outcome exactly when an edge leaves the state, the actor holds a role that
  -- the edge lists, and a reason that has ten code units once it is trimmed is given where the edge
  -- requires one; the outcome names the state, the target, the action and the rule.
  pub assert_transition-opens_iff :
      (o : TransitionOutcome)
      → (assert_transition s a rs reason ≡ ok o) ↔ (
          (includes (transitions a).sources s ≡ true)
          × HoldsRole a rs
          × ((transitions a).requires_reason ≡ true → GivesReason reason)
          × (o ≡ record {
            src = s;
            dst = (transitions a).target;
            action = a;
            rule = (transitions a).rule;
          }))
  assert_transition-opens_iff o =
      let at = assert_transition-ok_iff s a rs reason o in
      (
        λ h.
            let (allowed, edge) = at.0 h in
            (
              allowed.leaves,
              permits-HoldsRole a rs allowed.permitted,
              λ e. lacks_reason-GivesReason reason (allowed.reasoned e),
              edge,
            ),
        λ (leaves, held, given, edge). at.1 (
          record {
            leaves = leaves;
            permitted = HoldsRole-permits a rs held;
            reasoned = λ e. GivesReason-lacks_reason reason (given e);
          },
          edge,
        ),
      )

  -- The gate refuses with an invalid transition, which names the state, the target and the rule,
  -- exactly when no edge leaves the state; and otherwise as forbidden by the rule, exactly when the
  -- actor holds no role that the edge lists, or the edge requires a reason and none of ten code units
  -- once it is trimmed is given.
  pub assert_transition-refuses_iff :
      (e : DomainError)
      → (assert_transition s a rs reason ≡ err e) ↔ (
          ((includes (transitions a).sources s ≡ false)
            × (e ≡ invalid_transition s (transitions a).target (transitions a).rule))
          ⊎ ((includes (transitions a).sources s ≡ true)
              × (LacksRole a rs ⊎ ((transitions a).requires_reason ≡ true) × LacksReason reason)
              × (e ≡ forbidden (some (transitions a).rule))))
  unfolding permits
  assert_transition-refuses_iff e =
      let at = assert_transition-err_iff s a rs reason e in
      (
        λ h. elim (at.0 h) [
          | inl x ↦ inl x
          | inr (leaves, why, is) ↦ inr (
            leaves,
            elim why [
              | inl barred ↦ inl (any-misses rs (transitions a).roles barred)
              | inr (required, lacks) ↦ inr (required, lacks_reason-LacksReason reason lacks)
            ],
            is,
          )
        ],
        λ h. at.1 (elim h [
          | inl x ↦ inl x
          | inr (leaves, why, is) ↦ inr (
            leaves,
            elim why [
              | inl barred ↦ inl (LacksRole-permits a rs barred)
              | inr (required, lacks) ↦ inr (required, LacksReason-lacks_reason reason lacks)
            ],
            is,
          )
        ]),
      )
