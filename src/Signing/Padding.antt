-- ===== src/Signing/Padding.antt =====
-- The counter in an execution reference: how next_execution_reference of
-- api/migrations/017_execution_reference.ts pads it.
use onlineaggrement.Base.{
  ℕ, suc, ◌+◌, ◌-◌, ◌/◌, ◌%◌, ◌<◌, ◌≤◌, ◌≡◌, refl, sym, ap, ◌∙◌, inl, inr, [], ◌∷◌, ◌++◌, Text,
  to_upper_case, digits, decimal, lpad, ltb, Bool-cases, arith,
}
use mathlib.Core.List.{append_cancel_left}
use onlineaggrement.Signing.Reference.{reference}

two_digits : {a b c d : ℕ} (s : Text) → a ≡ c → b ≡ d → ◌≡◌ {A = Text} (a ∷ b ∷ s) (c ∷ d ∷ s)
two_digits s h k = cc

three_digits :
    {a b c d e f : ℕ} → a ≡ d → b ≡ e → c ≡ f → ◌≡◌ {A = Text} (a ∷ b ∷ c ∷ []) (d ∷ e ∷ f ∷ [])
three_digits h k l = cc

enough : (n : ℕ) {f g : ℕ} → f ≡ g → digits f n [] ≡ digits g n []
enough n h = ap (λ f. digits f n []) h

module _ (n : ℕ) (acc : Text) where
  digits-last : (f : ℕ) → n < 10 → digits (suc f) n acc ≡ (48 + n % 10) ∷ acc
  unfolding digits
  digits-last f h = ground arith

  digits-more : (f : ℕ) → 10 ≤ n → digits (suc f) n acc ≡ digits f (n / 10) ((48 + n % 10) ∷ acc)
  unfolding digits
  digits-more f h = ground arith

-- The digits of a number with two, three and four of them.
digits-two :
    (n f : ℕ) (acc : Text)
    → 10 ≤ n
    → n < 100
    → digits (suc (suc f)) n acc ≡ (48 + n / 10) ∷ (48 + n % 10) ∷ acc
digits-two n f acc l h =
    digits-more n acc (suc f) l
    ∙ digits-last (n / 10) ((48 + n % 10) ∷ acc) f (omega arith)
    ∙ ap (λ c. c ∷ (48 + n % 10) ∷ acc) (omega arith)

digits-three :
    (n f : ℕ) (acc : Text)
    → 100 ≤ n
    → n < 1000
    → digits (suc (suc (suc f))) n acc ≡ (48 + n / 100) ∷ (48 + n / 10 % 10) ∷ (48 + n % 10) ∷ acc
digits-three n f acc l h =
    digits-more n acc (suc (suc f)) (omega arith)
    ∙ digits-two (n / 10) f ((48 + n % 10) ∷ acc) (omega arith) (omega arith)
    ∙ ap (λ c. c ∷ (48 + n / 10 % 10) ∷ (48 + n % 10) ∷ acc) (omega arith)

digits-four :
    (n f : ℕ) (acc : Text)
    → 1000 ≤ n
    → n < 10000
    → digits (suc (suc (suc (suc f)))) n acc
      ≡ (48 + n / 1000) ∷ (48 + n / 100 % 10) ∷ (48 + n / 10 % 10) ∷ (48 + n % 10) ∷ acc
digits-four n f acc l h =
    digits-more n acc (suc (suc (suc f))) (omega arith)
    ∙ digits-three (n / 10) f ((48 + n % 10) ∷ acc) (omega arith) (omega arith)
    ∙ two_digits ((48 + n / 10 % 10) ∷ (48 + n % 10) ∷ acc) (omega arith) (omega arith)

module _ (n : ℕ) where
  decimal-one : n < 10 → decimal n ≡ (48 + n % 10) ∷ []
  unfolding decimal
  decimal-one h = digits-last n [] n h

  decimal-two : 10 ≤ n → n < 100 → decimal n ≡ (48 + n / 10) ∷ (48 + n % 10) ∷ []
  unfolding decimal
  decimal-two l h =
      enough n {f = suc n} {g = suc (suc (n - 1))} (omega arith) ∙ digits-two n (n - 1) [] l h

  decimal-three :
      100 ≤ n → n < 1000 → decimal n ≡ (48 + n / 100) ∷ (48 + n / 10 % 10) ∷ (48 + n % 10) ∷ []
  unfolding decimal
  decimal-three l h =
      enough n {f = suc n} {g = suc (suc (suc (n - 2)))} (omega arith)
      ∙ digits-three n (n - 2) [] l h

  decimal-four :
      1000 ≤ n
      → n < 10000
      → decimal n ≡ (48 + n / 1000) ∷ (48 + n / 100 % 10) ∷ (48 + n / 10 % 10) ∷ (48 + n % 10) ∷ []
  unfolding decimal
  decimal-four l h =
      enough n {f = suc n} {g = suc (suc (suc (suc (n - 3))))} (omega arith)
      ∙ digits-four n (n - 3) [] l h

-- The digits of a counter below 1000.
pub lpad-decimal :
    (n : ℕ)
    → n < 1000
    → lpad (decimal n) 3 ≡ (48 + n / 100) ∷ (48 + n / 10 % 10) ∷ (48 + n % 10) ∷ []
unfolding lpad
lpad-decimal n h = elim (Bool-cases (ltb n 10)) [
  | inl small ↦
      let l : n < 10 = ground arith in
      ap (λ s. lpad s 3) (decimal-one n l) ∙ three_digits (omega arith) (omega arith) refl
  | inr large ↦ elim (Bool-cases (ltb n 100)) [
    | inl small ↦
        let l : n < 100 = ground arith in
        ap (λ s. lpad s 3) (decimal-two n (ground arith) l)
        ∙ three_digits (omega arith) (omega arith) refl
    | inr larger ↦ ap (λ s. lpad s 3) (decimal-three n (ground arith) h)
  ]
]

-- From 1000 on the padding cuts the last digit.
lpad-cuts : (n : ℕ) → 1000 ≤ n → n < 10000 → lpad (decimal n) 3 ≡ lpad (decimal (n / 10)) 3
unfolding lpad
lpad-cuts n l h =
    ap (λ s. lpad s 3) (decimal-four n l h)
    ∙ three_digits (omega arith) (omega arith) refl
    ∙ sym (ap (λ s. lpad s 3) (decimal-three (n / 10) (omega arith) (omega arith)))

three_digits-injective :
    {a b c d e f : ℕ}
    → ◌≡◌ {A = Text} (a ∷ b ∷ c ∷ []) (d ∷ e ∷ f ∷ [])
    → (a ≡ d) × (b ≡ e) × (c ≡ f)
three_digits-injective h = (cc, cc, cc)

tail-cancel : {c : ℕ} {s t : Text} → c ∷ s ≡ c ∷ t → s ≡ t
tail-cancel h = cc

-- Counters below 1000 give different references, whatever the bank, the agent and the year are.
pub reference-injective :
    (bank_code agent_code fy : Text) (m n : ℕ)
    → m < 1000
    → n < 1000
    → reference bank_code agent_code fy m ≡ reference bank_code agent_code fy n
    → m ≡ n
unfolding reference
reference-injective bank_code agent_code fy m n h k e =
    let same = tail-cancel (
      append_cancel_left fy _ _ (
        tail-cancel (
          append_cancel_left (to_upper_case agent_code) _ _
            (tail-cancel (append_cancel_left (to_upper_case bank_code) _ _ e))))) in
    let (hundreds, tens, units) =
      three_digits-injective (sym (lpad-decimal m h) ∙ same ∙ lpad-decimal n k) in
    omega arith

-- A counter of four digits gives the reference that the counter without its last digit gave.
pub reference-cuts :
    (bank_code agent_code fy : Text) (n : ℕ)
    → 1000 ≤ n
    → n < 10000
    → reference bank_code agent_code fy n ≡ reference bank_code agent_code fy (n / 10)
unfolding reference
reference-cuts bank_code agent_code fy n l h =
    ap
      (λ s.
        to_upper_case bank_code
        ++ (b'/' ∷ (to_upper_case agent_code ++ (b'/' ∷ (fy ++ (b'/' ∷ s))))))
      (lpad-cuts n l h)
