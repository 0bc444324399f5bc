-- ===== src/Receiver/Rates.antt =====
-- Which numbers of requests fail, and how many of the first ones.
use native.Mathlib.Nat.{
  mod-lt, suc-mod, mod_self, mod-eq_of_lt, div-add-mod, div-eq_of_eq-mul_right, div-eq_of_lt-le,
  zero-div,
}
use webhook_relay_api.Prelude.{
  one_if, ℕ, zero, suc, ◌+◌, ◌*◌, ◌/◌, ◌%◌, ◌≤◌, ◌<◌, ◌≡◌, refl, sym, ap, ◌∙◌, inl, inr, List, [],
  ◌∷◌, ◌++◌, ◌==◌, eqb, if◌then◌else◌, arith, Bool-cases, eq_iff, ◌≢◌,
}
use webhook_relay_api.Prelude.Int.{ℤ, pos, negsuc}
use webhook_relay_api.Config.{at_least_one}
use webhook_relay_api.Receiver.{ReceiverSettings, should_fail}

-- The numbers of a list that fail.
abbrev pub failing : ReceiverSettings → List ℕ → ℕ
failing settings [] = 0
failing settings (n ∷ ns) = one_if (should_fail settings n) + failing settings ns

-- The numbers up to `n` that fail.
abbrev pub failing_up_to : ReceiverSettings → ℕ → ℕ
failing_up_to settings zero = 0
failing_up_to settings (suc n) = one_if (should_fail settings (suc n)) + failing_up_to settings n

pub failing-middle :
    (settings : ReceiverSettings) (before : List ℕ) (n : ℕ) (behind : List ℕ)
    → failing settings (before ++ n ∷ behind)
      ≡ one_if (should_fail settings n) + failing settings (before ++ behind)
failing-middle settings [] n behind = refl
failing-middle settings (m ∷ before) n behind =
    omega (arith, failing-middle settings before n behind)

div-suc : (f n : ℕ) → 0 < f → suc n / f ≡ one_if (eqb (suc n % f) 0) + n / f
div-suc f n pos_f =
    let r-lt = mod-lt n pos_f in
    let parts = div-add-mod n f in
    elim (Bool-cases (eqb (suc (n % f)) f)) [
      | inl last ↦
          let whole : suc (n % f) ≡ f = ground arith in
          let rest : suc n % f ≡ 0 = suc-mod n f ∙ ap (λ r. r % f) whole ∙ mod_self f in
          let more : suc n ≡ f * (n / f + 1) = omega (arith) in
          rw rest (div-eq_of_eq-mul_right pos_f more ∙ omega arith)
      | inr before ↦
          let lt : suc (n % f) < f = ground arith in
          let rest : suc n % f ≡ suc (n % f) = suc-mod n f ∙ mod-eq_of_lt lt in
          let low : n / f * f ≤ suc n = omega arith in
          let high : suc n < (n / f + 1) * f = omega arith in
          rw rest (div-eq_of_lt-le f low high ∙ ground arith)
    ]

-- One of `fail_every` numbers fails in the mode `flaky`, and none in another.
failing_up_to-flaky :
    (settings : ReceiverSettings) (n : ℕ)
    → settings.mode ≡ "flaky"
    → 0 < settings.fail_every
    → failing_up_to settings n ≡ n / settings.fail_every
unfolding should_fail
failing_up_to-flaky settings zero flaky positive = sym (zero-div settings.fail_every)
failing_up_to-flaky settings (suc n) flaky positive = ground (
  arith,
  flaky,
  (eq_iff settings.mode "flaky"),
  failing_up_to-flaky settings n flaky positive,
  div-suc settings.fail_every n positive,
)

failing_up_to-other :
    (settings : ReceiverSettings) (n : ℕ) → settings.mode ≢ "flaky" → failing_up_to settings n ≡ 0
unfolding should_fail
failing_up_to-other settings zero other = refl
failing_up_to-other settings (suc n) other =
    ground (arith, other, (eq_iff settings.mode "flaky"), failing_up_to-other settings n other)

pub every_pos : (n : ℤ) → 0 < at_least_one n
every_pos (pos n) = ground arith
every_pos (negsuc n) = omega arith

pub failing_up_to_lem :
    (settings : ReceiverSettings) (n : ℕ)
    → 0 < settings.fail_every
    → failing_up_to settings n ≡ (if settings.mode == "flaky" then n / settings.fail_every else 0)
failing_up_to_lem settings n positive = elim (Bool-cases (settings.mode == "flaky")) [
  | inl flaky ↦
      rw flaky (failing_up_to-flaky settings n ((eq_iff settings.mode "flaky").0 flaky) positive)
  | inr other ↦ rw other (
      failing_up_to-other settings n
        (λ same. absurd (ground (arith, eq_iff settings.mode "flaky"))))
]
