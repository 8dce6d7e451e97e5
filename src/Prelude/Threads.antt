-- ===== src/Prelude/Threads.antt =====
-- A state for each thread, numbered from 0, and counts over the first `n` of them.
use libb.Prelude.{
  ℕ, zero, suc, ◌+◌, ◌≤◌, ◌<◌, ◌≡◌, ◌≢◌, refl, sym, ◌∙◌, inl, inr, arith, if◌then◌else◌, ◌==◌,
  ==_self, ==_iff, Bool-cases,
}

abbrev pub update {ℓ} : {A : Type ℓ} → (ℕ → A) → ℕ → A → ℕ → A
update f i a j = if i == j then a else f j

module _ {ℓ} {A : Type ℓ} where
  pub update_self : (f : ℕ → A) (i : ℕ) (a : A) → update f i a i ≡ a
  update_self f i a = rw (==_self i)

  pub update_other : (f : ℕ → A) (i j : ℕ) (a : A) → i ≢ j → update f i a j ≡ f j
  update_other f i j a h = elim (Bool-cases (i == j)) [
    | inl e ↦ absurd (h ((==_iff i j).0 e))
    | inr e ↦ rw e
  ]

-- How much the threads below `n` weigh together.
module _ {ℓ} {A : Type ℓ} (weight : A → ℕ) where
  unfoldable pub weigh : ℕ → (ℕ → A) → ℕ
  weigh zero f = 0
  weigh (suc n) f = weight (f n) + weigh n f

  weigh-outside : (n : ℕ) (f : ℕ → A) (i : ℕ) (a : A) → n ≤ i → weigh n (update f i a) ≡ weigh n f
  unfolding weigh
  weigh-outside zero f i a h = refl
  weigh-outside (suc n) f i a h =
      rw (update_other f i n a (λ e. omega arith), weigh-outside n f i a (omega arith))

  -- A move of one thread exchanges its weight.
  pub weigh-update :
      (n : ℕ) (f : ℕ → A) (i : ℕ) (a : A)
      → i < n
      → weigh n (update f i a) + weight (f i) ≡ weigh n f + weight a
  unfolding weigh
  weigh-update zero f i a h = elim h [ ]
  weigh-update (suc n) f i a h = elim (Bool-cases (i == n)) [
    | inl e ↦
        let e' : i ≡ n = (==_iff i n).0 e in
        rw (e', update_self f n a, weigh-outside n f n a (omega arith)) (omega arith)
    | inr e ↦
        let ne : i ≢ n = ground arith in
        rw (update_other f i n a ne) (omega (arith, weigh-update n f i a (omega arith)))
  ]

  pub weight-le-weigh : (n : ℕ) (f : ℕ → A) (i : ℕ) → i < n → weight (f i) ≤ weigh n f
  unfolding weigh
  weight-le-weigh zero f i h = elim h [ ]
  weight-le-weigh (suc n) f i h = elim (Bool-cases (i == n)) [
    | inl e ↦ rw ((==_iff i n).0 e) (omega arith)
    | inr e ↦ let ne : i ≢ n = ground arith in omega (arith, weight-le-weigh n f i (omega arith))
  ]

  -- Under a total of 1 two threads that weigh are the same.
  pub weigh_unique :
      (n : ℕ) (f : ℕ → A) (i j : ℕ)
      → weigh n f ≤ 1
      → i < n
      → j < n
      → 0 < weight (f i)
      → 0 < weight (f j)
      → i ≡ j
  unfolding weigh
  weigh_unique zero f i j t hi hj wi wj = elim hi [ ]
  weigh_unique (suc n) f i j t hi hj wi wj = elim (Bool-cases (i == n)) [
    | inl e ↦ elim (Bool-cases (j == n)) [
      | inl q ↦ (==_iff i n).0 e ∙ sym ((==_iff j n).0 q)
      | inr q ↦
          let top : 0 < weight (f n) = rw (← (==_iff i n).0 e) wi in
          absurd (omega (arith, weight-le-weigh n f j (ground arith)))
    ]
    | inr e ↦ elim (Bool-cases (j == n)) [
      | inl q ↦
          let top : 0 < weight (f n) = rw (← (==_iff j n).0 q) wj in
          absurd (omega (arith, weight-le-weigh n f i (ground arith)))
      | inr q ↦ weigh_unique n f i j (omega arith) (ground arith) (ground arith) wi wj
    ]
  ]

  pub weigh-eq-zero : (n : ℕ) (f : ℕ → A) → ((i : ℕ) → i < n → weight (f i) ≡ 0) → weigh n f ≡ 0
  unfolding weigh
  weigh-eq-zero zero f h = refl
  weigh-eq-zero (suc n) f h =
      omega (arith, h n (omega arith), weigh-eq-zero n f (λ i l. h i (omega arith)))
