-- ===== src/View/Children.antt =====
-- BView: the links of the views are the lists of the children of every view.
pub mod Remove
pub mod Add
use libb.Prelude.{
  ℕ, suc, ◌+◌, ◌≤◌, ◌≡◌, ◌≢◌, refl, sym, ap, ◌∙◌, inl, inr, List, [], ◌∷◌, ◌++◌, Option, none, some,
  Bool, true, false, if◌then◌else◌, ◌==◌, arith, Bool-cases, ==_iff, ==_self,
}
use libb.Prelude.Threads.{update, update_self, update_other}
use libb.Looper.{points_to}
use libb.Looper.Members.{occurs, bit, occurs-append}
use libb.View.{Links, set_link}
use libb.View.Chain.{
  Chain, Once, Disjoint, Avoids, Once-tail, Once-head, occurs-head, occurs-tail, Chain-next,
  Chain-prev,
}

-- The links of the views are those of the lists `kids`, and the parent of a view has it in its list.
pub record Represents (w : Links) (kids : ℕ → List ℕ) : Type 0 where
  pub chains : (v : ℕ) → Chain w.next w.prev none (w.first v) (kids v)
  pub member : (v h : ℕ) → occurs h (kids v) ≡ bit (points_to (w.parent h) v)

bit-le : (b : Bool) → bit b ≤ 1
bit-le true = omega arith
bit-le false = omega arith

bit-points : (o : Option ℕ) (v : ℕ) → 1 ≤ bit (points_to o v) → o ≡ some v
bit-points none v h = absurd (omega arith)
bit-points (some k) v h = ground arith

module _ (w : Links) (kids : ℕ → List ℕ) (r : Represents w kids) where
  pub Represents-Once : (v : ℕ) → Once (kids v)
  Represents-Once v i = rw (r.member v i) (bit-le (points_to (w.parent i) v))

  pub Represents-parent : (v i : ℕ) → 1 ≤ occurs i (kids v) → w.parent i ≡ some v
  Represents-parent v i h = bit-points (w.parent i) v (omega (arith, h, r.member v i))

  pub Represents-Disjoint : (v v' : ℕ) → v ≢ v' → Disjoint (kids v) (kids v')
  Represents-Disjoint v v' n i h =
      let b : (v == v') ≡ false = ground arith in
      r.member v' i ∙ rw (Represents-parent v i h, b) refl

  pub Represents-orphan : (c v : ℕ) → w.parent c ≡ none → occurs c (kids v) ≡ 0
  Represents-orphan c v h = r.member v c ∙ rw (h) refl

-- What a list with a view in the middle says of its parts.
module _ (c : ℕ) (us vs : List ℕ) where
  pub occurs-middle : (i : ℕ) → occurs i (us ++ c ∷ vs) ≡ occurs i us + occurs i (c ∷ vs)
  occurs-middle i = occurs-append i us (c ∷ vs)

  pub occurs-cons : (i : ℕ) → occurs i (c ∷ vs) ≡ bit (c == i) + occurs i vs
  unfolding occurs
  occurs-cons i = ground arith

  module _ (o : Once (us ++ c ∷ vs)) where
    pub Once-prefix : Once us
    Once-prefix i = omega (arith, o i, occurs-middle i)

    pub Once-suffix : Once vs
    Once-suffix i = omega (arith, o i, occurs-middle i, occurs-tail i c vs)

    pub middle-prefix : occurs c us ≡ 0
    middle-prefix = omega (arith, o c, occurs-middle c, occurs-head c vs)

    pub middle-suffix : occurs c vs ≡ 0
    middle-suffix = omega (arith, o c, occurs-middle c, occurs-head c vs)

    pub Disjoint-prefix : Disjoint us vs
    Disjoint-prefix i h = omega (arith, h, o i, occurs-middle i, occurs-tail i c vs)

    pub Disjoint-suffix : Disjoint vs us
    Disjoint-suffix i h = omega (arith, h, o i, occurs-middle i, occurs-tail i c vs)
