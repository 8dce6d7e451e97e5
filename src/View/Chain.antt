-- ===== src/View/Chain.antt =====
-- BView: the segments of a doubly linked list of views, and what a write outside of them leaves.
pub mod Ends
use mathlib.Core.Path.{subst}
use libb.Prelude.{
  ℕ, suc, ◌+◌, ◌≤◌, ◌≡◌, ◌≢◌, ◌⊎◌, refl, sym, ap, ◌∙◌, inl, inr, List, [], ◌∷◌, ◌++◌, Option, none,
  some, Bool, true, false, if◌then◌else◌, ◌==◌, arith, Bool-cases, ==_iff, ==_self,
}
use libb.Prelude.Threads.{update, update_self, update_other}
use libb.Looper.{points_to}
use libb.Looper.Members.{occurs}
use libb.View.{set_link}

module _ (nx pv : ℕ → Option ℕ) where
  -- From `cur` with `p` before it, the views `xs` up to `e` with `q` before it.
  unfoldable pub Segment : Option ℕ → Option ℕ → List ℕ → Option ℕ → Option ℕ → Type 0
  Segment p cur [] q e = (cur ≡ e) × (p ≡ q)
  Segment p cur (x ∷ xs) q e = (cur ≡ some x) × (pv x ≡ p) × Segment (some x) (nx x) xs q e

  -- From `cur` with `p` before it, the views `xs` to the end of the list.
  unfoldable pub Chain : Option ℕ → Option ℕ → List ℕ → Type 0
  Chain p cur [] = cur ≡ none
  Chain p cur (x ∷ xs) = (cur ≡ some x) × (pv x ≡ p) × Chain (some x) (nx x) xs

  pub Chain-split :
      (c : ℕ) (us vs : List ℕ) (p cur : Option ℕ)
      → Chain p cur (us ++ c ∷ vs)
      → Segment p cur us (pv c) (some c) × Chain (some c) (nx c) vs
  unfolding Chain Segment
  Chain-split c [] vs p cur h = ((h.0, sym (h.1)), h.2)
  Chain-split c (a ∷ us) vs p cur h =
      let r = Chain-split c us vs (some a) (nx a) (h.2) in ((h.0, h.1, r.0), r.1)

  pub Chain-join :
      (us vs : List ℕ) (p cur q e : Option ℕ)
      → Segment p cur us q e
      → Chain q e vs
      → Chain p cur (us ++ vs)
  unfolding Chain Segment
  Chain-join [] vs p cur q e s h = rw (s.0, s.1) h
  Chain-join (a ∷ us) vs p cur q e s h = (s.0, s.1, Chain-join us vs (some a) (nx a) q e (s.2) h)

  -- The last view of a list.
  unfoldable pub end_of : Option ℕ → List ℕ → Option ℕ
  end_of p [] = p
  end_of p (x ∷ xs) = end_of (some x) xs

  pub Chain-Segment :
      (us : List ℕ) (p cur : Option ℕ) → Chain p cur us → Segment p cur us (end_of p us) none
  unfolding Chain Segment end_of
  Chain-Segment [] p cur h = (h, refl)
  Chain-Segment (a ∷ us) p cur h = (h.0, h.1, Chain-Segment us (some a) (nx a) (h.2))

-- No view stands in both lists.
abbrev pub Disjoint : List ℕ → List ℕ → Type 0
Disjoint us vs = (i : ℕ) → 1 ≤ occurs i us → occurs i vs ≡ 0

abbrev pub Once : List ℕ → Type 0
Once us = (i : ℕ) → occurs i us ≤ 1

abbrev pub Avoids : Option ℕ → List ℕ → Type 0
Avoids none us = Unit
Avoids (some i) us = occurs i us ≡ 0

pub occurs-head : (i : ℕ) (us : List ℕ) → occurs i (i ∷ us) ≡ suc (occurs i us)
unfolding occurs
occurs-head i us = rw (==_self i)

pub occurs-tail : (i x : ℕ) (us : List ℕ) → occurs i us ≤ occurs i (x ∷ us)
unfolding occurs
occurs-tail i x us = ground arith

pub occurs-zero : (i x : ℕ) (us : List ℕ) → occurs i (x ∷ us) ≡ 0 → (i ≢ x) × (occurs i us ≡ 0)
unfolding occurs
occurs-zero i x us h = ground arith

pub Once-tail : (x : ℕ) (us : List ℕ) → Once (x ∷ us) → Once us
Once-tail x us o i = omega (arith, o i, occurs-tail i x us)

pub Once-head : (x : ℕ) (us : List ℕ) → Once (x ∷ us) → occurs x us ≡ 0
Once-head x us o = omega (arith, o x, occurs-head x us)

module _ (nx pv : ℕ → Option ℕ) where
  -- Writes to the members of a view outside of the segment.
  pub Segment-next :
      (us : List ℕ) (p cur q e i : Option ℕ) (a : Option ℕ)
      → Avoids i us
      → Segment nx pv p cur us q e
      → Segment (set_link i a nx) pv p cur us q e
  unfolding Segment
  Segment-next us p cur q e none a v h = h
  Segment-next [] p cur q e (some i) a v h = h
  Segment-next (x ∷ us) p cur q e (some i) a v h =
      let d = occurs-zero i x us v in
      (
        h.0,
        h.1,
        rw (update_other nx i x a (d.0))
            (Segment-next us (some x) (nx x) q e (some i) a (d.1) (h.2)),
      )

  pub Segment-prev :
      (us : List ℕ) (p cur q e i : Option ℕ) (a : Option ℕ)
      → Avoids i us
      → Segment nx pv p cur us q e
      → Segment nx (set_link i a pv) p cur us q e
  unfolding Segment
  Segment-prev us p cur q e none a v h = h
  Segment-prev [] p cur q e (some i) a v h = h
  Segment-prev (x ∷ us) p cur q e (some i) a v h =
      let d = occurs-zero i x us v in
      (
        h.0,
        update_other pv i x a (d.0) ∙ h.1,
        Segment-prev us (some x) (nx x) q e (some i) a (d.1) (h.2),
      )

  pub Chain-next :
      (us : List ℕ) (p cur i : Option ℕ) (a : Option ℕ)
      → Avoids i us
      → Chain nx pv p cur us
      → Chain (set_link i a nx) pv p cur us
  unfolding Chain
  Chain-next us p cur none a v h = h
  Chain-next [] p cur (some i) a v h = h
  Chain-next (x ∷ us) p cur (some i) a v h =
      let d = occurs-zero i x us v in
      (
        h.0,
        h.1,
        rw (update_other nx i x a (d.0)) (Chain-next us (some x) (nx x) (some i) a (d.1) (h.2)),
      )

  pub Chain-prev :
      (us : List ℕ) (p cur i : Option ℕ) (a : Option ℕ)
      → Avoids i us
      → Chain nx pv p cur us
      → Chain nx (set_link i a pv) p cur us
  unfolding Chain
  Chain-prev us p cur none a v h = h
  Chain-prev [] p cur (some i) a v h = h
  Chain-prev (x ∷ us) p cur (some i) a v h =
      let d = occurs-zero i x us v in
      (h.0, update_other pv i x a (d.0) ∙ h.1, Chain-prev us (some x) (nx x) (some i) a (d.1) (h.2))

  Chain-start-cons :
      (x : ℕ) (us : List ℕ) (q : Option ℕ)
      → Once (x ∷ us)
      → Chain nx pv (some x) (nx x) us
      → Chain nx (set_link (some x) q pv) q (some x) (x ∷ us)
  unfolding Chain
  Chain-start-cons x us q o h =
      (refl, update_self pv x q, Chain-prev us (some x) (nx x) (some x) q (Once-head x us o) h)

  -- The first view of a chain gets another one before it.
  pub Chain-start :
      (us : List ℕ) (p cur q : Option ℕ)
      → Once us
      → Chain nx pv p cur us
      → Chain nx (set_link cur q pv) q cur us
  unfolding Chain
  Chain-start [] p cur q o h = h
  Chain-start (x ∷ us) p cur q o h =
      subst (λ c. Chain nx (set_link c q pv) q c (x ∷ us)) (sym (h.0))
        (Chain-start-cons x us q o (h.2))

  -- The last view of a segment avoids what the segment is disjoint from.
  pub Segment-Avoids :
      (us vs : List ℕ) (p cur q e : Option ℕ)
      → Disjoint us vs
      → Avoids p vs
      → Segment nx pv p cur us q e
      → Avoids q vs
  unfolding Segment
  Segment-Avoids [] vs p cur q e d a h = rw (sym (h.1)) a
  Segment-Avoids (x ∷ us) vs p cur q e d a h =
      Segment-Avoids us vs (some x) (nx x) q e (λ i g. d i (omega (arith, g, occurs-tail i x us)))
        (d x (omega (arith, occurs-head x us))) (h.2)

  pub Chain-Avoids :
      (us vs : List ℕ) (p cur : Option ℕ) → Disjoint us vs → Chain nx pv p cur us → Avoids cur vs
  unfolding Chain
  Chain-Avoids [] vs p cur d h = rw (h) tt
  Chain-Avoids (x ∷ us) vs p cur d h = rw (h.0) (d x (omega (arith, occurs-head x us)))
