-- ===== src/View/Chain/Ends.antt =====
-- BView: the end of a segment is written through the pointer to its last view, or to its first.
use mathlib.Core.Path.{subst}
use libb.Prelude.{
  ℕ, ◌≡◌, ◌≢◌, ◌⊎◌, refl, sym, ◌∙◌, inl, inr, List, [], ◌∷◌, Option, none, some, true, false, ◌==◌,
  arith, ==_self,
}
use libb.Prelude.Threads.{update_self, update_other}
use libb.Looper.{points_to}
use libb.Looper.Members.{occurs}
use libb.View.{set_link}
use libb.View.Chain.{Segment, Once, Once-head, Once-tail, occurs-zero}

-- The start of a segment after its end is written.
abbrev pub start_at : Option ℕ → Option ℕ → Option ℕ → Option ℕ
start_at none e cur = e
start_at (some q) e cur = cur

module _ (nx pv : ℕ → Option ℕ) where
  -- The last view is none that stands elsewhere.
  Segment-other :
      (us : List ℕ) (y i : ℕ) (cur q e a : Option ℕ)
      → i ≢ y
      → occurs i us ≡ 0
      → Segment nx pv (some y) cur us q e
      → set_link q a nx i ≡ nx i
  unfolding Segment
  Segment-other [] y i cur q e a n o h =
      subst (λ q. set_link q a nx i ≡ nx i) (h.1) (update_other nx y i a (λ e. n (sym e)))
  Segment-other (x ∷ us) y i cur q e a n o h =
      let d = occurs-zero i x us o in Segment-other us x i (nx x) q e a (d.0) (d.1) (h.2)

  Segment-finish_at :
      (us : List ℕ) (x : ℕ) (q e e' : Option ℕ)
      → Once (x ∷ us)
      → Segment nx pv (some x) (nx x) us q e
      → Segment (set_link q e' nx) pv (some x) (set_link q e' nx x) us q e'
  unfolding Segment
  Segment-finish_at [] x q e e' o h =
      (subst (λ q. set_link q e' nx x ≡ e') (h.1) (update_self nx x e'), h.1)
  Segment-finish_at (y ∷ us) x q e e' o h =
      let d = occurs-zero x y us (Once-head x (y ∷ us) o) in
      (
        Segment-other us y x (nx y) q e e' (d.0) (d.1) (h.2) ∙ h.0,
        h.1,
        Segment-finish_at us y q e e' (Once-tail x (y ∷ us) o) (h.2),
      )

  -- Past a view, the last one is not null.
  pub Segment-some :
      (us : List ℕ) (x : ℕ) (cur q e : Option ℕ)
      → Segment nx pv (some x) cur us q e
      → (i : ℕ) × (q ≡ some i)
  unfolding Segment
  Segment-some [] x cur q e h = (x, sym (h.1))
  Segment-some (y ∷ us) x cur q e h = Segment-some us y (nx y) q e (h.2)

  -- Another end for a segment at the start of a list.
  pub Segment-finish :
      (us : List ℕ) (cur q e e' : Option ℕ)
      → Once us
      → Segment nx pv none cur us q e
      → Segment (set_link q e' nx) pv none (start_at q e' cur) us q e'
  unfolding Segment
  Segment-finish [] cur q e e' o h = (subst (λ q. start_at q e' cur ≡ e') (h.1) refl, h.1)
  Segment-finish (x ∷ us) cur q e e' o h =
      let (i, s) = Segment-some us x (nx x) q e (h.2) in
      (
        subst (λ q. start_at q e' cur ≡ some x) (sym s) (h.0),
        h.1,
        Segment-finish_at us x q e e' o (h.2),
      )

  -- A list starts with a view that the segment lacks only if the segment is empty.
  pub Segment-start :
      (us : List ℕ) (cur q : Option ℕ) (c : ℕ)
      → occurs c us ≡ 0
      → Segment nx pv none cur us q (some c)
      → ((q ≡ none) × (points_to cur c ≡ true))
        ⊎ ((i : ℕ) × ((q ≡ some i) × (points_to cur c ≡ false)))
  unfolding Segment
  Segment-start [] cur q c o h = inl (sym (h.1), rw (h.0) (==_self c))
  Segment-start (x ∷ us) cur q c o h =
      let (i, s) = Segment-some us x (nx x) q (some c) (h.2) in
      let n : c ≢ x = (occurs-zero c x us o).0 in
      let b : (x == c) ≡ false = ground arith in inr (i, (s, rw (h.0) b))
