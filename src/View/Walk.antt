-- ===== src/View/Walk.antt =====
-- BView::CountChildren and ChildAt read the list of the children; AddChild and RemoveChild refuse a view
-- by the members.
use libb.Prelude.{
  ℕ, zero, suc, ◌≤◌, ◌≡◌, refl, List, [], ◌∷◌, Option, none, some, arith, length, get_elem?,
}
use libb.View.{Links, count_from, child_from, count_children, child_at}
use libb.View.Chain.{Chain}
use libb.View.Children.{Represents}

count_from-Chain :
    (fuel : ℕ) (nx pv : ℕ → Option ℕ) (us : List ℕ) (p cur : Option ℕ)
    → length us ≤ fuel
    → Chain nx pv p cur us
    → count_from fuel nx cur ≡ length us
unfolding count_from Chain
count_from-Chain fuel nx pv [] p cur f h = rw (h) refl
count_from-Chain zero nx pv (x ∷ us) p cur f h = absurd (omega arith)
count_from-Chain (suc fuel) nx pv (x ∷ us) p cur f h =
    rw (h.0, count_from-Chain fuel nx pv us (some x) (nx x) (omega arith) (h.2)) refl

-- CountChildren counts the list, where the loop has a step for each child.
pub count_children-Represents :
    (fuel : ℕ) (w : Links) (kids : ℕ → List ℕ) (v : ℕ)
    → Represents w kids
    → length (kids v) ≤ fuel
    → count_children fuel v w ≡ length (kids v)
unfolding count_children
count_children-Represents fuel w kids v r f =
    count_from-Chain fuel w.next w.prev (kids v) none (w.first v) f (r.chains v)

child_from-Chain :
    (n : ℕ) (nx pv : ℕ → Option ℕ) (us : List ℕ) (p cur : Option ℕ)
    → Chain nx pv p cur us
    → child_from n nx cur ≡ get_elem? us n
unfolding child_from Chain
child_from-Chain n nx pv [] p cur h = rw (h) refl
child_from-Chain zero nx pv (x ∷ us) p cur h = rw (h.0) refl
child_from-Chain (suc n) nx pv (x ∷ us) p cur h =
    rw (h.0) (child_from-Chain n nx pv us (some x) (nx x) (h.2))

-- ChildAt reads the list, and a null pointer is what stands past its end.
pub child_at-Represents :
    (w : Links) (kids : ℕ → List ℕ) (v n : ℕ)
    → Represents w kids
    → child_at v n w ≡ get_elem? (kids v) n
unfolding child_at
child_at-Represents w kids v n r =
    child_from-Chain n w.next w.prev (kids v) none (w.first v) (r.chains v)
