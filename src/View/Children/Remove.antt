-- ===== src/View/Children/Remove.antt =====
-- BView::RemoveChild: the lists of the children lose the view, and nothing else.
use mathlib.Core.Path.{subst}
use libb.Prelude.{
  ℕ, ◌+◌, ◌≡◌, ◌≢◌, refl, sym, ap, ◌∙◌, inl, inr, List, ◌∷◌, ◌++◌, Option, none, some, true, ◌==◌,
  arith, Bool-cases, ==_iff, ==_self,
}
use libb.Prelude.Threads.{update, update_self, update_other}
use libb.Looper.{points_to}
use libb.Looper.Members.{occurs, bit, occurs-append}
use libb.View.{Links, set_link, remove_child}
use libb.View.Chain.{
  Chain, Segment, Once, Disjoint, occurs-head, occurs-zero, Chain-next, Chain-prev, Chain-split,
  Chain-join, Chain-start, Segment-next, Segment-prev, Segment-Avoids, Chain-Avoids,
}
use libb.View.Chain.Ends.{start_at, Segment-finish, Segment-start}
use libb.View.Children.{
  Represents, Represents-Once, Represents-parent, Represents-Disjoint, occurs-middle, occurs-cons,
  Once-prefix, Once-suffix, middle-prefix, middle-suffix, Disjoint-prefix, Disjoint-suffix,
}

-- A list without its view `c`, with the view `q` before it.
module _ (nx pv : ℕ → Option ℕ) (c : ℕ) where
  abbrev next_without : Option ℕ → ℕ → Option ℕ
  next_without q = update (set_link q (nx c) nx) c none

  abbrev prev_without : Option ℕ → ℕ → Option ℕ
  prev_without q = update (set_link (nx c) q pv) c none

  remove-Chain_at :
      (us vs : List ℕ) (q cur : Option ℕ)
      → Once (us ++ c ∷ vs)
      → Segment nx pv none cur us q (some c)
      → Chain nx pv (some c) (nx c) vs
      → Chain (next_without q) (prev_without q) none (start_at q (nx c) cur) (us ++ vs)
  remove-Chain_at us vs q cur o s t =
      let n = nx c in
      let nx1 = set_link q n nx in
      let pv1 = set_link n q pv in
      let st = start_at q n cur in
      let au : occurs c us ≡ 0 = middle-prefix c us vs o in
      let av : occurs c vs ≡ 0 = middle-suffix c us vs o in
      let s1 = Segment-finish nx pv us cur q (some c) n (Once-prefix c us vs o) s in
      let an = Chain-Avoids nx pv vs us (some c) n (Disjoint-suffix c us vs o) t in
      let s2 = Segment-prev nx1 pv us none st q n n q an s1 in
      let s3 = Segment-next nx1 pv1 us none st q n (some c) none au s2 in
      let s4 = Segment-prev (update nx1 c none) pv1 us none st q n (some c) none au s3 in
      let aq = Segment-Avoids nx pv us vs none cur q (some c) (Disjoint-prefix c us vs o) tt s in
      let t1 = Chain-start nx pv vs (some c) n q (Once-suffix c us vs o) t in
      let t2 = Chain-next nx pv1 vs q n q n aq t1 in
      let t3 = Chain-next nx1 pv1 vs q n (some c) none av t2 in
      let t4 = Chain-prev (update nx1 c none) pv1 vs q n (some c) none av t3 in
      Chain-join (update nx1 c none) (update pv1 c none) us vs none st q n s4 t4

  -- The other lists stay.
  remove-Chain_other :
      (us vs ws : List ℕ) (q cur cur' : Option ℕ)
      → Disjoint (us ++ c ∷ vs) ws
      → Segment nx pv none cur us q (some c)
      → Chain nx pv (some c) (nx c) vs
      → Chain nx pv none cur' ws
      → Chain (next_without q) (prev_without q) none cur' ws
  remove-Chain_other us vs ws q cur cur' d s t h =
      let n = nx c in
      let nx1 = set_link q n nx in
      let pv1 = set_link n q pv in
      let ac : occurs c ws ≡ 0 = d c (omega (arith, occurs-middle c us vs c, occurs-head c vs)) in
      let aq =
        Segment-Avoids nx pv us ws none cur q (some c)
          (λ i g. d i (omega (arith, occurs-middle c us vs i))) tt s in
      let an =
        Chain-Avoids nx pv vs ws (some c) n
          (λ i g. d i (omega (arith, occurs-middle c us vs i, occurs-cons c us vs i))) t in
      let h1 = Chain-next nx pv ws none cur' q n aq h in
      let h2 = Chain-prev nx1 pv ws none cur' n q an h1 in
      let h3 = Chain-next nx1 pv1 ws none cur' (some c) none ac h2 in
      Chain-prev (update nx1 c none) pv1 ws none cur' (some c) none ac h3

without-member :
    (par : ℕ → Option ℕ) (ks : ℕ → List ℕ) (v c h : ℕ) (us vs : List ℕ)
    → ((v h : ℕ) → occurs h (ks v) ≡ bit (points_to (par h) v))
    → ks v ≡ us ++ c ∷ vs
    → occurs h (us ++ vs) + bit (c == h) ≡ bit (points_to (par h) v)
without-member par ks v c h us vs m k =
    let whole : occurs h (us ++ c ∷ vs) ≡ bit (points_to (par h) v) =
      ap (occurs h) (sym k) ∙ m v h in
    omega (arith, whole, occurs-append h us vs, occurs-middle c us vs h, occurs-cons c us vs h)

-- The lists without the view, where the parents lose it.
removed-member :
    (par : ℕ → Option ℕ) (ks : ℕ → List ℕ) (v c v' h : ℕ) (us vs : List ℕ)
    → ((v h : ℕ) → occurs h (ks v) ≡ bit (points_to (par h) v))
    → par c ≡ some v
    → ks v ≡ us ++ c ∷ vs
    → occurs h (update ks v (us ++ vs) v') ≡ bit (points_to (update par c none h) v')
removed-member par ks v c v' h us vs m p k =
    let lost : occurs h (us ++ vs) + bit (c == h) ≡ bit (points_to (par h) v) =
      without-member par ks v c h us vs m k in
    elim (Bool-cases (v == v')) [
      | inl a ↦ elim (Bool-cases (c == h)) [
        | inl b ↦
            rw (a, b)
              (let own : par h ≡ some v = ap par (sym ((==_iff c h).0 b)) ∙ p in
                let one : bit (points_to (par h) v) ≡ 1 = rw (own, ==_self v) refl in
                let f : bit (c == h) ≡ 1 = rw (b) refl in
                let gone : occurs h (us ++ vs) ≡ 0 = omega arith in gone)
        | inr b ↦
            rw (a, b)
              (let f : bit (c == h) ≡ 0 = rw (b) refl in
                let same : bit (points_to (par h) v) ≡ bit (points_to (par h) v') =
                  rw ((==_iff v v').0 a) refl in
                omega arith)
      ]
      | inr a ↦ elim (Bool-cases (c == h)) [
        | inl b ↦ rw (a, b) (m v' h ∙ rw (ap par (sym ((==_iff c h).0 b)) ∙ p, a) refl)
        | inr b ↦ rw (a, b) (m v' h)
      ]
    ]

module _ (w : Links) (kids : ℕ → List ℕ) (v c : ℕ) (us vs : List ℕ) where
  abbrev without : Option ℕ → (ℕ → Option ℕ) → Links
  without q fs = record {
    parent = update w.parent c none;
    next = next_without w.next w.prev c q;
    prev = prev_without w.next w.prev c q;
    first = fs;
  }

  module _ (r : Represents w kids) (k : kids v ≡ us ++ c ∷ vs) where
    once : Once (us ++ c ∷ vs)
    once = subst Once k (Represents-Once w kids r v)

    parts :
        Segment w.next w.prev none (w.first v) us (w.prev c) (some c)
        × Chain w.next w.prev (some c) (w.next c) vs
    parts =
        Chain-split w.next w.prev c us vs none (w.first v)
          (subst (Chain w.next w.prev none (w.first v)) k (r.chains v))

    parent-child : w.parent c ≡ some v
    parent-child =
        Represents-parent w kids r v c
          (rw (k) (omega (arith, occurs-middle c us vs c, occurs-head c vs)))

    without-Represents :
        (q : Option ℕ) (fs : ℕ → Option ℕ)
        → w.prev c ≡ q
        → fs v ≡ start_at q (w.next c) (w.first v)
        → ((v' : ℕ) → v ≢ v' → fs v' ≡ w.first v')
        → Represents (without q fs) (update kids v (us ++ vs))
    without-Represents q fs e f g = record {
      chains = λ v'. elim (Bool-cases (v == v')) [
        | inl a ↦
            rw (a, sym ((==_iff v v').0 a), f)
              (remove-Chain_at w.next w.prev c us vs q (w.first v) once
                (subst (λ q. Segment w.next w.prev none (w.first v) us q (some c)) e (parts.0))
                (parts.1))
        | inr a ↦
            let n : v ≢ v' = ground arith in
            rw (a, g v' n)
              (remove-Chain_other w.next w.prev c us vs (kids v') q (w.first v) (w.first v')
                (subst (λ l. Disjoint l (kids v')) k (Represents-Disjoint w kids r v v' n))
                (subst (λ q. Segment w.next w.prev none (w.first v) us q (some c)) e (parts.0))
                (parts.1) (r.chains v'))
      ];
      member = λ v' h. removed-member w.parent kids v c v' h us vs r.member parent-child k;
    }

    -- RemoveChild takes the view out of the list of its parent, and every other list stays.
    pub remove_child-Represents :
        (w' : Links) × ((remove_child v (some c) w ≡ some (w', true))
          × Represents w' (update kids v (us ++ vs)))
    unfolding remove_child
    remove_child-Represents =
        elim (Segment-start w.next w.prev us (w.first v) (w.prev c) c (middle-prefix c us vs once)
          (parts.0)) [
            | inl h ↦ (
              without none (update w.first v (w.next c)),
              (
                rw (parent-child, ==_self v, h.1, h.0) refl,
                without-Represents none (update w.first v (w.next c)) (h.0)
                    (update_self w.first v (w.next c))
                    (λ v' n. update_other w.first v v' (w.next c) n),
              ),
            )
            | inr h ↦
                let (i, e) = h in
                let a =
                  Segment-Avoids w.next w.prev us (c ∷ vs) none (w.first v) (some i) (some c)
                    (λ j g. omega (arith, g, once j, occurs-middle c us vs j)) tt
                    (subst (λ q. Segment w.next w.prev none (w.first v) us q (some c)) (e.0)
                      (parts.0)) in
                let n : i ≢ c = (occurs-zero i c vs a).0 in
                (
                  without (some i) w.first,
                  (
                    rw (parent-child, ==_self v, e.1, e.0, update_other w.next i c (w.next c) n)
                        (ap
                          (λ q. some (
                            (
                              record {
                                parent = update w.parent c none;
                                next = update (update w.next i (w.next c)) c none;
                                prev = prev_without w.next w.prev c q;
                                first = w.first;
                              },
                              true,
                            )))
                          (e.0)),
                    without-Represents (some i) w.first (e.0) refl (λ v' n. refl),
                  ),
                )
          ]
