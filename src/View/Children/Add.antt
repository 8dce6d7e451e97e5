-- ===== src/View/Children/Add.antt =====
-- BView::AddChild: the list of the children of a view gains the view, and nothing else changes.
use mathlib.Core.Path.{subst, fun_ext}
use libb.Prelude.{
  ℕ, zero, suc, ◌+◌, ◌≤◌, ◌≡◌, ◌≢◌, refl, sym, ap, ◌∙◌, inl, inr, List, [], ◌∷◌, ◌++◌, Option, none,
  some, false, if◌then◌else◌, ◌==◌, arith, Bool-cases, ==_iff, ==_self, length, append-nil,
}
use libb.Prelude.Threads.{update, update_self, update_other}
use libb.Looper.{points_to}
use libb.Looper.Members.{occurs, bit, occurs-append}
use libb.View.{
  Links, set_link, last_of, last_from, add_child, insert_before, insert_after, set_parent,
}
use libb.View.Chain.{
  Chain, Segment, Once, Disjoint, Avoids, occurs-head, occurs-zero, Chain-next, Chain-prev,
  Chain-split, Chain-join, Chain-start, Chain-Segment, end_of, Segment-next, Segment-prev,
  Segment-Avoids, Chain-Avoids,
}
use libb.View.Chain.Ends.{start_at, Segment-finish, Segment-start}
use libb.View.Children.{
  Represents, Represents-Once, Represents-parent, Represents-Disjoint, Represents-orphan,
  occurs-middle, occurs-cons, middle-prefix,
}

-- A view outside of a list stands apart from it.
apart : (c : ℕ) (us : List ℕ) → occurs c us ≡ 0 → Disjoint us (c ∷ [])
unfolding occurs
apart c us o j g = elim (Bool-cases (c == j)) [
  | inl e ↦
      let z : occurs j us ≡ 0 = ap (λ j. occurs j us) (sym ((==_iff c j).0 e)) ∙ o in
      absurd (omega arith)
  | inr e ↦ rw (e) refl
]

set_link-other :
    (q : Option ℕ) (a : Option ℕ) (f : ℕ → Option ℕ) (c : ℕ)
    → Avoids q (c ∷ [])
    → set_link q a f c ≡ f c
set_link-other none a f c h = refl
set_link-other (some i) a f c h = update_other f i c a ((occurs-zero i c [] h).0)

module _ (nx pv : ℕ → Option ℕ) (c : ℕ) where
  -- The members after `c` comes between the view `q` and the view `e`.
  abbrev next_with : Option ℕ → Option ℕ → ℕ → Option ℕ
  next_with q e = set_link q (some c) (update nx c e)

  abbrev prev_with : Option ℕ → Option ℕ → ℕ → Option ℕ
  prev_with q e = set_link e (some c) (update pv c q)

  module _ (us vs : List ℕ) (q cur e : Option ℕ) (ou : occurs c us ≡ 0) (ov : occurs c vs ≡ 0)
      (s : Segment nx pv none cur us q e) (t : Chain nx pv q e vs) where
    add-Chain_at :
        Once us
        → Once vs
        → Disjoint us vs
        → Disjoint vs us
        → Chain (next_with q e) (prev_with q e) none (start_at q (some c) cur) (us ++ c ∷ vs)
    unfolding Chain
    add-Chain_at o1 o2 d1 d2 =
        let nx1 = update nx c e in
        let pv1 = update pv c q in
        let st = start_at q (some c) cur in
        let nx2 = next_with q e in
        let pv2 = prev_with q e in
        let ae = Chain-Avoids nx pv vs us q e d2 t in
        let s1 = Segment-next nx pv us none cur q e (some c) e ou s in
        let s2 = Segment-finish nx1 pv us cur q e (some c) o1 s1 in
        let s3 = Segment-prev nx2 pv us none st q (some c) (some c) q ou s2 in
        let s4 = Segment-prev nx2 pv1 us none st q (some c) e (some c) ae s3 in
        let aq = Segment-Avoids nx pv us vs none cur q e d1 tt s in
        let t1 = Chain-next nx pv vs q e (some c) e ov t in
        let t2 = Chain-prev nx1 pv vs q e (some c) q ov t1 in
        let t3 = Chain-start nx1 pv1 vs q e (some c) o2 t2 in
        let t4 = Chain-next nx1 pv2 vs (some c) e q (some c) aq t3 in
        let qc = Segment-Avoids nx pv us (c ∷ []) none cur q e (apart c us ou) tt s in
        let ec = Chain-Avoids nx pv vs (c ∷ []) q e (apart c vs ov) t in
        let nc : nx2 c ≡ e = set_link-other q (some c) nx1 c qc ∙ update_self nx c e in
        let pc : pv2 c ≡ q = set_link-other e (some c) pv1 c ec ∙ update_self pv c q in
        Chain-join nx2 pv2 us (c ∷ vs) none st q (some c) s4
          (refl, pc, subst (λ n. Chain nx2 pv2 (some c) n vs) (sym nc) t4)

    add-Chain_other :
        (ws : List ℕ) (cur' : Option ℕ)
        → occurs c ws ≡ 0
        → Disjoint us ws
        → Disjoint vs ws
        → Chain nx pv none cur' ws
        → Chain (next_with q e) (prev_with q e) none cur' ws
    add-Chain_other ws cur' ow d1 d2 h =
        let nx1 = update nx c e in
        let pv1 = update pv c q in
        let aq = Segment-Avoids nx pv us ws none cur q e d1 tt s in
        let ae = Chain-Avoids nx pv vs ws q e d2 t in
        let h1 = Chain-next nx pv ws none cur' (some c) e ow h in
        let h2 = Chain-next nx1 pv ws none cur' q (some c) aq h1 in
        let h3 = Chain-prev (next_with q e) pv ws none cur' (some c) q ow h2 in
        Chain-prev (next_with q e) pv1 ws none cur' e (some c) ae h3

with-member :
    (par : ℕ → Option ℕ) (ks : ℕ → List ℕ) (v c h : ℕ) (us vs : List ℕ)
    → ((v h : ℕ) → occurs h (ks v) ≡ bit (points_to (par h) v))
    → ks v ≡ us ++ vs
    → occurs h (us ++ c ∷ vs) ≡ bit (points_to (par h) v) + bit (c == h)
with-member par ks v c h us vs m k =
    let whole : occurs h (us ++ vs) ≡ bit (points_to (par h) v) = ap (occurs h) (sym k) ∙ m v h in
    omega (arith, whole, occurs-append h us vs, occurs-middle c us vs h, occurs-cons c us vs h)

added-member :
    (par : ℕ → Option ℕ) (ks : ℕ → List ℕ) (v c v' h : ℕ) (us vs : List ℕ)
    → ((v h : ℕ) → occurs h (ks v) ≡ bit (points_to (par h) v))
    → par c ≡ none
    → ks v ≡ us ++ vs
    → occurs h (update ks v (us ++ c ∷ vs) v') ≡ bit (points_to (update par c (some v) h) v')
added-member par ks v c v' h us vs m p k =
    let more : occurs h (us ++ c ∷ vs) ≡ bit (points_to (par h) v) + bit (c == h) =
      with-member par ks v c h us vs m k in
    elim (Bool-cases (v == v')) [
      | inl a ↦ elim (Bool-cases (c == h)) [
        | inl b ↦
            rw (a, b)
              (let own : par h ≡ none = ap par (sym ((==_iff c h).0 b)) ∙ p in
                let z : bit (points_to (par h) v) ≡ 0 = rw (own) refl in
                let f : bit (c == h) ≡ 1 = rw (b) refl in
                let g : bit (v == v') ≡ 1 = rw (a) refl in
                let goal : occurs h (us ++ c ∷ vs) ≡ 1 = omega arith in goal ∙ rw (a) refl)
        | inr b ↦
            rw (a, b)
              (let f : bit (c == h) ≡ 0 = rw (b) refl in
                let same : bit (points_to (par h) v) ≡ bit (points_to (par h) v') =
                  rw ((==_iff v v').0 a) refl in
                omega arith)
      ]
      | inr a ↦ elim (Bool-cases (c == h)) [
        | inl b ↦ rw (a, b) (m v' h ∙ rw (ap par (sym ((==_iff c h).0 b)) ∙ p, a) refl)
        | inr b ↦ rw (a, b) (m v' h)
      ]
    ]

-- The loop stops at the last view of the list.
last_of-Segment :
    (fuel : ℕ) (nx pv : ℕ → Option ℕ) (us : List ℕ) (x : ℕ) (q : Option ℕ)
    → length us ≤ fuel
    → Segment nx pv (some x) (nx x) us q none
    → some (last_of fuel nx x (nx x)) ≡ q
unfolding last_of Segment
last_of-Segment fuel nx pv [] x q f h = rw (h.0) (h.1)
last_of-Segment zero nx pv (y ∷ us) x q f h = absurd (omega arith)
last_of-Segment (suc fuel) nx pv (y ∷ us) x q f h =
    rw (h.0) (last_of-Segment fuel nx pv us y q (omega arith) (h.2))

last_from-Segment :
    (fuel : ℕ) (nx pv : ℕ → Option ℕ) (us : List ℕ) (cur q : Option ℕ)
    → length us ≤ suc fuel
    → Segment nx pv none cur us q none
    → last_from fuel nx cur ≡ q
unfolding Segment
last_from-Segment fuel nx pv [] cur q f h = rw (h.0) (h.1)
last_from-Segment fuel nx pv (x ∷ us) cur q f h =
    rw (h.0) (last_of-Segment fuel nx pv us x q (omega arith) (h.2))

update-swap :
    (f : ℕ → Option ℕ) (i j : ℕ) (a b : Option ℕ)
    → i ≢ j
    → update (update f i a) j b ≡ update (update f j b) i a
update-swap f i j a b n = fun_ext (λ k. ground arith)

module _ (w : Links) (kids : ℕ → List ℕ) (v c : ℕ) (us vs : List ℕ) (r : Represents w kids)
    (p : w.parent c ≡ none) (k : kids v ≡ us ++ vs) where
  whole : Once (us ++ vs)
  whole = subst Once k (Represents-Once w kids r v)

  halves : (i : ℕ) → occurs i (kids v) ≡ occurs i us + occurs i vs
  halves i = ap (occurs i) k ∙ occurs-append i us vs

  sum : (i : ℕ) → occurs i us + occurs i vs ≤ 1
  sum i = omega (arith, whole i, occurs-append i us vs)

  orphan : occurs c us + occurs c vs ≡ 0
  orphan = omega (arith, halves c, Represents-orphan w kids r c v p)

  elsewhere : (v' : ℕ) → v ≢ v' → Disjoint us (kids v') × Disjoint vs (kids v')
  elsewhere v' n =
      let d = Represents-Disjoint w kids r v v' n in
      (λ i g. d i (omega (arith, halves i)), λ i g. d i (omega (arith, halves i)))

  with-Represents :
      (q e : Option ℕ) (fs : ℕ → Option ℕ)
      → Segment w.next w.prev none (w.first v) us q e
      → Chain w.next w.prev q e vs
      → fs v ≡ start_at q (some c) (w.first v)
      → ((v' : ℕ) → v ≢ v' → fs v' ≡ w.first v')
      → Represents
          (record {
            parent = update w.parent c (some v);
            next = next_with w.next w.prev c q e;
            prev = prev_with w.next w.prev c q e;
            first = fs;
          })
          (update kids v (us ++ c ∷ vs))
  with-Represents q e fs s t f g =
      let ou : occurs c us ≡ 0 = omega (arith, orphan) in
      let ov : occurs c vs ≡ 0 = omega (arith, orphan) in
      record {
        chains = λ v'. elim (Bool-cases (v == v')) [
          | inl a ↦
              rw (a, sym ((==_iff v v').0 a), f)
                (add-Chain_at w.next w.prev c us vs q (w.first v) e ou ov s t
                  (λ i. omega (arith, sum i)) (λ i. omega (arith, sum i))
                  (λ i h. omega (arith, sum i, h)) (λ i h. omega (arith, sum i, h)))
          | inr a ↦
              let n : v ≢ v' = ground arith in
              let (d1, d2) = elsewhere v' n in
              rw (a, g v' n)
                (add-Chain_other w.next w.prev c us vs q (w.first v) e ou ov s t (kids v')
                  (w.first v') (Represents-orphan w kids r c v' p) d1 d2 (r.chains v'))
        ];
        member = λ v' h. added-member w.parent kids v c v' h us vs r.member p k;
      }

-- `AddChild` with the last child, as found by the loop.
pub append-Represents :
    (w : Links) (kids : ℕ → List ℕ) (v c : ℕ) (q : Option ℕ)
    → Represents w kids
    → w.parent c ≡ none
    → Segment w.next w.prev none (w.first v) (kids v) q none
    → Represents (set_parent c (some v) (insert_after v c q w)) (update kids v (kids v ++ c ∷ []))
unfolding Chain
append-Represents w kids v c none r p s =
    with-Represents w kids v c (kids v) [] r p (sym (append-nil (kids v))) none none
      (update w.first v (some c)) s refl (update_self w.first v (some c))
      (λ v' n. update_other w.first v v' (some c) n)
append-Represents w kids v c (some i) r p s =
    let o = apart c (kids v) (Represents-orphan w kids r c v p) in
    let a = Segment-Avoids w.next w.prev (kids v) (c ∷ []) none (w.first v) (some i) none o tt s in
    let n : i ≢ c = (occurs-zero i c [] a).0 in
    subst
      (λ f.
        Represents
          (record {
            parent = update w.parent c (some v);
            next = f;
            prev = update w.prev c (some i);
            first = w.first;
          })
          (update kids v (kids v ++ c ∷ [])))
      (update-swap w.next c i none (some c) (λ e. n (sym e)))
      (with-Represents w kids v c (kids v) [] r p (sym (append-nil (kids v))) (some i) none w.first
        s refl refl (λ v' n. refl))

-- The pointers to the first children after `AddChild` with a view before.
abbrev first_with : Links → ℕ → ℕ → ℕ → ℕ → Option ℕ
first_with w v c b = if points_to (w.first v) b then update w.first v (some c) else w.first

first_with-start :
    (w : Links) (v c b : ℕ) (us : List ℕ) (q : Option ℕ)
    → occurs b us ≡ 0
    → Segment w.next w.prev none (w.first v) us q (some b)
    → first_with w v c b v ≡ start_at q (some c) (w.first v)
first_with-start w v c b us q o s = elim (Segment-start w.next w.prev us (w.first v) q b o s) [
  | inl h ↦ rw (h.1, h.0) (update_self w.first v (some c))
  | inr h ↦ let (i, e) = h in rw (e.1, e.0) refl
]

first_with-other : (w : Links) (v c b v' : ℕ) → v ≢ v' → first_with w v c b v' ≡ w.first v'
first_with-other w v c b v' n = elim (Bool-cases (points_to (w.first v) b)) [
  | inl e ↦ rw (e) (update_other w.first v v' (some c) n)
  | inr e ↦ rw (e) refl
]

module _ (fuel : ℕ) (w : Links) (kids : ℕ → List ℕ) (v c : ℕ) (r : Represents w kids)
    (p : w.parent c ≡ none) (n : c ≢ v) where
  -- AddChild without a view before puts the child at the end of the list, where the loop had enough
  -- steps to get there.
  pub add_child-append :
      length (kids v) ≤ suc fuel
      → (w' : Links) × ((add_child fuel v (some c) none w ≡ some w')
          × Represents w' (update kids v (kids v ++ c ∷ [])))
  unfolding add_child
  add_child-append f =
      let s = Chain-Segment w.next w.prev (kids v) none (w.first v) (r.chains v) in
      let q = last_from fuel w.next (w.first v) in
      let e : q ≡ end_of w.next w.prev none (kids v) =
        last_from-Segment fuel w.next w.prev (kids v) (w.first v)
          (end_of w.next w.prev none (kids v)) f s in
      let b : (c == v) ≡ false = ground arith in
      (
        set_parent c (some v) (insert_after v c q w),
        (
          rw (p, b) refl,
          append-Represents w kids v c q r p
              (subst (λ q. Segment w.next w.prev none (w.first v) (kids v) q none) (sym e) s),
        ),
      )

  -- AddChild with a view before puts the child there.
  pub add_child-before :
      (us vs : List ℕ) (b : ℕ)
      → kids v ≡ us ++ b ∷ vs
      → (w' : Links) × ((add_child fuel v (some c) (some b) w ≡ some w')
          × Represents w' (update kids v (us ++ c ∷ b ∷ vs)))
  unfolding add_child Chain
  add_child-before us vs b k =
      let l = subst (Chain w.next w.prev none (w.first v)) k (r.chains v) in
      let (s, t) = Chain-split w.next w.prev b us vs none (w.first v) l in
      let o = subst Once k (Represents-Once w kids r v) in
      let pb : w.parent b ≡ some v =
        Represents-parent w kids r v b
          (rw (k) (omega (arith, occurs-middle b us vs b, occurs-head b vs))) in
      let d : (c == v) ≡ false = ground arith in
      (
        set_parent c (some v) (insert_before v c b w),
        (
          rw (p, d, pb, ==_self v) refl,
          subst
              (λ z.
                Represents
                  (record {
                    parent = update w.parent c (some v);
                    next = set_link z (some c) (update w.next c (some b));
                    prev = prev_with w.next w.prev c (w.prev b) (some b);
                    first = first_with w v c b;
                  })
                  (update kids v (us ++ c ∷ b ∷ vs)))
              (sym (update_self w.prev c (w.prev b)))
              (with-Represents w kids v c us (b ∷ vs) r p k (w.prev b) (some b) (first_with w v c b)
                s (refl, refl, t)
                (first_with-start w v c b us (w.prev b) (middle-prefix b us vs o) s)
                (first_with-other w v c b)),
        ),
      )
