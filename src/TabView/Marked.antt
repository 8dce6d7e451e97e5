-- ===== src/TabView/Marked.antt =====
-- BTabView: which tabs of a list are selected, and what the calls on a tab do to that.
use libb.Prelude.{
  ℕ, zero, suc, ◌<◌, ◌≡◌, refl, sym, ap, ◌∙◌, List, [], ◌∷◌, ◌++◌, Bool, true, false, ◌&&◌, ◌||◌,
  if◌then◌else◌, ◌==◌, ltb, length, arith,
}
use libb.TabView.{Tab, select_it, deselect_it, focus_it, modify_nth, remove_nth}

-- The tab at `i` is selected just if `p i`, and a selected tab shows its view, if it has one.
abbrev pub Marked : (ℕ → Bool) → List Tab → Type 0
Marked p [] = Unit
Marked p (t ∷ ts) =
    (t.selected ≡ p 0) × (t.shown ≡ (p 0 && t.has_view)) × Marked (λ j. p (suc j)) ts

pub Marked-ext :
    (p q : ℕ → Bool) (ts : List Tab)
    → ((j : ℕ) → j < length ts → p j ≡ q j)
    → Marked p ts
    → Marked q ts
Marked-ext p q [] e h = tt
Marked-ext p q (t ∷ ts) e h =
    let z : p 0 ≡ q 0 = e 0 (omega arith) in
    (
      h.0 ∙ z,
      h.1 ∙ rw (z) refl,
      Marked-ext (λ j. p (suc j)) (λ j. q (suc j)) ts (λ j l. e (suc j) (omega arith)) (h.2),
    )

pub Marked-deselect :
    (p : ℕ → Bool) (n : ℕ) (ts : List Tab)
    → Marked p ts
    → Marked (λ j. if n == j then false else p j) (modify_nth deselect_it n ts)
unfolding modify_nth
Marked-deselect p n [] h = tt
Marked-deselect p zero (t ∷ ts) h = (
  refl,
  refl,
  Marked-ext (λ j. p (suc j)) (λ j. if 0 == suc j then false else p (suc j)) ts
      (λ j l. ground arith) (h.2),
)
Marked-deselect p (suc n) (t ∷ ts) h =
    let z : (suc n == 0) ≡ false = ground arith in
    (
      rw (z) (h.0),
      rw (z) (h.1),
      Marked-ext (λ j. if n == j then false else p (suc j))
          (λ j. if suc n == suc j then false else p (suc j)) (modify_nth deselect_it n ts)
          (λ j l. ground arith) (Marked-deselect (λ j. p (suc j)) n ts (h.2)),
    )

shown_absorb : (s a b : Bool) → s ≡ (a && b) → (s || b) ≡ b
shown_absorb s true true e = rw (e) refl
shown_absorb s true false e = rw (e) refl
shown_absorb s false true e = rw (e) refl
shown_absorb s false false e = rw (e) refl

pub Marked-select :
    (p : ℕ → Bool) (n : ℕ) (ts : List Tab)
    → Marked p ts
    → Marked (λ j. if n == j then true else p j) (modify_nth select_it n ts)
unfolding modify_nth
Marked-select p n [] h = tt
Marked-select p zero (t ∷ ts) h = (
  refl,
  shown_absorb t.shown (p 0) t.has_view (h.1),
  Marked-ext (λ j. p (suc j)) (λ j. if 0 == suc j then true else p (suc j)) ts (λ j l. ground arith)
      (h.2),
)
Marked-select p (suc n) (t ∷ ts) h =
    let z : (suc n == 0) ≡ false = ground arith in
    (
      rw (z) (h.0),
      rw (z) (h.1),
      Marked-ext (λ j. if n == j then true else p (suc j))
          (λ j. if suc n == suc j then true else p (suc j)) (modify_nth select_it n ts)
          (λ j l. ground arith) (Marked-select (λ j. p (suc j)) n ts (h.2)),
    )

pub Marked-focus :
    (p : ℕ → Bool) (b : Bool) (n : ℕ) (ts : List Tab)
    → Marked p ts
    → Marked p (modify_nth (focus_it b) n ts)
unfolding modify_nth
Marked-focus p b n [] h = tt
Marked-focus p b zero (t ∷ ts) h = (h.0, h.1, h.2)
Marked-focus p b (suc n) (t ∷ ts) h = (h.0, h.1, Marked-focus (λ j. p (suc j)) b n ts (h.2))

pub Marked-remove :
    (p : ℕ → Bool) (n : ℕ) (ts : List Tab)
    → Marked p ts
    → Marked (λ j. if ltb j n then p j else p (suc j)) (remove_nth n ts)
unfolding remove_nth
Marked-remove p n [] h = tt
Marked-remove p zero (t ∷ ts) h =
    Marked-ext (λ j. p (suc j)) (λ j. if ltb j 0 then p j else p (suc j)) ts (λ j l. ground arith)
      (h.2)
Marked-remove p (suc n) (t ∷ ts) h = (
  h.0 ∙ ground arith,
  h.1 ∙ ground arith,
  Marked-ext (λ j. if ltb j n then p (suc j) else p (suc (suc j)))
      (λ j. if ltb (suc j) (suc n) then p (suc j) else p (suc (suc j))) (remove_nth n ts)
      (λ j l. ground arith) (Marked-remove (λ j. p (suc j)) n ts (h.2)),
)

pub Marked-append :
    (p : ℕ → Bool) (t : Tab) (ts : List Tab)
    → p (length ts) ≡ false
    → t.selected ≡ false
    → t.shown ≡ false
    → Marked p ts
    → Marked p (ts ++ (t ∷ []))
Marked-append p t [] e a b h = (a ∙ sym e, b ∙ rw (e) refl, tt)
Marked-append p t (u ∷ ts) e a b h = (h.0, h.1, Marked-append (λ j. p (suc j)) t ts e a b (h.2))

pub length-modify_nth :
    (f : Tab → Tab) (n : ℕ) (ts : List Tab) → length (modify_nth f n ts) ≡ length ts
unfolding modify_nth
length-modify_nth f n [] = refl
length-modify_nth f zero (t ∷ ts) = refl
length-modify_nth f (suc n) (t ∷ ts) = ap suc (length-modify_nth f n ts)

pub length-remove_nth :
    (n : ℕ) (ts : List Tab) → n < length ts → suc (length (remove_nth n ts)) ≡ length ts
unfolding remove_nth
length-remove_nth n [] h = absurd (omega arith)
length-remove_nth zero (t ∷ ts) h = refl
length-remove_nth (suc n) (t ∷ ts) h = ap suc (length-remove_nth n ts (omega arith))
