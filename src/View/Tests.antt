-- ===== src/View/Tests.antt =====
-- BView: runs on a view with two children and witnesses of the theorems.
use libb.Prelude.{leb, ◌+◌, ◌-◌, ℕ, ◌≡◌, refl, List, [], ◌∷◌, none, some, true, arith}
use libb.Prelude.Threads.{update}
use libb.Looper.Members.{occurs}
use libb.View.{Links, set_parent, insert_after, add_child, remove_child, count_children, count_from}
use libb.View.Chain.{Chain, Segment}
use libb.View.Children.{Represents}
use libb.View.Children.Add.{append-Represents, add_child-before}
use libb.View.Children.Remove.{remove_child-Represents}
use libb.View.Frame.{Placed, placed, frame, move_by, move_to}
use libb.Rect.{Scalar, offset_to}

abbrev alone : Links
alone = record { parent = λ v. none; next = λ v. none; prev = λ v. none; first = λ v. none }

alone-Represents : Represents alone (λ v. [])
unfolding Chain occurs
alone-Represents = record { chains = λ v. refl; member = λ v h. refl }

-- The view 0 with the child 1, and then the child 2.
abbrev one : Links
one = set_parent 1 (some 0) (insert_after 0 1 none alone)

abbrev two : Links
two = set_parent 2 (some 0) (insert_after 0 2 (some 1) one)

abbrev one_kids : ℕ → List ℕ
one_kids = update (λ v. []) 0 (1 ∷ [])

abbrev two_kids : ℕ → List ℕ
two_kids = update one_kids 0 (1 ∷ 2 ∷ [])

one-Represents : Represents one one_kids
unfolding Segment
one-Represents = append-Represents alone (λ v. []) 0 1 none alone-Represents refl (refl, refl)

two-Represents : Represents two two_kids
unfolding Segment
two-Represents =
    append-Represents one one_kids 0 2 (some 1) one-Represents refl (refl, refl, (refl, refl))

two_children : count_children 2 0 two ≡ 2
unfolding count_children count_from
two_children = refl

add_child-before_example :
    (w' : Links) × ((add_child 0 0 (some 3) (some 2) two ≡ some w')
      × Represents w' (update two_kids 0 (1 ∷ 3 ∷ 2 ∷ [])))
add_child-before_example =
    add_child-before 0 two two_kids 0 3 two-Represents refl (omega arith) (1 ∷ []) [] 2 refl

remove_child-Represents_example :
    (w' : Links) × ((remove_child 0 (some 2) two ≡ some (w', true))
      × Represents w' (update two_kids 0 (1 ∷ [])))
remove_child-Represents_example =
    remove_child-Represents two two_kids 0 2 (1 ∷ []) [] two-Represents refl

-- A view at (4, 4), moved by 3 twice, stands at (3, 3).
abbrev numbers : Scalar ℕ
numbers = record { leb = leb; plus = λ a b. a + b; minus = λ a b. a - b }

abbrev window_pane : Placed ℕ
window_pane = placed numbers 0 (λ a. a) (record { left = 4; top = 4; right = 9; bottom = 9 })

moved_twice :
    frame numbers 0
      (λ a. a)
      (move_by numbers 0 (λ a. a) 3 3 (move_by numbers 0 (λ a. a) 3 3 window_pane))
    ≡ record { left = 3; top = 3; right = 8; bottom = 8 }
unfolding frame move_by move_to placed offset_to
moved_twice = refl
