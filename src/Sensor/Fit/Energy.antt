-- ===== src/Sensor/Fit/Energy.antt =====
-- The class map: every component has the class of its rank by energy.
use pothole_detection_server.Prelude.{
  ℕ, zero, suc, ◌+◌, ◌≡◌, ◌≢◌, refl, Option, none, some, List, [], ◌∷◌, ◌==◌, if◌then◌else◌, arith,
  Text, All,
}
use pothole_detection_server.Sensor.{ClassMap, class_of}
use pothole_detection_server.Sensor.Fit.{class_of_rank, set_class, assign_classes}

-- The component at a rank.
abbrev pub at : ℕ → List ℕ → Option ℕ
at n [] = none
at zero (i ∷ order) = some i
at (suc n) (i ∷ order) = at n order

-- No component stands twice in the order.
abbrev pub AreDistinct : List ℕ → Type 0
AreDistinct [] = Unit
AreDistinct (i ∷ order) = All (λ j. j ≢ i) order × AreDistinct order

pub class_of-set_class :
    (i j : ℕ) (cls : Text) (m : ClassMap)
    → class_of j (set_class i cls m) ≡ (if i == j then some cls else class_of j m)
unfolding class_of set_class
class_of-set_class i j cls [] = ground arith
class_of-set_class i j cls ((k, c) ∷ m) = ground (arith, class_of-set_class i j cls m)

class_of-assign_classes_other :
    (j rank : ℕ) (order : List ℕ) (m : ClassMap)
    → All (λ i. i ≢ j) order
    → class_of j (assign_classes rank order m) ≡ class_of j m
unfolding assign_classes
class_of-assign_classes_other j rank [] m n = refl
class_of-assign_classes_other j rank (i ∷ order) m (ne, n) = ground (
  arith,
  class_of-assign_classes_other j (suc rank) order (set_class i (class_of_rank rank) m) n,
  class_of-set_class i j (class_of_rank rank) m,
)

-- Over an order with no component twice, the component at each rank gets the class of that rank.
pub class_of-assign_classes :
    (n rank : ℕ) (order : List ℕ) (m : ClassMap) {i : ℕ}
    → AreDistinct order
    → at n order ≡ some i
    → class_of i (assign_classes rank order m) ≡ some (class_of_rank (rank + n))
unfolding assign_classes
class_of-assign_classes n rank [] m {i = i} distinct e = absurd (ground arith)
class_of-assign_classes zero rank (j ∷ order) m {i = i} (ne, distinct) e = ground (
  arith,
  class_of-assign_classes_other j (suc rank) order (set_class j (class_of_rank rank) m) ne,
  class_of-set_class j j (class_of_rank rank) m,
)
class_of-assign_classes (suc n) rank (j ∷ order) m {i = i} (ne, distinct) e = ground (
  arith,
  class_of-assign_classes n (suc rank) order (set_class j (class_of_rank rank) m) {i = i} distinct
      e,
)
