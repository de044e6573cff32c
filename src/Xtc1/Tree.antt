-- ===== src/Xtc1/Tree.antt =====
-- Trees of Xtcs as they are laid out in a datagram.
pub mod Inspect
pub mod Find
pub mod Register
pub mod Resolve
use sbio.Prelude.{
  ℕ, ◌+◌, ◌≤◌, ◌<◌, ◌≡◌, ◌≢◌, refl, arith, Bool, true, false, List, [], ◌∷◌, ◌++◌, if◌then◌else◌,
}
use sbio.Xtc1.{Xtc, Detector, sizeof_xtc, id_xtc, is_dropped, add_detector}

mutual
  pub data Node : Type 0 where
    leaf : Xtc → Node
    container : Xtc → Nodes → Node

  pub data Nodes : Type 0 where
    nil : Nodes
    cons : Node → Nodes → Nodes

abbrev pub header : Node → Xtc
header (leaf x) = x
header (container x children) = x

abbrev pub total_extent : Nodes → ℕ
total_extent nil = 0
total_extent (cons c cs) = (header c).extent + total_extent cs

-- A container holds its children one behind the other, with less than a header left at the end.
unfoldable mutual
  pub IsLaid : (ℕ → Xtc) → ℕ → Node → Type 0
  IsLaid buffer pos (leaf x) = (buffer pos ≡ x) × (x.id ≢ id_xtc) × (sizeof_xtc ≤ x.extent)
  IsLaid buffer pos (container x children) =
      (buffer pos ≡ x)
      × (x.id ≡ id_xtc)
      × (sizeof_xtc + total_extent children ≤ x.extent)
      × (x.extent < sizeof_xtc + total_extent children + sizeof_xtc)
      × AreLaid buffer (pos + sizeof_xtc) children

  pub AreLaid : (ℕ → Xtc) → ℕ → Nodes → Type 0
  AreLaid buffer pos nil = Unit
  AreLaid buffer pos (cons c cs) = IsLaid buffer pos c × AreLaid buffer (pos + (header c).extent) cs

-- The leaves that are not under a dropped contribution, with their offsets, in order.
unfoldable mutual
  pub leaves : ℕ → Node → List (Xtc × ℕ)
  leaves pos (leaf x) = if is_dropped x then [] else (x, pos) ∷ []
  leaves pos (container x children) =
      if is_dropped x then [] else leaves_of_all (pos + sizeof_xtc) children

  pub leaves_of_all : ℕ → Nodes → List (Xtc × ℕ)
  leaves_of_all pos nil = []
  leaves_of_all pos (cons c cs) = leaves pos c ++ leaves_of_all (pos + (header c).extent) cs

-- The detectors of leaves, added in order.
abbrev pub add_all : List (Xtc × ℕ) → List Detector → List Detector
add_all [] collector = collector
add_all ((x, offset) ∷ rest) collector = add_all rest (add_detector x offset collector)

pub add_all-append :
    (xs ys : List (Xtc × ℕ)) (collector : List Detector)
    → add_all (xs ++ ys) collector ≡ add_all ys (add_all xs collector)
add_all-append [] ys collector = refl
add_all-append ((x, offset) ∷ rest) ys collector =
    add_all-append rest ys (add_detector x offset collector)

pub header-extent :
    (buffer : ℕ → Xtc) (pos : ℕ) (t : Node)
    → IsLaid buffer pos t
    → (buffer pos ≡ header t) × (sizeof_xtc ≤ (header t).extent)
unfolding IsLaid
header-extent buffer pos (leaf x) (e, i, l) = (e, l)
header-extent buffer pos (container x children) (e, i, l, m, a) = (e, omega arith)
