-- ===== src/Xtc1/Tests.antt =====
-- A datagram of two detectors, the second one in a container of its own.
use sbio.Prelude.{
  ℕ, ◌+◌, ◌^◌, ◌≤◌, ◌≡◌, ◌⊎◌, refl, true, none, some, List, [], arith, ◌==◌, if◌then◌else◌,
}
use sbio.Broker.Cache.{PayloadOffsetCache, empty_cache, find}
use sbio.Xtc1.{
  Src, Xtc, Detector, FieldMetadata, matches, sizeof_xtc, first_xtc, is_detector, inspect_xtc1,
  resolve_xtc,
}
use sbio.Xtc1.Tree.{Node, leaf, container, nil, cons, IsLaid, leaves}
use sbio.Xtc1.Tree.Register.{offset_of, first_of, inspect_xtc1_lem}
use sbio.Xtc1.Tree.Find.{xtcs, first_wanted}
use sbio.Xtc1.Tree.Resolve.{resolve_xtc_lem}

abbrev xtc : ℕ → ℕ → ℕ → ℕ → Xtc
xtc log phy id extent = record {
  damage = 0;
  src = record { log = log; phy = phy };
  id = id;
  version = 1;
  extent = extent;
}

abbrev root : Xtc
root = xtc 0 0 1 94

-- A detector of level Source, and one of level Reporter.
abbrev camera : Xtc
camera = xtc 16777223 3 5 30

abbrev inner : Xtc
inner = xtc 0 0 1 44

abbrev beam : Xtc
beam = xtc 100663296 9 6 24

abbrev tree : Node
tree = container root (cons (leaf camera) (cons (container inner (cons (leaf beam) nil)) nil))

abbrev buffer : ℕ → Xtc
buffer pos =
    if pos == 20 then root else if pos == 40 then camera else if pos == 70 then inner else beam

tree-IsLaid : IsLaid buffer first_xtc tree
unfolding IsLaid
tree-IsLaid = (
  refl,
  refl,
  omega arith,
  omega arith,
  (
    (refl, (λ e. omega arith), omega arith),
    ((refl, refl, omega arith, omega arith, ((refl, (λ e. omega arith), omega arith), tt)), tt),
  ),
)

inspect_xtc1_lem_example :
    (detectors : List Detector) × (inspect_xtc1 buffer 94 first_xtc first_xtc [] ≡ some detectors)
    × ((src : Src) → offset_of detectors src ≡ first_of (leaves first_xtc tree) src)
inspect_xtc1_lem_example =
    inspect_xtc1_lem buffer tree 94 first_xtc tree-IsLaid (omega arith) (omega arith)

beam_registered : first_of (leaves first_xtc tree) beam.src ≡ some 90
unfolding first_of leaves is_detector
beam_registered = refl

abbrev field : FieldMetadata
field = record { config_offset = 90; event_type = 6; src_log = 100663296; src_phy = 9 }

resolve_xtc_lem_example :
    ((pos : ℕ) × (after : PayloadOffsetCache) × (resolve_xtc buffer 94 field 3 empty_cache
        ≡ some (some pos, after))
      × (matches field (buffer pos) ≡ true)
      × (pos + sizeof_xtc ≤ first_xtc + 94)
      × ((pos + (buffer pos).extent ≤ first_xtc + 94) ⊎ (2 ^ 32 ≤ pos + (buffer pos).extent))
      × (find 3 after ≡ some pos))
    ⊎ ((resolve_xtc buffer 94 field 3 empty_cache ≡ some (none, empty_cache))
        × (first_wanted (matches field) (xtcs first_xtc tree) ≡ none))
resolve_xtc_lem_example =
    resolve_xtc_lem buffer tree 94 3 field empty_cache tree-IsLaid (omega arith) (omega arith)
      (omega arith) (omega arith)
