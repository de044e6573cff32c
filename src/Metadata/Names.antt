-- ===== src/Metadata/Names.antt =====
-- `FixedName` (util/parameters.hh): an array of `size` characters that C strings are copied into.
-- A C string is the list of its characters without the terminator.
pub mod Laws
use sbio.Prelude.{
  ℕ, zero, suc, ◌-◌, Bool, true, false, not, List, [], ◌∷◌, replicate, ◌==◌, if◌then◌else◌,
}
use sbio.Metadata.Keys.{Name}

-- The copying loop with the rounds that are left, on the rest of the string and of the array.
unfoldable pub write_chars : ℕ → List ℕ → Name → Name
write_chars zero str storage = storage
write_chars (suc n) [] storage = storage
write_chars (suc n) (c ∷ cs) [] = []
write_chars (suc n) (c ∷ cs) (x ∷ xs) = if c == 0 then x ∷ xs else c ∷ write_chars n cs xs

-- `operator=` of a C string: what stood in the array stays where nothing is written.
unfoldable pub assign : ℕ → Name → List ℕ → Name
assign size storage str = write_chars (size - 1) str storage

-- The constructor from a C string.
unfoldable pub from_str : ℕ → List ℕ → Name
from_str size str = write_chars (size - 1) str (replicate size 0)

-- `operator==` with a C string.
unfoldable pub eq_str : Name → List ℕ → Bool
eq_str [] [] = true
eq_str [] (c ∷ cs) = c == 0
eq_str (x ∷ xs) [] = x == 0
eq_str (x ∷ xs) (c ∷ cs) = if not (x == c) then false else (if x == 0 then true else eq_str xs cs)

-- `c_str`: the characters up to the first zero.
unfoldable pub c_str : Name → List ℕ
c_str [] = []
c_str (x ∷ xs) = if x == 0 then [] else x ∷ c_str xs
