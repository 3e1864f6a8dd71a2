-- ===== src/Wire/Samples.antt =====
-- Paths that a request may and may not hold.
use rtlfarm.Prelude.{String, ◌≡◌, refl, none, some}
use rtlfarm.Pack.Paths.{split, parts, bad_pattern}
use rtlfarm.Wire.{pack_relative, pack_relative_lem}

abbrev source : String
source = "rtl/a..b.sv"

kept : pack_relative source ≡ some source
unfolding pack_relative
kept = refl

-- A path object has the parts a and b of `a/./b`; the request is refused.
dot_segment : pack_relative "a/./b" ≡ none
unfolding pack_relative
dot_segment = refl

pack_relative_lem_example :
    (source ≡ source) × (parts source ≡ split source) × (bad_pattern source ≡ none)
pack_relative_lem_example = pack_relative_lem source source kept
