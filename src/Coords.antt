-- ===== src/Coords.antt =====
-- internal/utils/geo.go: the test of coordinates. A coordinate is no NaN.
pub mod Polyline
use geo.Base.{Bool, ◌&&◌}
use geo.Base.Float.{Float, le_float}

-- ValidCoords
unfoldable pub valid_coords : (f : Float) → f.F → f.F → Bool
valid_coords f lat lng =
    let below = λ (n : f.F). f.sub f.zero n in
    le_float f (below (f.lit 90 0)) lat
    && le_float f lat (f.lit 90 0)
    && le_float f (below (f.lit 180 0)) lng
    && le_float f lng (f.lit 180 0)
