-- ===== src/Graphics/Points.antt =====
-- The sum of a point and a size.
use seccamp_os.Base.{◌+◌, ◌^◌, ◌<◌, ◌≡◌, ◌↔◌, arith, u32}
use seccamp_os.Graphics.{Point, RectSize, point_add_size, size_add_point}

-- The opposite corner of a rectangle.
abbrev pub corner : Point → RectSize → Point
corner p s = record { x = u32 (p.x + s.width); y = u32 (p.y + s.height) }

-- For a size whose sides fit 32 bits, the sum of a point and a size is the opposite corner of the
-- rectangle exactly if the rectangle is a square, and the sum in the other order is the same.
pub point_add_size_iff :
    (p : Point) (s : RectSize)
    → s.width < 2 ^ 32
    → s.height < 2 ^ 32
    → ((point_add_size p s ≡ corner p s) ↔ (s.width ≡ s.height))
      × (size_add_point s p ≡ point_add_size p s)
unfolding point_add_size size_add_point
point_add_size_iff p s hw hh = ground arith
