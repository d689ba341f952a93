-- ===== src/Tensor/Tests.antt =====
-- The strides of a tensor of extents 2, 3 and 4.
use mathlib.Core.List.{map, reverse}
use uni.Prelude.{◌≡◌, refl, [], ◌∷◌}
use uni.Mdspan.Indices.{range}
use uni.Tensor.Layout.{
  right_strides, layout_right_strides, offset_of, index_lists, size, layout_right_strides-range,
  layout_left_strides, layout_left_strides-layout_right_strides,
}

strides_run : layout_right_strides (2 ∷ 3 ∷ 4 ∷ []) ≡ 12 ∷ 4 ∷ 1 ∷ []
unfolding layout_right_strides right_strides
strides_run = refl

layout_right_strides-range_example :
    map (offset_of (layout_right_strides (2 ∷ 3 ∷ 4 ∷ []))) (index_lists (2 ∷ 3 ∷ 4 ∷ []))
    ≡ range 0 (size (2 ∷ 3 ∷ 4 ∷ []))
layout_right_strides-range_example = layout_right_strides-range (2 ∷ 3 ∷ 4 ∷ [])

layout_left_strides-layout_right_strides_example :
    layout_left_strides (2 ∷ 3 ∷ 4 ∷ []) ≡ reverse (layout_right_strides (reverse (2 ∷ 3 ∷ 4 ∷ [])))
layout_left_strides-layout_right_strides_example =
    layout_left_strides-layout_right_strides (2 ∷ 3 ∷ 4 ∷ [])
