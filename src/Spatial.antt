-- ===== src/Spatial.antt =====
-- lib/spatial/spatial.c, as far as the firmware uses it. Floating point is a parameter.
pub record Floats (F : Type 0) : Type 0 where
  pub add : F → F → F
  pub mul : F → F → F
  pub sqrt : F → F
  pub neg_one : F

-- `Vector3`
pub record Vector3 (F : Type 0) : Type 0 where
  pub x : F
  pub y : F
  pub z : F

module _ {F : Type 0} (fs : Floats F) where
  -- `spatial_vector_multiply_plus`
  unfoldable pub spatial_vector_multiply_plus : Vector3 F → Vector3 F → F → Vector3 F
  spatial_vector_multiply_plus v₁ v₂ coef = record {
    x = fs.add v₁.x (fs.mul coef v₂.x);
    y = fs.add v₁.y (fs.mul coef v₂.y);
    z = fs.add v₁.z (fs.mul coef v₂.z);
  }

  -- `spatial_vector_norm`
  unfoldable pub spatial_vector_norm : Vector3 F → F
  spatial_vector_norm v =
      fs.sqrt (fs.add (fs.add (fs.mul v.x v.x) (fs.mul v.y v.y)) (fs.mul v.z v.z))
