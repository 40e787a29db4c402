-- ===== src/Math.antt =====
-- The vectors and quaternions of src/math/math.cpp and include/math/math.h, with their names.
pub mod Quarternions
pub mod Attitude
pub mod Euler
mod Level
pub mod Rotation
pub mod Turn
mod Tests
use autonomous.Base.{ℕ, Bool, true, false, if◌then◌else◌}
use autonomous.Base.Int.{pos, negsuc}
use autonomous.Double.{Double, Libm, ◌⊕◌, ◌⊖◌, ◌⊗◌, ◌⊘◌}

pub record Vector (F : Type 0) : Type 0 where
  pub x : F
  pub y : F
  pub z : F

pub record Quarternion (F : Type 0) : Type 0 where
  pub w : F
  pub x : F
  pub y : F
  pub z : F
  pub unit : Bool

-- The constructors. A field that is not given is 0.
module _ {F : Type 0} where
  abbrev pub vec : F → F → F → Vector F
  vec x y z = record { x = x; y = y; z = z }

  abbrev pub quat_unit : F → F → F → F → Bool → Quarternion F
  quat_unit w x y z unit = record { w = w; x = x; y = y; z = z; unit = unit }

  abbrev pub quat : F → F → F → F → Quarternion F
  quat w x y z = quat_unit w x y z false

module _ {F : Type 0} ⦃double : Double F⦄ where
  abbrev pub zero_f : F
  zero_f = double.of_int (pos 0)

  abbrev pub one_f : F
  one_f = double.of_int (pos 1)

  abbrev pub two_f : F
  two_f = double.of_int (pos 2)

  abbrev pub vec_0 : Vector F
  vec_0 = vec zero_f zero_f zero_f

  abbrev pub vec_1 : F → Vector F
  vec_1 x = vec x zero_f zero_f

  abbrev pub vec_2 : F → F → Vector F
  vec_2 x y = vec x y zero_f

  abbrev pub quat_0 : Quarternion F
  quat_0 = quat zero_f zero_f zero_f zero_f

  abbrev pub quat_3 : F → F → F → Quarternion F
  quat_3 x y z = quat zero_f x y z

  -- The operators of `vector`.
  pub vec_add : Vector F → Vector F → Vector F
  vec_add l r = vec (l.x ⊕ r.x) (l.y ⊕ r.y) (l.z ⊕ r.z)

  pub vec_scale : Vector F → F → Vector F
  vec_scale l s = vec (l.x ⊗ s) (l.y ⊗ s) (l.z ⊗ s)

  -- `operator*` of `quarternion`, and its other operations. A result is not marked as a unit.
  pub mul : Quarternion F → Quarternion F → Quarternion F
  mul l r =
      quat (l.w ⊗ r.w ⊖ l.x ⊗ r.x ⊖ l.y ⊗ r.y ⊖ l.z ⊗ r.z)
        (r.w ⊗ l.x ⊕ r.x ⊗ l.w ⊕ r.y ⊗ l.z ⊖ r.z ⊗ l.y)
        (r.w ⊗ l.y ⊕ r.y ⊗ l.w ⊕ r.z ⊗ l.x ⊖ r.x ⊗ l.z)
        (r.w ⊗ l.z ⊕ r.z ⊗ l.w ⊕ r.x ⊗ l.y ⊖ r.y ⊗ l.x)

  pub add : Quarternion F → Quarternion F → Quarternion F
  add l r = quat (r.w ⊕ l.w) (r.x ⊕ l.x) (r.y ⊕ l.y) (r.z ⊕ l.z)

  pub conjugate : Quarternion F → Quarternion F
  conjugate q = quat q.w (double.neg q.x) (double.neg q.y) (double.neg q.z)

  -- `rotateVector`
  pub rotate_vector : Quarternion F → Vector F → Vector F
  rotate_vector q r =
      let temp = mul (mul q (quat zero_f r.x r.y r.z)) (conjugate q) in vec temp.x temp.y temp.z

  module _ ⦃libm : Libm F⦄ where
    pub length_q : Quarternion F → F
    length_q q = libm.sqrt (q.w ⊗ q.w ⊕ q.x ⊗ q.x ⊕ q.y ⊗ q.y ⊕ q.z ⊗ q.z)

    pub length_v : Vector F → F
    length_v v = libm.sqrt (v.x ⊗ v.x ⊕ v.y ⊗ v.y ⊕ v.z ⊗ v.z)

    -- `len` is computed and not used.
    pub inverse : Quarternion F → Quarternion F
    inverse q =
        let len = if q.unit then one_f else length_q q in
        quat q.w (double.neg q.x) (double.neg q.y) (double.neg q.z)

    pub rotate : F → Vector F → Quarternion F
    rotate theta axis =
        quat (libm.cos (theta ⊘ two_f)) (axis.x ⊗ libm.sin (theta ⊘ two_f))
          (axis.y ⊗ libm.sin (theta ⊘ two_f)) (axis.z ⊗ libm.sin (theta ⊘ two_f))

    abbrev pub half : F → F
    half angle = angle ⊗ double.lit (pos 5) 1

    -- `fromEulerZYX`
    pub from_euler_zyx : Vector F → Quarternion F
    from_euler_zyx euler =
        let cy = libm.cos (half euler.z) in
        let sy = libm.sin (half euler.z) in
        let cp = libm.cos (half euler.y) in
        let sp = libm.sin (half euler.y) in
        let cr = libm.cos (half euler.x) in
        let sr = libm.sin (half euler.x) in
        quat (cr ⊗ cp ⊗ cy ⊕ sr ⊗ sp ⊗ sy) (sr ⊗ cp ⊗ cy ⊖ cr ⊗ sp ⊗ sy)
          (cr ⊗ sp ⊗ cy ⊕ sr ⊗ cp ⊗ sy) (cr ⊗ cp ⊗ sy ⊖ sr ⊗ sp ⊗ cy)

    -- `toEuler`
    pub to_euler : Quarternion F → Vector F
    to_euler q =
        let sin_p = two_f ⊗ (q.w ⊗ q.y ⊖ q.z ⊗ q.x) in
        if double.le one_f sin_p
        then vec (double.of_int (negsuc 1) ⊗ libm.atan2 q.x q.w)
            (double.lit (pos 1570796326794897) 15) zero_f
        else if double.le sin_p (double.of_int (negsuc 0))
        then vec (two_f ⊗ libm.atan2 q.x q.w) (double.neg (double.lit (pos 1570796326794897) 15))
            zero_f
        else vec
            (libm.atan2 (two_f ⊗ (q.w ⊗ q.x ⊕ q.y ⊗ q.z)) (one_f ⊖ two_f ⊗ (q.x ⊗ q.x ⊕ q.y ⊗ q.y)))
            (libm.asin sin_p)
            (libm.atan2 (two_f ⊗ (q.w ⊗ q.z ⊕ q.x ⊗ q.y)) (one_f ⊖ two_f ⊗ (q.y ⊗ q.y ⊕ q.z ⊗ q.z)))

    -- `toMagAxis`
    pub to_mag_axis : Quarternion F → Vector F
    to_mag_axis q =
        let s = one_f ⊖ q.w ⊗ q.w in
        let mag = libm.acos q.w ⊗ two_f in
        let turn = vec (q.x ⊗ mag ⊘ s) (q.y ⊗ mag ⊘ s) (q.z ⊗ mag ⊘ s) in
        if double.lt (double.neg (double.lit (pos 1) 5)) q.w
        then if double.lt q.w (double.lit (pos 1) 5) then vec_0 else turn
        else turn
