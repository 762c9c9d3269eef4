-- ===== src/Util/CheapRuler.antt =====
-- src/airmap/util/cheap_ruler.cpp: distances and bearings on a small part of the earth. Arithmetic on
-- `double` and the functions of <cmath> are the interface `Reals`.
use platform_sdk.Base.{ℕ, Bool, not, ◌||◌, if◌then◌else◌}
use platform_sdk.Core.Geometry.{Coordinate}

pub record Reals (D : Type 0) : Type 0 where
  pub add : D → D → D
  pub sub : D → D → D
  pub mul : D → D → D
  pub quot : D → D → D
  pub neg : D → D
  pub lt : D → D → Bool
  pub floor : D → D
  pub sqrt : D → D
  pub cos : D → D
  pub sin : D → D
  pub atan2 : D → D → D
  -- `M_PI`
  pub pi : D
  -- A literal: a number, divided by a power of ten.
  pub decimal : ℕ → ℕ → D
  -- The milliseconds from the second time to the first.
  pub milliseconds : ℕ → ℕ → D

pub record CheapRuler (D : Type 0) : Type 0 where
  pub kx : D
  pub ky : D

module _ {D : Type 0} ⦃r : Reals D⦄ where
  open r use {add, sub, mul, quot, neg, lt, floor, sqrt, cos, sin, atan2, pi, decimal}

  -- The constructor.
  unfoldable pub create : D → CheapRuler D
  create latitude =
      let c : D = cos (quot (mul (floor latitude) pi) (decimal 180 0)) in
      let c2 : D = sub (mul (mul (decimal 2 0) c) c) (decimal 1 0) in
      let c3 : D = sub (mul (mul (decimal 2 0) c) c2) c in
      let c4 : D = sub (mul (mul (decimal 2 0) c) c3) c2 in
      let c5 : D = sub (mul (mul (decimal 2 0) c) c4) c3 in
      record {
        kx = mul (decimal 1000 0) (
            add (sub (mul (decimal 11141513 5) c) (mul (decimal 9455 5) c3))
              (mul (decimal 12 5) c5));
        ky =
            mul (decimal 1000 0)
              (add (sub (decimal 11113209 5) (mul (decimal 56605 5) c2)) (mul (decimal 12 4) c4));
      }

  unfoldable pub is_zero : D → Bool
  is_zero d = not (lt d (decimal 0 0) || lt (decimal 0 0) d)

  unfoldable pub bearing : CheapRuler D → Coordinate D → Coordinate D → D
  bearing ruler p1 p2 =
      let dx : D = mul (sub p2.longitude p1.longitude) ruler.kx in
      let dy : D = mul (sub p2.latitude p1.latitude) ruler.ky in
      if is_zero dx
      then decimal 0 0
      else if is_zero dy
      then decimal 0 0
      else let b : D = add (quot (mul (atan2 (neg dy) dx) (decimal 180 0)) pi) (decimal 90 0) in
        if lt (decimal 180 0) b then sub b (decimal 360 0) else b

  unfoldable pub distance : CheapRuler D → Coordinate D → Coordinate D → D
  distance ruler p1 p2 =
      let dx : D = mul (sub p2.longitude p1.longitude) ruler.kx in
      let dy : D = mul (sub p2.latitude p1.latitude) ruler.ky in sqrt (add (mul dx dx) (mul dy dy))

  unfoldable pub destination : CheapRuler D → Coordinate D → D → D → Coordinate D
  destination ruler c distance bearing =
      let a : D = quot (mul (sub (decimal 90 0) bearing) pi) (decimal 180 0) in
      record c {
        longitude = add c.longitude (quot (mul (cos a) distance) ruler.kx);
        latitude = add c.latitude (quot (mul (sin a) distance) ruler.ky);
      }
