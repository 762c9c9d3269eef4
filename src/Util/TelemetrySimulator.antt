-- ===== src/Util/TelemetrySimulator.antt =====
-- src/airmap/util/telemetry_simulator.cpp: a vehicle that flies along the outer ring of a polygon.
-- An iterator into the ring is an index; a read at the end of the ring is the result `none`. The
-- copies of a simulator set their iterators at the same distance in their own ring.
pub mod Moves
use platform_sdk.Base.{
  ℕ, Bool, ◌+◌, ◌==◌, Option, none, some, ◌>>=◌, List, length, get_elem?, if◌then◌else◌,
}
use platform_sdk.Core.Geometry.{Coordinate, Polygon}
use platform_sdk.Util.CheapRuler.{Reals, CheapRuler}
use platform_sdk.Util.CheapRuler

pub record TelemetrySimulator (D : Type 0) : Type 0 where
  pub ring : List (Coordinate D)
  pub segment_begin : ℕ
  pub segment_end : ℕ
  pub segment_ruler : CheapRuler D
  pub segment_start_time : ℕ
  pub segment_bearing : D
  pub segment_length : D
  pub current_data : Coordinate D
  pub current_time : ℕ

module _ {D : Type 0} ⦃r : Reals D⦄ where
  open r use {lt, mul, quot, decimal, milliseconds}

  -- The members at the beginning of a segment.
  abbrev pub segment :
      List (Coordinate D) → ℕ → ℕ → ℕ → ℕ → Coordinate D → Coordinate D → TelemetrySimulator D
  segment ring first second start_time time from to =
      let ruler = CheapRuler.create from.latitude in
      record {
        ring = ring;
        segment_begin = first;
        segment_end = second;
        segment_ruler = ruler;
        segment_start_time = start_time;
        segment_bearing = CheapRuler.bearing ruler from to;
        segment_length = CheapRuler.distance ruler from to;
        current_data = from;
        current_time = time;
      }

  unfoldable pub enter : List (Coordinate D) → ℕ → ℕ → ℕ → ℕ → Option (TelemetrySimulator D)
  enter ring first second start_time time = do
    from ← get_elem? ring first
    to ← get_elem? ring second
    some (segment ring first second start_time time from to)

  -- The constructor, with the two times that it reads.
  unfoldable pub create : Polygon D → ℕ → ℕ → Option (TelemetrySimulator D)
  create polygon start_time time = enter polygon.outer_ring.coordinates 0 1 start_time time

  -- The body of the test in `update`: the next segment, or the first after the last.
  unfoldable pub next_segment : ℕ → TelemetrySimulator D → Option (TelemetrySimulator D)
  next_segment start_time s =
      if s.segment_end + 1 == length s.ring
      then enter s.ring 0 1 start_time s.current_time
      else enter s.ring s.segment_end (s.segment_end + 1) start_time s.current_time

  -- The way of the time since the last update, at two metres in a second.
  unfoldable pub advance : ℕ → TelemetrySimulator D → TelemetrySimulator D
  advance now s = record s {
    current_data =
        CheapRuler.destination s.segment_ruler s.current_data
          (mul (quot (milliseconds now s.current_time) (decimal 1000 0)) (decimal 2 0))
          s.segment_bearing;
    current_time = now;
  }

  -- The test in `update`, with the first coordinate of the segment.
  unfoldable pub is_past : Coordinate D → TelemetrySimulator D → Bool
  is_past from s = lt s.segment_length (CheapRuler.distance s.segment_ruler from s.current_data)

  -- With the time that a change of the segment reads.
  unfoldable pub update :
      ℕ → ℕ → TelemetrySimulator D → Option (TelemetrySimulator D × Coordinate D)
  update now start_time s = do
    from ← get_elem? s.ring s.segment_begin
    s' ← if is_past from s then next_segment start_time s else some s
    some (advance now s', (advance now s').current_data)
