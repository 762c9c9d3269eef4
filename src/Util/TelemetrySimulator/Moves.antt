-- ===== src/Util/TelemetrySimulator/Moves.antt =====
-- Where a simulator is: on which segment of the ring, and with which members.
use platform_sdk.Base.{
  ℕ, suc, ◌+◌, ◌<◌, ◌==◌, ◌≡◌, refl, Bool-cases, inl, inr, some, List, length, get_elem?,
  get_elem?-of_lt, if◌then◌else◌, arith,
}
use platform_sdk.Core.Geometry.{Coordinate}
use platform_sdk.Util.CheapRuler.{Reals, CheapRuler}
use platform_sdk.Util.CheapRuler
use platform_sdk.Util.TelemetrySimulator.{
  TelemetrySimulator, segment, enter, is_past, next_segment, advance, update,
}

module _ {D : Type 0} ⦃r : Reals D⦄ where
  -- The simulator flies from the coordinate `k` of the ring to the one after it, and the ruler, the
  -- bearing and the length are those of that segment.
  pub record IsOn (ring : List (Coordinate D)) (k : ℕ) (s : TelemetrySimulator D) : Type 0 where
    pub same_ring : s.ring ≡ ring
    pub begins : s.segment_begin ≡ k
    pub ends : s.segment_end ≡ suc k
    pub inside : suc k < length ring
    pub from : Coordinate D
    pub to : Coordinate D
    pub from_lem : get_elem? ring k ≡ some from
    pub to_lem : get_elem? ring (suc k) ≡ some to
    pub ruled : s.segment_ruler ≡ CheapRuler.create from.latitude
    pub bears : s.segment_bearing ≡ CheapRuler.bearing (CheapRuler.create from.latitude) from to
    pub measures : s.segment_length ≡ CheapRuler.distance (CheapRuler.create from.latitude) from to

  -- The segment after `k`: the ring starts again after the last one.
  abbrev pub next : List (Coordinate D) → ℕ → ℕ
  next ring k = if k + 2 == length ring then 0 else suc k

  pub enter-IsOn :
      (ring : List (Coordinate D)) (k start_time time : ℕ)
      → suc k < length ring
      → (s : TelemetrySimulator D) × (enter ring k (suc k) start_time time ≡ some s)
        × IsOn ring k s
        × (get_elem? ring k ≡ some s.current_data)
        × (s.current_time ≡ time)
  unfolding enter
  enter-IsOn ring k start_time time h =
      let (from, e) = get_elem?-of_lt ring k (omega arith) in
      let (to, f) = get_elem?-of_lt ring (suc k) h in
      (
        segment ring k (suc k) start_time time from to,
        rw (e, f),
        record {
          same_ring = refl;
          begins = refl;
          ends = refl;
          inside = h;
          from = from;
          to = to;
          from_lem = e;
          to_lem = f;
          ruled = refl;
          bears = refl;
          measures = refl;
        },
        e,
        refl,
      )

  next-lt :
      (ring : List (Coordinate D)) (k : ℕ) → suc k < length ring → suc (next ring k) < length ring
  next-lt ring k h = ground arith

  next_segment_lem :
      (ring : List (Coordinate D)) (k start_time : ℕ) (s : TelemetrySimulator D)
      → IsOn ring k s
      → next_segment start_time s
        ≡ enter ring (next ring k) (suc (next ring k)) start_time s.current_time
  unfolding next_segment
  next_segment_lem ring k start_time s h = ground arith

  advance-IsOn :
      (ring : List (Coordinate D)) (k now : ℕ) (s : TelemetrySimulator D)
      → IsOn ring k s
      → IsOn ring k (advance now s)
  unfolding advance
  advance-IsOn ring k now s h = record {
    same_ring = h.same_ring;
    begins = h.begins;
    ends = h.ends;
    inside = h.inside;
    from = h.from;
    to = h.to;
    from_lem = h.from_lem;
    to_lem = h.to_lem;
    ruled = h.ruled;
    bears = h.bears;
    measures = h.measures;
  }

  reads_from :
      (ring : List (Coordinate D)) (k : ℕ) (s : TelemetrySimulator D) (h : IsOn ring k s)
      → get_elem? s.ring s.segment_begin ≡ some h.from
  reads_from ring k s h = simp (h.same_ring, h.begins, h.from_lem)

  -- The segment after an update, and the coordinate that the way since the last update starts at:
  -- past the end of its segment the simulator enters the next one at its first coordinate.
  abbrev pub segment_after :
      {ring : List (Coordinate D)} {k : ℕ} {s : TelemetrySimulator D} → IsOn ring k s → ℕ
  segment_after {ring} {k} {s} h = if is_past h.from s then next ring k else k

  -- An update returns. It leaves the simulator on its segment, or on the next one if it was past the
  -- end, and answers with the coordinate that it has moved to.
  pub update-IsOn :
      (ring : List (Coordinate D)) (k now start_time : ℕ) (s : TelemetrySimulator D)
      (h : IsOn ring k s)
      → (s' : TelemetrySimulator D) × (update now start_time s
          ≡ some (advance now s', (advance now s').current_data))
        × IsOn ring (segment_after h) (advance now s')
        × (if is_past h.from s then get_elem? ring (next ring k) ≡ some s'.current_data else s' ≡ s)
  unfolding update
  update-IsOn ring k now start_time s h = elim (Bool-cases (is_past h.from s)) [
    | inl past ↦
        let (s', e, on, data_lem, time) =
          enter-IsOn ring (next ring k) start_time s.current_time (next-lt ring k h.inside) in
        rw past (
          s',
          rw (reads_from ring k s h, past, next_segment_lem ring k start_time s h, e),
          advance-IsOn ring (next ring k) now s' on,
          data_lem,
        )
    | inr before ↦
        rw before (s, rw (reads_from ring k s h, before), advance-IsOn ring k now s h, refl)
  ]
