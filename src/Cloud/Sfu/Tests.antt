-- ===== src/Cloud/Sfu/Tests.antt =====
-- Runs of the fan-out of crates/tpt-t-cloud/src/sfu.rs on small inputs.
use tpt_teleop.Prelude.{◌≡◌, refl, arith, true, false, List, [], ◌∷◌, map, length}
use tpt_teleop.Prelude.PowTwo.{log2_ceil}
use tpt_teleop.Ring.Spsc.{with_capacity, push, len}
use tpt_teleop.Ring.Bounded.{enqueue}
use tpt_teleop.Ring.Refine.{push-Holds}
use tpt_teleop.Ring.Runs.{with_capacity_lem}
use tpt_teleop.Cloud.Sfu.{MediaFrame, SfuFanout, publish_to, publish, subscriber_count}
use tpt_teleop.Cloud.Sfu.Viewers.{
  Viewer, ServesEach, nil, cons, filter, has_room, offered, publish-ServesEach,
}

abbrev first_frame : MediaFrame
first_frame = record { channel = 1; seq = 1; len = 1; payload = 7 ∷ [] }

abbrev second_frame : MediaFrame
second_frame = record { channel = 1; seq = 2; len = 1; payload = 8 ∷ [] }

-- Three subscribers with room for one frame: the first has room, the second is full, the third has
-- dropped its ring.
abbrev fan_out : SfuFanout
fan_out = record {
  next = 4;
  subs =
      record { id = 1; ring = with_capacity 1; alive = true }
      ∷ record { id = 2; ring = (push (with_capacity 1) first_frame).1; alive = true }
      ∷ record { id = 3; ring = with_capacity 1; alive = false }
      ∷ [];
}

abbrev viewers : List Viewer
viewers =
    record { id = 1; log2_capacity = 0; queue = []; alive = true }
    ∷ record { id = 2; log2_capacity = 0; queue = first_frame ∷ []; alive = true }
    ∷ record { id = 3; log2_capacity = 0; queue = []; alive = false }
    ∷ []

fan_out-viewers : ServesEach fan_out.subs viewers
unfolding log2_ceil enqueue
fan_out-viewers =
    let made = (with_capacity_lem {A = MediaFrame} 1 (omega arith)).0 in
    cons 1 true made (cons 2 true (push-Holds first_frame made).1 (cons 3 false made nil))

publish-ServesEach_example :
    let present = filter (λ v. v.alive) viewers in
    let (delivered, f') = publish second_frame fan_out in
    (delivered ≡ length (filter has_room present))
    × ServesEach f'.subs (map (offered second_frame) present)
    × (subscriber_count f' ≡ subscriber_count fan_out)
publish-ServesEach_example = publish-ServesEach second_frame fan_out viewers fan_out-viewers

one_delivered : (publish second_frame fan_out).0 ≡ 1
unfolding publish publish_to push len with_capacity log2_ceil
one_delivered = refl
