-- ===== src/Cloud/Sfu.antt =====
-- crates/tpt-t-cloud/src/sfu.rs: the fan-out of media frames, a ring to a subscriber. The hash map is
-- the list of its entries; a subscriber that dropped its ring is not alive.
use tpt_teleop.Prelude.{
  ℕ, suc, ◌-◌, Bool, true, List, [], ◌∷◌, ◌++◌, length, take, replicate, min, max, ◌==◌,
  if◌then◌else◌,
}
use tpt_teleop.Prelude.Words.{wrapping_add_64}
use tpt_teleop.Ring.Spsc.{Spsc, with_capacity, push}
use tpt_teleop.Core.Bus.{is_ok}
use tpt_teleop.Link.Mux.{max_payload}
pub mod Viewers
mod Tests

pub record MediaFrame : Type 0 where
  pub channel : ℕ
  pub seq : ℕ
  pub len : ℕ
  pub payload : List ℕ

-- `MediaFrame::new`
unfoldable pub frame : ℕ → ℕ → List ℕ → MediaFrame
frame channel seq payload =
    let n = min (length payload) max_payload in
    record {
      channel = channel;
      seq = seq;
      len = n;
      payload = take n payload ++ replicate (max_payload - n) 0;
    }

pub record Subscriber : Type 0 where
  pub id : ℕ
  pub ring : Spsc MediaFrame
  pub alive : Bool

pub record SfuFanout : Type 0 where
  pub next : ℕ
  pub subs : List Subscriber

unfoldable pub new : SfuFanout
new = record { next = 1; subs = [] }

-- `subs.remove(&id)`
unfoldable pub remove : ℕ → List Subscriber → List Subscriber
remove id [] = []
remove id (s ∷ ss) = let rest = remove id ss in if s.id == id then rest else s ∷ rest

unfoldable pub subscribe : ℕ → SfuFanout → ℕ × SfuFanout
unfolding remove
subscribe capacity f =
    let id = f.next in
    let s : Subscriber = record { id = id; ring = with_capacity (max capacity 1); alive = true } in
    (id, record { next = wrapping_add_64 id 1; subs = remove id f.subs ++ s ∷ [] })

unfoldable pub unsubscribe : ℕ → SfuFanout → SfuFanout
unfolding remove
unsubscribe id f = record f { subs = remove id f.subs }

unfoldable pub count_alive : List Subscriber → ℕ
count_alive [] = 0
count_alive (s ∷ ss) = let rest = count_alive ss in if s.alive then suc rest else rest

unfoldable pub subscriber_count : SfuFanout → ℕ
unfolding count_alive
subscriber_count f = count_alive f.subs

-- The loops of `publish`: how many rings took the frame, and the entries that are left.
unfoldable pub publish_to : MediaFrame → List Subscriber → ℕ × List Subscriber
publish_to m [] = (0, [])
publish_to m (s ∷ ss) =
    let (n, rest) = publish_to m ss in
    let (res, ring) = push s.ring m in
    if s.alive
    then ((if is_ok res then suc n else n), record s { ring = ring } ∷ rest)
    else (n, rest)

unfoldable pub publish : MediaFrame → SfuFanout → ℕ × SfuFanout
unfolding publish_to
publish m f = let (n, subs) = publish_to m f.subs in (n, record f { subs = subs })
