-- ===== src/Cloud/Sfu/Viewers.antt =====
-- The fan-out of crates/tpt-t-cloud/src/sfu.rs as its viewers see it: a bounded queue of frames each.
use tpt_teleop.Prelude.{
  ℕ, suc, ◌^◌, ◌≤◌, ◌≡◌, refl, sym, subst, ◌∙◌, arith, Bool, true, false, Bool-cases, List, [], ◌∷◌,
  ◌++◌, map, length, ltb, ◌==◌, not, inl, inr, if◌then◌else◌, max, ap, length-map,
}
use tpt_teleop.Prelude.PowTwo.{log2_ceil}
use tpt_teleop.Ring.Spsc.{Spsc, push, with_capacity}
use tpt_teleop.Ring.Bounded.{enqueue}
use tpt_teleop.Ring.Refine.{Holds, push-Holds}
use tpt_teleop.Ring.Runs.{with_capacity_lem}
use tpt_teleop.Core.Bus.{is_ok}
use tpt_teleop.Cloud.Sfu.{
  MediaFrame, Subscriber, SfuFanout, publish_to, publish, count_alive, subscriber_count, remove,
  subscribe, unsubscribe,
}

-- A viewer's queue takes at most `2 ^ log2_capacity` frames.
pub record Viewer : Type 0 where
  pub id : ℕ
  pub log2_capacity : ℕ
  pub queue : List MediaFrame
  pub alive : Bool

-- Each entry's ring holds the queue of the viewer at its place.
pub data ServesEach : List Subscriber → List Viewer → Type 0 where
  nil : ServesEach [] []
  cons :
      (id : ℕ) (alive : Bool) {k : ℕ} {r : Spsc MediaFrame} {q : List MediaFrame}
      {ss : List Subscriber} {vs : List Viewer}
      → Holds k r q
      → ServesEach ss vs
      → ServesEach
          (record { id = id; ring = r; alive = alive } ∷ ss)
          (record { id = id; log2_capacity = k; queue = q; alive = alive } ∷ vs)

abbrev pub filter : (Viewer → Bool) → List Viewer → List Viewer
filter p [] = []
filter p (v ∷ vs) = if p v then v ∷ filter p vs else filter p vs

abbrev pub has_room : Viewer → Bool
has_room v = ltb (length v.queue) (2 ^ v.log2_capacity)

abbrev pub offered : MediaFrame → Viewer → Viewer
offered m v = record v { queue = (enqueue (2 ^ v.log2_capacity) v.queue m).1 }

is_ok-push :
    (m : MediaFrame) {k : ℕ} {r : Spsc MediaFrame} {q : List MediaFrame}
    → Holds k r q
    → is_ok (push r m).0 ≡ ltb (length q) (2 ^ k)
unfolding enqueue
is_ok-push m h = ground (arith, (push-Holds m h).0)

count_alive_lem :
    (ss : List Subscriber) (vs : List Viewer)
    → ServesEach ss vs
    → count_alive ss ≡ length (filter (λ v. v.alive) vs)
unfolding count_alive
count_alive_lem _ _ nil = refl
count_alive_lem _ _ (cons id true {ss} {vs} h hs) = ap suc (count_alive_lem ss vs hs)
count_alive_lem _ _ (cons id false {ss} {vs} h hs) = count_alive_lem ss vs hs

publish_to_lem :
    (m : MediaFrame) (ss : List Subscriber) (vs : List Viewer)
    → ServesEach ss vs
    → ((publish_to m ss).0 ≡ length (filter has_room (filter (λ v. v.alive) vs)))
      × ServesEach (publish_to m ss).1 (map (offered m) (filter (λ v. v.alive) vs))
unfolding publish_to
publish_to_lem m _ _ nil = (refl, nil)
publish_to_lem m _ _ (cons id true {ss} {vs} h hs) =
    let (count, rest) = publish_to_lem m ss vs hs in
    (ground (arith, count, is_ok-push m h), cons id true (push-Holds m h).1 rest)
publish_to_lem m _ _ (cons id false {ss} {vs} h hs) = publish_to_lem m ss vs hs

all_present :
    (m : MediaFrame) (vs : List Viewer)
    → let present = filter (λ v. v.alive) vs in
      filter (λ v. v.alive) (map (offered m) present) ≡ map (offered m) present
all_present m [] = refl
all_present m (v ∷ vs) = elim (Bool-cases v.alive) [
  | inl here ↦ rw (here, all_present m vs) refl
  | inr gone ↦ rw (gone, all_present m vs) refl
]

-- A frame is offered to the viewers that are still there: it is appended to the queue of each that
-- has room and dropped for the others, and the result says how many got it. The viewers that
-- left are forgotten, the order of the rest is kept, and as many are there as were before.
pub publish-ServesEach :
    (m : MediaFrame) (f : SfuFanout) (vs : List Viewer)
    → ServesEach f.subs vs
    → let present = filter (λ v. v.alive) vs in
      let (delivered, f') = publish m f in
      (delivered ≡ length (filter has_room present))
      × ServesEach f'.subs (map (offered m) present)
      × (subscriber_count f' ≡ subscriber_count f)
unfolding publish subscriber_count
publish-ServesEach m f vs h =
    let (count, rest) = publish_to_lem m f.subs vs h in
    (
      count,
      rest,
      count_alive_lem _ _ rest
          ∙ ap length (all_present m vs)
          ∙ length-map (filter (λ v. v.alive) vs) (offered m)
          ∙ sym (count_alive_lem f.subs vs h),
    )

remove_lem :
    (id : ℕ) (ss : List Subscriber) (vs : List Viewer)
    → ServesEach ss vs
    → ServesEach (remove id ss) (filter (λ v. not (v.id == id)) vs)
unfolding remove
remove_lem id _ _ nil = nil
remove_lem id _ _ (cons i alive {ss} {vs} h hs) =
    let rest = remove_lem id ss vs hs in
    elim (Bool-cases (i == id)) [
      | inl same ↦ rw same rest
      | inr other ↦ rw other (cons i alive h rest)
    ]

joined :
    {ss : List Subscriber} {vs : List Viewer} {s : Subscriber} {v : Viewer}
    → ServesEach ss vs
    → ServesEach (s ∷ []) (v ∷ [])
    → ServesEach (ss ++ s ∷ []) (vs ++ v ∷ [])
joined nil e = e
joined (cons id alive h hs) e = cons id alive h (joined hs e)

-- A new viewer joins with an empty queue, whose capacity is the least power of two that is at least
-- what was asked for, behind the others; its id is the one that was due. One who leaves is
-- forgotten, and the others keep their queues.
pub membership_lem :
    (capacity id : ℕ) (f : SfuFanout) (vs : List Viewer)
    → capacity ≤ 2 ^ 63
    → ServesEach f.subs vs
    → let (given, f') = subscribe capacity f in
      let viewer : Viewer = record {
        id = given;
        log2_capacity = log2_ceil (max capacity 1);
        queue = [];
        alive = true;
      } in
      (given ≡ f.next)
      × ServesEach f'.subs (filter (λ v. not (v.id == given)) vs ++ viewer ∷ [])
      × ServesEach (unsubscribe id f).subs (filter (λ v. not (v.id == id)) vs)
unfolding subscribe unsubscribe
membership_lem capacity id f vs fits h =
    let n : ℕ = max capacity 1 in
    let empty : Holds (log2_ceil n) (with_capacity {A = MediaFrame} n) [] =
      subst (λ (i : ℕ). Holds (log2_ceil i) (with_capacity {A = MediaFrame} n) []) (omega arith)
        (with_capacity_lem n (omega arith)).0 in
    (
      refl,
      joined (remove_lem f.next f.subs vs h) (cons f.next true empty nil),
      remove_lem id f.subs vs h,
    )
