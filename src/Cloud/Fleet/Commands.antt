-- ===== src/Cloud/Fleet/Commands.antt =====
-- What `Fleet::set_mode` of crates/tpt-t-cloud/src/fleet.rs leaves, whatever the transport does.
use tpt_teleop.Prelude.{
  ℕ, ◌<◌, ◌≡◌, refl, sym, ◌∙◌, ap, subst, arith, inl, inr, true, Bool-cases, Option, none, some,
  List, [], ◌∷◌, length, ◌==◌,
}
use tpt_teleop.Prelude.Words.{u64_mod, wrapping_add_64}
use tpt_teleop.Core.Mode.{Mode, TransitionTable}
use tpt_teleop.Cloud.Fleet.{
  UnitTransport, UnitState, Fleet, Outcome, ok, not_found, path_via, make_command, put, send_path,
  command_path, set_mode,
}
use tpt_teleop.Cloud.Fleet.Paths.{Route, here, go, path_via-Route}

module _ {R : Type 0} where
  -- A unit that was moved along a route, with a number for each command.
  pub record IsMoved (table : TransitionTable) (u : UnitState R) (done : List Mode)
      (u' : UnitState R) : Type 0 where
    pub route : Route table u.mode done u'.mode
    pub seq : u'.cmd_seq ≡ wrapping_add_64 u.cmd_seq (length done)
    pub operator : u'.assigned_operator ≡ u.assigned_operator

module _ {R T : Type 0} (ops : UnitTransport T) (clock : ℕ → ℕ) where
  send_path_lem :
      (table : TransitionTable) (addr : ℕ) (path : List Mode) (target : Mode) (u : UnitState R)
      (t : T)
      → Route table u.mode path target
      → u.cmd_seq < u64_mod
      → (done : List Mode) × IsMoved table u done (send_path ops clock addr path u t).1
        × ((send_path ops clock addr path u t).0 ≡ true
            → (send_path ops clock addr path u t).1.mode ≡ target)
  unfolding send_path
  send_path_lem table addr [] target u t here word =
      ([], record { route = here; seq = omega (arith, word); operator = refl }, λ e. refl)
  send_path_lem table addr (b ∷ path) target u t (go edge route) word =
      let (sent, t') = ops.send_command addr (make_command (clock u.cmd_seq) b u.cmd_seq) t in
      let v : UnitState R = record u { mode = b; cmd_seq = wrapping_add_64 u.cmd_seq 1 } in
      elim (Bool-cases sent) [
        | inl went ↦
            let (done, m, arrives) =
              send_path_lem table addr path target v t' route (omega arith) in
            rw went (
              b ∷ done,
              record { route = go edge m.route; seq = m.seq ∙ omega arith; operator = m.operator },
              arrives,
            )
        | inr stopped ↦ rw stopped (
          [],
          record { route = here; seq = omega (arith, word); operator = refl },
          λ e. absurd (ground (arith, e)),
        )
      ]

  command_path_lem :
      (id : ℕ) (target : Mode) (u : UnitState R) (path : Option (List Mode)) (f : Fleet R T)
      → f.units id ≡ some u
      → ((ms : List Mode) → path ≡ some ms → Route f.table u.mode ms target)
      → u.cmd_seq < u64_mod
      → (u' : UnitState R) × (done : List Mode) × ((command_path ops clock id target u path
              f).1.units
            id
          ≡ some u')
        × IsMoved f.table u done u'
        × ((command_path ops clock id target u path f).0 ≡ ok → u'.mode ≡ target)
  unfolding command_path put
  command_path_lem id target u none f there legal word = (
    u,
    [],
    there,
    record { route = here; seq = omega (arith, word); operator = refl },
    λ e. absurd (ground (arith, e)),
  )
  command_path_lem id target u (some path) f there legal word =
      let (all, u', t) = send_path ops clock u.addr path u f.transport in
      let (done, m, arrives) =
        send_path_lem f.table u.addr path target u f.transport (legal path refl) word in
      let own : (id == id) ≡ true = ground arith in
      (
        u',
        done,
        rw own refl,
        m,
        λ e. arrives (elim (Bool-cases all) [ inl y ↦ y | inr n ↦ absurd (ground (arith, e, n)) ]),
      )

  set_mode-command_path :
      (id : ℕ) (target : Mode) (u : UnitState R) (f : Fleet R T)
      → f.units id ≡ some u
      → set_mode ops clock id target f
        ≡ command_path ops clock id target u (path_via f.table u.mode target) f
  unfolding set_mode
  set_mode-command_path id target u f there =
      ap
        (λ o. elim o as (λ x. Outcome × Fleet R T) [
          | none ↦ (not_found id, f)
          | some v ↦ command_path ops clock id target v (path_via f.table v.mode target) f
        ])
        there

  -- Whatever the transport does, a command to change the mode of a unit leaves the fleet's view of
  -- the unit's mode at the end of a route of edges that the table allows, with the operator kept and
  -- the command number moved on by one for each edge; when the answer is `ok` that is the mode asked
  -- for.
  pub set_mode_lem :
      (id : ℕ) (target : Mode) (u : UnitState R) (f : Fleet R T)
      → f.units id ≡ some u
      → u.cmd_seq < u64_mod
      → (u' : UnitState R) × (done : List Mode) × ((set_mode ops clock id target f).1.units id
          ≡ some u')
        × IsMoved f.table u done u'
        × ((set_mode ops clock id target f).0 ≡ ok → u'.mode ≡ target)
  unfolding set_mode
  set_mode_lem id target u f there word =
      subst
        (λ r.
          (u' : UnitState R) × (done : List Mode) × (r.1.units id ≡ some u')
          × IsMoved f.table u done u'
          × (r.0 ≡ ok → u'.mode ≡ target))
        (sym (set_mode-command_path id target u f there))
        (command_path_lem id target u (path_via f.table u.mode target) f there
          (λ ms e. path_via-Route f.table u.mode target ms e) word)
