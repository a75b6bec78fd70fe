-- ===== src/Application/Events.antt =====
-- Over any sequence of requests and cycles of the maintenance, the gateway's invariant stays: the
-- routes and `_lease_recovery_loop` of main.py of apps/gateway/src/orbi_gateway.
use orbi_inference.Application.{after_recovery}
use orbi_inference.Routes.{session}
use orbi_inference.Errors.{Result, ◌>>=◌}
use orbi_inference.Base.{ℕ, refl, List, [], ◌∷◌, inl, inr, subst, sym}
use orbi_inference.Base.Calendar.{Instant}
use orbi_inference.Errors.{Result-cases}
use orbi_inference.Entities.{Db}
use orbi_inference.Queue.Recovery.{recover_expired_leases}
use orbi_inference.WorkerHealth.{mark_stale_workers_offline}
use orbi_inference.Gateway.{recovers, elsewhere, Reach, here, next}
use orbi_inference.Gateway.Invariant.{IsSound}
use orbi_inference.Gateway.Soundness.{Reach-IsSound}
use orbi_inference.Routes.{Services}
use orbi_inference.Routes.Steps.{IsPossible, serve-Reach}
use orbi_inference.Application.{Event, request, maintenance, happen, run_events, maintain}

abbrev pub IsPossibleEvent : Event → Db → Type 0
IsPossibleEvent (request call) db = IsPossible call db
IsPossibleEvent (maintenance recovering marking) db = Unit

module _ {S : Type 0} (services : Services S) (timeout : ℕ) where
  -- Each event of the sequence is possible when it comes.
  abbrev pub ArePossible : List Event → Db × S → Type 0
  ArePossible [] state = Unit
  ArePossible (event ∷ events) state =
      IsPossibleEvent event state.0 × ArePossible events (happen services timeout event state)

  maintain-Reach :
      (recovering marking : Instant) (db : Db)
      → Reach services.contained services.dump db (maintain timeout recovering marking db)
  unfolding maintain mark_stale_workers_offline
  maintain-Reach recovering marking db =
      let left : Result (ℕ × Db) → Type 0 = λ m.
        Reach services.contained services.dump db
          (session db (m >>= after_recovery timeout marking)).1 in
      elim (Result-cases (recover_expired_leases recovering db)) [
        | inl ((count, recovered), e) ↦
            subst left (sym e)
              (next (next here (recovers recovering count e)) (elsewhere refl refl refl))
        | inr (_, e) ↦ subst left (sym e) here
      ]

  Reach-trans :
      {a b c : Db}
      → Reach services.contained services.dump a b
      → Reach services.contained services.dump b c
      → Reach services.contained services.dump a c
  Reach-trans walk here = walk
  Reach-trans walk (next rest st) = next (Reach-trans walk rest) st

  happen-Reach :
      (event : Event) (state : Db × S)
      → IsPossibleEvent event state.0
      → Reach services.contained services.dump state.0 (happen services timeout event state).0
  happen-Reach (request call) (db, s) p = (serve-Reach services call db s p).0
  happen-Reach (maintenance recovering marking) (db, s) p = maintain-Reach recovering marking db

  pub run_events-Reach :
      (events : List Event) (state : Db × S)
      → ArePossible events state
      → Reach services.contained services.dump state.0 (run_events services timeout events state).0
  run_events-Reach [] state p = here
  run_events-Reach (event ∷ events) state p =
      Reach-trans (happen-Reach event state p.0)
        (run_events-Reach events (happen services timeout event state) p.1)

  -- Any sequence of requests to the routes and of maintenance cycles, answered and refused ones alike,
  -- keeps the invariant of the database, if the ids that are drawn are new and the clock does not run
  -- back over midnight.
  pub run_events-IsSound :
      (events : List Event) (state : Db × S)
      → ArePossible events state
      → IsSound state.0
      → IsSound (run_events services timeout events state).0
  run_events-IsSound events state p s =
      Reach-IsSound services.dump services.contained s (run_events-Reach events state p)
