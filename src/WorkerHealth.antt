-- ===== src/WorkerHealth.antt =====
-- apps/gateway/src/orbi_gateway/services/worker_health.py: workers that have stopped to send
-- heartbeats are marked offline.
use Prim.Native.Nat.{ℕ, ◌+◌, ◌<◌}
use mathlib.Core.Option
use orbi_inference.Base.{
  true, ◌∙◌, ap, refl, inl, inr, Bool-cases, arith, ◌⊎◌, sym, Option-cases, ◌≡◌, refl, Bool, false,
  ◌&&◌, Option, none, some, List, [], ◌∷◌, ltb, if◌then◌else◌, arith, keep, length,
}
use orbi_inference.Base.Table.{get, update_where}
use orbi_inference.Base.Calendar.{Instant, seconds}
use orbi_inference.Errors.{Result, ok, value_error, ◌>>◌, raise_if}
use orbi_inference.Entities.{Worker, Db}
use orbi_inference.Entities.Status.{WorkerStatus, is_online}
use orbi_inference.Auth.{find_worker}

-- `WorkerHealthService(heartbeat_timeout_seconds)`: the timeout that it keeps.
unfoldable pub heartbeat_timeout : ℕ → Result ℕ
heartbeat_timeout heartbeat_timeout_seconds = do
  raise_if (ltb heartbeat_timeout_seconds 30)
      (value_error "heartbeat timeout must be at least 30 seconds")
  ok heartbeat_timeout_seconds

-- `last_heartbeat < now - timeout`, which is not true of a null.
abbrev pub is_silent : ℕ → Instant → Option Instant → Bool
is_silent timeout now none = false
is_silent timeout now (some last_heartbeat) = ltb (last_heartbeat + seconds timeout) now

abbrev pub is_stale : ℕ → Instant → Worker → Bool
is_stale timeout now worker = is_online worker.status && is_silent timeout now worker.last_heartbeat

abbrev pub go_offline : Worker → Worker
go_offline worker = record worker { status = WorkerStatus.offline }

-- `mark_stale_workers_offline`, with the number of rows that it changed.
unfoldable pub mark_stale_workers_offline : ℕ → Instant → Db → ℕ × Db
mark_stale_workers_offline timeout now db = (
  length (keep (is_stale timeout now) db.workers),
  record db { workers = update_where (is_stale timeout now) go_offline db.workers },
)

false-ne_true : ¬ (false ≡ true)
false-ne_true h = ground arith

get-update_where :
    (p : Worker → Bool) (f : Worker → Worker) (k : ℕ) (t : List Worker)
    → ((w : Worker) → (f w).id ≡ w.id)
    → get Worker.id k (update_where p f t)
      ≡ Option.map (λ (w : Worker). if p w then f w else w) (get Worker.id k t)
unfolding get
get-update_where p f k [] same = refl
get-update_where p f k (x ∷ xs) same = ground (arith, same x, get-update_where p f k xs same)

-- The worker is online, and its last heartbeat is longer ago than the timeout.
pub record IsLost (timeout : ℕ) (now : Instant) (worker : Worker) : Type 0 where
  pub was_online : worker.status ≡ WorkerStatus.online
  pub last : Instant
  pub seen : worker.last_heartbeat ≡ some last
  pub long_ago : last + seconds timeout < now

is_online→eq : (s : WorkerStatus) → is_online s ≡ true → s ≡ WorkerStatus.online
is_online→eq WorkerStatus.online h = refl
is_online→eq _ h = absurd (ground arith)

is_stale-IsLost :
    (timeout : ℕ) (now : Instant) (worker : Worker)
    → is_stale timeout now worker ≡ true
    → IsLost timeout now worker
is_stale-IsLost timeout now worker h = elim (Option-cases worker.last_heartbeat) [
  | inl e ↦ absurd (ground (arith, e))
  | inr (t, e) ↦ record {
    was_online = is_online→eq worker.status (ground arith);
    last = t;
    seen = e;
    long_ago = ground (arith, e);
  }
]

IsLost-is_stale :
    (timeout : ℕ) (now : Instant) (worker : Worker)
    → IsLost timeout now worker
    → is_stale timeout now worker ≡ true
IsLost-is_stale timeout now worker l = rw (l.was_online, l.seen) (ground (arith, l.long_ago))

-- A stored worker that is online and has been silent for longer than the timeout goes offline and
-- keeps the rest of its row; any other worker stays as it is.
pub mark_stale_workers_offline-exact :
    (timeout : ℕ) (now : Instant) (worker_id : ℕ) (db : Db) {w : Worker}
    → find_worker worker_id db ≡ some w
    → (IsLost timeout now w
        × (find_worker worker_id (mark_stale_workers_offline timeout now db).1
            ≡ some (record w { status = WorkerStatus.offline })))
      ⊎ (¬ IsLost timeout now w
          × (find_worker worker_id (mark_stale_workers_offline timeout now db).1 ≡ some w))
unfolding mark_stale_workers_offline
mark_stale_workers_offline-exact timeout now worker_id db {w} found =
    let after =
      get-update_where (is_stale timeout now) go_offline worker_id db.workers (λ v. refl)
      ∙ ap (Option.map (λ (v : Worker). if is_stale timeout now v then go_offline v else v))
          found in
    elim (Bool-cases (is_stale timeout now w)) [
      | inl t ↦ inl (is_stale-IsLost timeout now w t, after ∙ rw t refl)
      | inr f ↦
          inr (λ l. false-ne_true (sym f ∙ IsLost-is_stale timeout now w l), after ∙ rw f refl)
    ]
